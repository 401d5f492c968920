-- ===== src/Samsara/CreateDb/Response.antt =====
-- `createDbResult` reads back what `createDbResultBytes` built.
use diarsaba_go.Prelude.{ℕ, ◌^◌, ◌<◌, ◌≡◌, List, [], ◌++◌, length}
use diarsaba_go.Js.Result.{ok, ◌>>=◌}
use diarsaba_go.Js.Number.{ℤ, be32, to_uint32, to_uint32-lt}
use diarsaba_go.Js.Entropy.{Entropy}
use diarsaba_go.Common.Value.{Value, part, Converts, Converts-part}
use diarsaba_go.Common.Concat.Laws.{done, next, Converts-u32_bytes}
use diarsaba_go.Common.Ids.{Identifies, build_result_message-Parts}
use diarsaba_go.Samsara.ResultFrame.{id_read, status_read, long_enough}
use diarsaba_go.Samsara.CreateDb.{create_db_result_bytes, create_db_result}

-- A frame with these fields is accepted, whatever follows them.
create_db_result_accepts :
    {message : Value} (raw trailing : List ℕ) (status : ℕ)
    → length raw ≡ 16
    → status < 2 ^ 32
    → Converts message (raw ++ (be32 status ++ (trailing)))
    → create_db_result message ≡ ok (record { id = raw; status = status })
unfolding create_db_result
create_db_result_accepts raw trailing status k ks m = rw (
  m.converted,
  long_enough _ _ _ m k "CreateDBResult",
  status_read _ _ _ m k ks,
  id_read _ _ _ m k,
)

-- `createDbResult` reads back from what `createDbResultBytes` built the id and, modulo 2 ^ 32, the
-- status.
pub create_db_result-create_db_result_bytes :
    {id : Value} {raw : List ℕ} {e e₁ : Entropy} (status : ℤ)
    → Identifies id e raw e₁
    → (create_db_result_bytes id status e >>= λ (frame, _). create_db_result (part frame))
      ≡ ok (record { id = raw; status = to_uint32 status })
unfolding create_db_result_bytes
create_db_result-create_db_result_bytes status hi =
    rw (build_result_message-Parts hi (next (Converts-u32_bytes status) done))
      (create_db_result_accepts _ [] _ hi.sixteen (to_uint32-lt status) (Converts-part _))
