-- ===== src/Samsara/DeleteDb/Response.antt =====
-- `deleteDbResult` reads back what `deleteDbResultBytes` built.
use diarsaba_go.Prelude.{ℕ, ◌^◌, ◌<◌, ◌≡◌, List, [], ◌++◌, length}
use diarsaba_go.Js.Result.{ok, ◌>>=◌}
use diarsaba_go.Js.Number.{ℤ, be32, to_uint32, to_uint32-lt}
use diarsaba_go.Js.Entropy.{Entropy}
use diarsaba_go.Common.Value.{Value, part, Converts, Converts-part}
use diarsaba_go.Common.Concat.Laws.{done, next, Converts-u32_bytes}
use diarsaba_go.Common.Ids.{Identifies, build_result_message-Parts}
use diarsaba_go.Samsara.ResultFrame.{id_read, status_read, long_enough}
use diarsaba_go.Samsara.DeleteDb.{delete_db_result_bytes, delete_db_result}

-- A frame with these fields is accepted, whatever follows them.
delete_db_result_accepts :
    {message : Value} (raw trailing : List ℕ) (status : ℕ)
    → length raw ≡ 16
    → status < 2 ^ 32
    → Converts message (raw ++ (be32 status ++ (trailing)))
    → delete_db_result message ≡ ok (record { id = raw; status = status })
unfolding delete_db_result
delete_db_result_accepts raw trailing status k ks m = rw (
  m.converted,
  long_enough _ _ _ m k "DeleteDBResult",
  status_read _ _ _ m k ks,
  id_read _ _ _ m k,
)

-- `deleteDbResult` reads back from what `deleteDbResultBytes` built the id and, modulo 2 ^ 32, the
-- status.
pub delete_db_result-delete_db_result_bytes :
    {id : Value} {raw : List ℕ} {e e₁ : Entropy} (status : ℤ)
    → Identifies id e raw e₁
    → (delete_db_result_bytes id status e >>= λ (frame, _). delete_db_result (part frame))
      ≡ ok (record { id = raw; status = to_uint32 status })
unfolding delete_db_result_bytes
delete_db_result-delete_db_result_bytes status hi =
    rw (build_result_message-Parts hi (next (Converts-u32_bytes status) done))
      (delete_db_result_accepts _ [] _ hi.sixteen (to_uint32-lt status) (Converts-part _))
