-- ===== src/Samsara/Write/Response.antt =====
-- `writeResult` reads back what `writeResultBytes` built.
use diarsaba_go.Prelude.{ℕ, ◌^◌, ◌<◌, ◌≡◌, List, [], ◌++◌, length}
use diarsaba_go.Js.Result.{ok, ◌>>=◌}
use diarsaba_go.Js.Number.{ℤ, be32, to_uint32, to_uint32-lt}
use diarsaba_go.Js.Entropy.{Entropy}
use diarsaba_go.Common.Value.{Value, part, Converts, Converts-part}
use diarsaba_go.Common.Concat.Laws.{done, next, Converts-u32_bytes}
use diarsaba_go.Common.Ids.{Identifies, build_result_message-Parts}
use diarsaba_go.Samsara.ResultFrame.{id_read, status_read, long_enough}
use diarsaba_go.Samsara.Write.{write_result_bytes, write_result}

-- A frame with these fields is accepted, whatever follows them.
write_result_accepts :
    {message : Value} (raw trailing : List ℕ) (status : ℕ)
    → length raw ≡ 16
    → status < 2 ^ 32
    → Converts message (raw ++ (be32 status ++ (trailing)))
    → write_result message ≡ ok (record { id = raw; status = status })
unfolding write_result
write_result_accepts raw trailing status k ks m =
    rw (
      m.converted,
      long_enough _ _ _ m k "WriteResult",
      status_read _ _ _ m k ks,
      id_read _ _ _ m k,
    )

-- `writeResult` reads back from what `writeResultBytes` built the id and, modulo 2 ^ 32, the
-- status.
pub write_result-write_result_bytes :
    {id : Value} {raw : List ℕ} {e e₁ : Entropy} (status new_cell_index : ℤ) (new_value : Value)
    → Identifies id e raw e₁
    → (write_result_bytes id status new_cell_index new_value e >>= λ (frame, _).
        write_result (part frame))
      ≡ ok (record { id = raw; status = to_uint32 status })
unfolding write_result_bytes
write_result-write_result_bytes status new_cell_index new_value hi =
    rw (build_result_message-Parts hi (next (Converts-u32_bytes status) done))
      (write_result_accepts _ [] _ hi.sixteen (to_uint32-lt status) (Converts-part _))
