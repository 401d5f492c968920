-- ===== src/Samsara/ReadFree/Response.antt =====
-- `readFreeResult` reads back what `readFreeResultBytes` built.
use diarsaba_go.Prelude.{ℕ, ◌^◌, ◌<◌, ◌≡◌, List, ◌++◌, length, append-nil}
use diarsaba_go.Js.Result.{ok, ◌>>=◌}
use diarsaba_go.Js.Number.{ℤ, be32, to_uint32, to_uint32-lt}
use diarsaba_go.Js.Entropy.{Entropy}
use diarsaba_go.Common.Value.{Value, part, Converts, Converts-part, Converts-again}
use diarsaba_go.Common.Concat.Laws.{done, next, Converts-u32_bytes}
use diarsaba_go.Common.Ids.{Identifies, build_result_message-Parts}
use diarsaba_go.Samsara.ResultFrame.{id_read, status_read, rest_read, long_enough}
use diarsaba_go.Samsara.ReadFree.{read_free_result_bytes, read_free_result}

-- A frame with these fields is accepted.
pub read_free_result_accepts :
    {message : Value} (raw value : List ℕ) (status : ℕ)
    → length raw ≡ 16
    → status < 2 ^ 32
    → Converts message (raw ++ (be32 status ++ (value)))
    → read_free_result message ≡ ok (record { id = raw; status = status; value = value })
unfolding read_free_result
read_free_result_accepts raw value status k ks m = rw (
  m.converted,
  long_enough _ _ _ m k "ReadFreeResult",
  status_read _ _ _ m k ks,
  id_read _ _ _ m k,
  rest_read _ _ _ m k,
)

-- `readFreeResult` reads back from what `readFreeResultBytes` built the id, the value and, modulo 2 ^ 32, the
-- status.
pub read_free_result-read_free_result_bytes :
    {id value : Value} {raw value' : List ℕ} {e e₁ : Entropy} (status : ℤ)
    → Identifies id e raw e₁
    → Converts value value'
    → (read_free_result_bytes id status value e >>= λ (frame, _). read_free_result (part frame))
      ≡ ok (record { id = raw; status = to_uint32 status; value = value' })
unfolding read_free_result_bytes
read_free_result-read_free_result_bytes status hi hv =
    rw
      (
        hv.converted,
        build_result_message-Parts hi
            (next (Converts-u32_bytes status) (next (Converts-again hv) done)),
        append-nil,
      )
      (read_free_result_accepts _ _ _ hi.sixteen (to_uint32-lt status) (Converts-part _))
