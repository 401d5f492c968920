-- ===== src/Samsara/Diferir/Response.antt =====
-- `diferirResult` reads back what `diferirResultBytes` built.
use diarsaba_go.Prelude.{ℕ, ◌^◌, ◌<◌, ◌≡◌, List, [], ◌++◌, length}
use diarsaba_go.Js.Result.{ok, ◌>>=◌}
use diarsaba_go.Js.Number.{ℤ, be32, to_uint32, to_uint32-lt}
use diarsaba_go.Js.Entropy.{Entropy}
use diarsaba_go.Common.Value.{Value, part, Converts, Converts-part}
use diarsaba_go.Common.Concat.Laws.{done, next, Converts-u32_bytes}
use diarsaba_go.Common.Ids.{Identifies, build_result_message-Parts}
use diarsaba_go.Samsara.ResultFrame.{id_read, status_read, cell_index_read, long_enough24}
use diarsaba_go.Samsara.Diferir.{diferir_result_bytes, diferir_result}

-- A frame with these fields is accepted, whatever follows them.
diferir_result_accepts :
    {message : Value} (raw trailing : List ℕ) (status cell_index : ℕ)
    → length raw ≡ 16
    → status < 2 ^ 32
    → cell_index < 2 ^ 32
    → Converts message (raw ++ (be32 status ++ (be32 cell_index ++ (trailing))))
    → diferir_result message ≡ ok (record { id = raw; status = status; cell_index = cell_index })
unfolding diferir_result
diferir_result_accepts raw trailing status cell_index k ks kc m = rw (
  m.converted,
  long_enough24 _ _ _ _ m k "DiferirResult",
  status_read _ _ _ m k ks,
  cell_index_read _ _ _ _ m k kc,
  id_read _ _ _ m k,
)

-- `diferirResult` reads back from what `diferirResultBytes` built the id and, modulo 2 ^ 32, the
-- status and the cell index.
pub diferir_result-diferir_result_bytes :
    {id : Value} {raw : List ℕ} {e e₁ : Entropy} (status cell_index : ℤ)
    → Identifies id e raw e₁
    → (diferir_result_bytes id status cell_index e >>= λ (frame, _). diferir_result (part frame))
      ≡ ok (record { id = raw; status = to_uint32 status; cell_index = to_uint32 cell_index })
unfolding diferir_result_bytes
diferir_result-diferir_result_bytes status cell_index hi =
    rw
      (build_result_message-Parts hi
        (next (Converts-u32_bytes status) (next (Converts-u32_bytes cell_index) done)))
      (diferir_result_accepts _ [] _ _ hi.sixteen (to_uint32-lt status) (to_uint32-lt cell_index)
        (Converts-part _))
