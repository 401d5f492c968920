-- ===== src/Samsara/Read/Response.antt =====
-- `readResult` reads back what `readResultBytes` built.
use diarsaba_go.Prelude.{ℕ, ◌^◌, ◌<◌, ◌≡◌, List, ◌++◌, length, append-nil}
use diarsaba_go.Js.Result.{ok, ◌>>=◌}
use diarsaba_go.Js.Number.{ℤ, be32, to_uint32, to_uint32-lt}
use diarsaba_go.Js.Entropy.{Entropy}
use diarsaba_go.Common.Value.{Value, part, Converts, Converts-part, Converts-again}
use diarsaba_go.Common.Concat.Laws.{done, next, Converts-u32_bytes}
use diarsaba_go.Common.Ids.{Identifies, build_result_message-Parts}
use diarsaba_go.Samsara.ResultFrame.{
  id_read, status_read, cell_index_read, value_read, long_enough24,
}
use diarsaba_go.Samsara.Read.{read_result_bytes, read_result}

-- A frame with these fields is accepted.
read_result_accepts :
    {message : Value} (raw value : List ℕ) (status cell_index : ℕ)
    → length raw ≡ 16
    → status < 2 ^ 32
    → cell_index < 2 ^ 32
    → Converts message (raw ++ (be32 status ++ (be32 cell_index ++ (value))))
    → read_result message
      ≡ ok (record { id = raw; status = status; cell_index = cell_index; value = value })
unfolding read_result
read_result_accepts raw value status cell_index k ks kc m = rw (
  m.converted,
  long_enough24 _ _ _ _ m k "ReadResult",
  status_read _ _ _ m k ks,
  cell_index_read _ _ _ _ m k kc,
  id_read _ _ _ m k,
  value_read _ _ _ _ m k,
)

pub read_result_bytes-layout :
    {id value : Value} {raw value' : List ℕ} {e e₁ : Entropy} (status cell_index : ℤ)
    → Identifies id e raw e₁
    → Converts value value'
    → read_result_bytes id status cell_index value e
      ≡ ok (raw ++ (be32 (to_uint32 status) ++ (be32 (to_uint32 cell_index) ++ value')), e₁)
unfolding read_result_bytes
read_result_bytes-layout status cell_index hi hv = rw (
  hv.converted,
  build_result_message-Parts hi (
      next (Converts-u32_bytes status)
        (next (Converts-u32_bytes cell_index) (next (Converts-again hv) done))),
  append-nil,
)

-- `readResult` reads back from what `readResultBytes` built the id, the value and, modulo 2 ^ 32,
-- the status and the cell index. Each argument is one that `toUint8Array` accepts, and the id one
-- that `normalizeId` accepts.
pub read_result-read_result_bytes :
    {id value : Value} {raw value' : List ℕ} {e e₁ : Entropy} (status cell_index : ℤ)
    → Identifies id e raw e₁
    → Converts value value'
    → (read_result_bytes id status cell_index value e >>= λ (frame, _). read_result (part frame))
      ≡ ok (record {
        id = raw;
        status = to_uint32 status;
        cell_index = to_uint32 cell_index;
        value = value';
      })
read_result-read_result_bytes status cell_index hi hv =
    rw (read_result_bytes-layout status cell_index hi hv) (
      read_result_accepts _ _ _ _ hi.sixteen (to_uint32-lt status) (to_uint32-lt cell_index)
        (Converts-part _))
