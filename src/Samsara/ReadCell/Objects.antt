-- ===== src/Samsara/ReadCell/Objects.antt =====
-- `readCellResultBytes` of cards/js/read-cell.js on a value that is an object, but neither a
-- Uint8Array nor a cell.
use diarsaba_go.Prelude.{ℕ, ◌≡◌, refl, List, ◌++◌}
use diarsaba_go.Js.Result.{ok, ◌>>=◌}
use diarsaba_go.Js.Number.{ℤ, to_uint32, be32}
use diarsaba_go.Js.Bytes.{View, zeros, fresh}
use diarsaba_go.Js.Entropy.{Entropy}
use diarsaba_go.Common.Value.{
  Value, array_view, array_buffer, array, part, to_uint8_array, Converts-part,
}
use diarsaba_go.Common.Concat.Laws.{done, next, Converts-u32_bytes}
use diarsaba_go.Common.Cell.{no_fields, cell_bytes}
use diarsaba_go.Common.Cell.RoundTrip.{cell_bytes-layout}
use diarsaba_go.Common.Ids.{Identifies, build_result_message-Parts}
use diarsaba_go.Samsara.ReadCell.{plain, payload, read_cell_result_bytes}

-- The values that `toUint8Array` takes for bytes, and `readCellResultBytes` for a cell.
pub data IsByteObject : Value → Type 0 where
  of_view : (v : View) → IsByteObject (array_view v)
  of_buffer : (b : List ℕ) → IsByteObject (array_buffer b)
  of_array : (xs : List ℤ) → IsByteObject (array xs)

-- Such a value is written as an empty cell.
payload_IsByteObject :
    {value : Value}
    → IsByteObject value
    → payload (plain value) ≡ (cell_bytes no_fields >>= λ bytes. to_uint8_array (part bytes))
unfolding payload
payload_IsByteObject (of_view v) = refl
payload_IsByteObject (of_buffer b) = refl
payload_IsByteObject (of_array xs) = refl

payload_of_zeros :
    (cell_bytes no_fields >>= λ bytes. to_uint8_array (part bytes)) ≡ ok (fresh (zeros 16))
unfolding to_uint8_array to_uint32 be32
payload_of_zeros = rw (cell_bytes-layout no_fields)

-- `readCellResultBytes` writes sixteen zeros in place of an array, a buffer or a view that is no
-- Uint8Array, whatever bytes it holds. The id is one that `normalizeId` accepts.
pub read_cell_result_bytes-IsByteObject :
    {id value : Value} {raw : List ℕ} {e e₁ : Entropy} (status : ℤ)
    → Identifies id e raw e₁
    → IsByteObject value
    → read_cell_result_bytes id status (plain value) e
      ≡ ok (raw ++ (be32 (to_uint32 status) ++ zeros 16), e₁)
unfolding read_cell_result_bytes
read_cell_result_bytes-IsByteObject status hi h = rw (
  payload_IsByteObject h,
  payload_of_zeros,
  build_result_message-Parts hi
      (next (Converts-u32_bytes status) (next (Converts-part (zeros 16)) done)),
)
