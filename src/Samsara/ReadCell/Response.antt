-- ===== src/Samsara/ReadCell/Response.antt =====
-- `readCellResult` reads back what `readCellResultBytes` built.
use diarsaba_go.Prelude.{
  ℕ, ◌^◌, ◌<◌, ◌≡◌, List, [], ◌++◌, length, Option, none, some, leb, append-nil, arith, false,
}
use diarsaba_go.Js.Result.{ok, ◌>>=◌}
use diarsaba_go.Js.Number.{ℤ, be32, to_uint32, to_uint32-lt}
use diarsaba_go.Js.Entropy.{Entropy}
use diarsaba_go.Common.Value.{Value, part, to_uint8_array, Converts, Converts-part}
use diarsaba_go.Common.Concat.Laws.{done, next, Converts-u32_bytes}
use diarsaba_go.Common.Ids.{Identifies, build_result_message-Parts}
use diarsaba_go.Common.Cell.{Cell, CellInput}
use diarsaba_go.Common.Cell.RoundTrip.{
  cell_of_input, cell_of_input-InRange, cell_bytes-layout, cell_from_bytes_accepts,
}
use diarsaba_go.Common.Cell.RoundTrip
use diarsaba_go.Samsara.ResultFrame.{id_read, status_read, rest_read, long_enough}
use diarsaba_go.Samsara.ReadCell.{cell, payload, cell_of, read_cell_result_bytes, read_cell_result}

read_cell_result_accepts :
    {message : Value} (raw value : List ℕ) (status : ℕ) (found : Option Cell)
    → length raw ≡ 16
    → status < 2 ^ 32
    → Converts message (raw ++ (be32 status ++ value))
    → cell_of value ≡ ok found
    → read_cell_result message
      ≡ ok (record { id = raw; status = status; value = value; cell = found })
unfolding read_cell_result
read_cell_result_accepts raw value status found k ks m c = rw (
  m.converted,
  long_enough _ _ _ m k "ReadCellResult",
  status_read _ _ _ m k ks,
  id_read _ _ _ m k,
  rest_read _ _ _ m k,
  c,
)

-- Sixteen bytes and more are read as a cell, and fewer are not.
cell_of-layout :
    (c : CellInput) → cell_of (RoundTrip.layout (cell_of_input c) []) ≡ ok (some (cell_of_input c))
unfolding cell_of be32
cell_of-layout c =
    rw (cell_from_bytes_accepts (cell_of_input c) [] (cell_of_input-InRange c) (Converts-part _))

cell_of_short : (value : List ℕ) → length value < 16 → cell_of value ≡ ok none
unfolding cell_of
cell_of_short value h = let e : leb 16 (length value) ≡ false = ground arith in rw e

-- From what `readCellResultBytes` built of a cell object, `readCellResult` reads back the id, the
-- status and each number of the cell, modulo 2 ^ 32. The id is one that `normalizeId` accepts.
pub read_cell_result-read_cell_result_bytes :
    {id : Value} {raw : List ℕ} {e e₁ : Entropy} (status : ℤ) (c : CellInput)
    → Identifies id e raw e₁
    → (read_cell_result_bytes id status (cell c) e >>= λ (frame, _). read_cell_result (part frame))
      ≡ ok (record {
        id = raw;
        status = to_uint32 status;
        value = RoundTrip.layout (cell_of_input c) [];
        cell = some (cell_of_input c);
      })
unfolding read_cell_result_bytes payload to_uint8_array
read_cell_result-read_cell_result_bytes status c hi =
    rw
      (
        cell_bytes-layout c,
        build_result_message-Parts hi (
            next (Converts-u32_bytes status)
              (next (Converts-part (RoundTrip.layout (cell_of_input c) [])) done)),
        append-nil,
      )
      (read_cell_result_accepts _ _ _ _ hi.sixteen (to_uint32-lt status) (Converts-part _)
        (cell_of-layout c))
