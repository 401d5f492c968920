-- ===== src/Samsara/ReadCell.antt =====
-- cards/js/read-cell.js
pub mod Layout
pub mod Request
pub mod Response
pub mod Errors
pub mod Objects
use diarsaba_go.Prelude.{ℕ, List, [], ◌∷◌, Option, none, some, leb, if◌then◌else◌, length}
use diarsaba_go.Js.Result.{Result, ok, ◌>>=◌, ◌>>◌}
use diarsaba_go.Js.Number.{ℤ, pos}
use diarsaba_go.Js.Bytes.{View, slice, slice_from}
use diarsaba_go.Js.Entropy.{Entropy}
use diarsaba_go.Common.Opcodes.{native_opcodes, external_opcodes}
use diarsaba_go.Common.Opcodes
use diarsaba_go.Common.Value.{
  Value, uint8_array, array_view, array_buffer, array, nullish, part, to_uint8_array,
}
use diarsaba_go.Common.Convert.{ensure_min_length, u32_bytes, word_at}
use diarsaba_go.Common.Concat.{build_opcode_message}
use diarsaba_go.Common.Ids.{normalize_id, random_bytes, build_result_message}
use diarsaba_go.Common.Cursor.{make_cursor, skip, u32, bytes_slice}
use diarsaba_go.Common.Cell.{Cell, CellInput, no_fields, cell_bytes, cell_from_bytes}

abbrev pub native_opcode : ℕ
native_opcode = native_opcodes Opcodes.read_cell

abbrev pub external_opcode : ℕ
external_opcode = external_opcodes Opcodes.read_cell

pub read_cell_req_bytes : Value → Value → ℤ → Value → Entropy → Result (List ℕ × Entropy)
read_cell_req_bytes db_name secret cell_index id e = do
  db_name_bytes ← to_uint8_array db_name
  secret_bytes ← to_uint8_array secret
  (raw, e) ← normalize_id id e
  frame ← build_opcode_message native_opcode (
      uint8_array raw
      ∷ part (u32_bytes cell_index)
      ∷ part (u32_bytes (pos db_name_bytes.byte_length))
      ∷ part (u32_bytes (pos secret_bytes.byte_length))
      ∷ uint8_array db_name_bytes
      ∷ uint8_array secret_bytes
      ∷ [])
  ok (frame, e)

pub record ReadCellReq : Type 0 where
  pub id : List ℕ
  pub cell_index : ℕ
  pub db_name : List ℕ
  pub secret : List ℕ

pub read_cell_req : Value → Result ReadCellReq
read_cell_req message = do
  cursor ← make_cursor message
  ensure_min_length cursor.bytes 32 "ReadCellReq"
  c ← skip 4 "ReadCellReq opcode" cursor
  (id, c) ← bytes_slice 16 "ReadCellReq id" c
  (cell_index, c) ← u32 "ReadCellReq cellIndex" c
  (db_name_len, c) ← u32 "ReadCellReq dbNameLen" c
  (secret_len, c) ← u32 "ReadCellReq secretLen" c
  (db_name, c) ← bytes_slice db_name_len "ReadCellReq dbName" c
  (secret, c) ← bytes_slice secret_len "ReadCellReq secret" c
  ok (record { id = id; cell_index = cell_index; db_name = db_name; secret = secret })

-- The argument `value`: a cell object, or any other value.
pub data CellValue : Type 0 where
  cell : CellInput → CellValue
  plain : Value → CellValue

-- An object that is no Uint8Array is taken for a cell. An array, a buffer or another view is such
-- an object too, and has none of a cell's fields.
pub payload : CellValue → Result View
payload (cell c) = do bytes ← cell_bytes c; to_uint8_array (part bytes)
payload (plain (array_view v)) = do bytes ← cell_bytes no_fields; to_uint8_array (part bytes)
payload (plain (array_buffer b)) = do bytes ← cell_bytes no_fields; to_uint8_array (part bytes)
payload (plain (array xs)) = do bytes ← cell_bytes no_fields; to_uint8_array (part bytes)
payload (plain value) = to_uint8_array value

pub read_cell_result_bytes : Value → ℤ → CellValue → Entropy → Result (List ℕ × Entropy)
read_cell_result_bytes id status value e = do
  bytes ← payload value
  build_result_message id (part (u32_bytes status) ∷ uint8_array bytes ∷ []) e

pub record ReadCellResult : Type 0 where
  pub id : List ℕ
  pub status : ℕ
  pub value : List ℕ
  pub cell : Option Cell

-- `value.length >= 16 ? cellFromBytes(value) : null`
pub cell_of : List ℕ → Result (Option Cell)
cell_of value =
    if leb 16 (length value) then (do c ← cell_from_bytes (part value); ok (some c)) else ok none

pub read_cell_result : Value → Result ReadCellResult
read_cell_result message = do
  bytes ← to_uint8_array message
  ensure_min_length bytes 20 "ReadCellResult"
  let value = slice_from bytes 20
  status ← word_at bytes 16
  found ← cell_of value
  ok (record { id = slice bytes 0 16; status = status; value = value; cell = found })
