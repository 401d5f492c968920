-- ===== src/Samsara/DeleteDb.antt =====
-- cards/js/delete-db.js
pub mod Layout
pub mod Request
pub mod Response
pub mod Errors
use diarsaba_go.Prelude.{ℕ, List, [], ◌∷◌, Option, none, some, leb, if◌then◌else◌, length}
use diarsaba_go.Js.Result.{Result, ok, ◌>>=◌, ◌>>◌}
use diarsaba_go.Js.Number.{ℤ, pos}
use diarsaba_go.Js.Bytes.{View, slice, slice_from}
use diarsaba_go.Js.Entropy.{Entropy}
use diarsaba_go.Common.Opcodes.{native_opcodes, external_opcodes}
use diarsaba_go.Common.Opcodes
use diarsaba_go.Common.Value.{
  Value, uint8_array, array_view, array_buffer, array, nullish, part, to_uint8_array,
}
use diarsaba_go.Common.Convert.{ensure_min_length, u32_bytes, word_at}
use diarsaba_go.Common.Concat.{build_opcode_message}
use diarsaba_go.Common.Ids.{normalize_id, random_bytes, build_result_message}
use diarsaba_go.Common.Cursor.{make_cursor, skip, u32, bytes_slice}
use diarsaba_go.Common.Cell.{Cell, CellInput, no_fields, cell_bytes, cell_from_bytes}

abbrev pub native_opcode : ℕ
native_opcode = native_opcodes Opcodes.delete_db

abbrev pub external_opcode : ℕ
external_opcode = external_opcodes Opcodes.delete_db

pub delete_db_req_bytes : Value → Value → ℤ → Value → Entropy → Result (List ℕ × Entropy)
delete_db_req_bytes db_name secret cell_index id e = do
  db_name_bytes ← to_uint8_array db_name
  secret_bytes ← to_uint8_array secret
  (raw, e) ← normalize_id id e
  frame ← build_opcode_message native_opcode (
      uint8_array raw
      ∷ part (u32_bytes cell_index)
      ∷ part (u32_bytes (pos db_name_bytes.byte_length))
      ∷ part (u32_bytes (pos secret_bytes.byte_length))
      ∷ uint8_array db_name_bytes
      ∷ uint8_array secret_bytes
      ∷ [])
  ok (frame, e)

pub record DeleteDbReq : Type 0 where
  pub id : List ℕ
  pub cell_index : ℕ
  pub db_name : List ℕ
  pub secret : List ℕ

pub delete_db_req : Value → Result DeleteDbReq
delete_db_req message = do
  cursor ← make_cursor message
  ensure_min_length cursor.bytes 32 "DeleteDBReq"
  c ← skip 4 "DeleteDBReq opcode" cursor
  (id, c) ← bytes_slice 16 "DeleteDBReq id" c
  (cell_index, c) ← u32 "DeleteDBReq cellIndex" c
  (db_name_len, c) ← u32 "DeleteDBReq dbNameLen" c
  (secret_len, c) ← u32 "DeleteDBReq secretLen" c
  (db_name, c) ← bytes_slice db_name_len "DeleteDBReq dbName" c
  (secret, c) ← bytes_slice secret_len "DeleteDBReq secret" c
  ok (record { id = id; cell_index = cell_index; db_name = db_name; secret = secret })

pub delete_db_result_bytes : Value → ℤ → Entropy → Result (List ℕ × Entropy)
delete_db_result_bytes id status e = build_result_message id (part (u32_bytes status) ∷ []) e

pub record DeleteDbResult : Type 0 where
  pub id : List ℕ
  pub status : ℕ

pub delete_db_result : Value → Result DeleteDbResult
delete_db_result message = do
  bytes ← to_uint8_array message
  ensure_min_length bytes 20 "DeleteDBResult"
  status ← word_at bytes 16
  ok (record { id = slice bytes 0 16; status = status })
