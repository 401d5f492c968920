-- ===== src/Samsara/Delete.antt =====
-- cards/js/delete.js
pub mod Layout
pub mod Request
pub mod Response
pub mod Errors
use diarsaba_go.Prelude.{ℕ, List, [], ◌∷◌, Option, none, some, leb, if◌then◌else◌, length}
use diarsaba_go.Js.Result.{Result, ok, ◌>>=◌, ◌>>◌}
use diarsaba_go.Js.Number.{ℤ, pos}
use diarsaba_go.Js.Bytes.{View, slice, slice_from}
use diarsaba_go.Js.Entropy.{Entropy}
use diarsaba_go.Common.Opcodes.{native_opcodes, external_opcodes}
use diarsaba_go.Common.Opcodes
use diarsaba_go.Common.Value.{
  Value, uint8_array, array_view, array_buffer, array, nullish, part, to_uint8_array,
}
use diarsaba_go.Common.Convert.{ensure_min_length, u32_bytes, word_at}
use diarsaba_go.Common.Concat.{build_opcode_message}
use diarsaba_go.Common.Ids.{normalize_id, random_bytes, build_result_message}
use diarsaba_go.Common.Cursor.{make_cursor, skip, u32, bytes_slice}
use diarsaba_go.Common.Cell.{Cell, CellInput, no_fields, cell_bytes, cell_from_bytes}

abbrev pub native_opcode : ℕ
native_opcode = native_opcodes Opcodes.delete

abbrev pub external_opcode : ℕ
external_opcode = external_opcodes Opcodes.delete

pub delete_req_bytes : Value → Value → Value → ℤ → Value → Entropy → Result (List ℕ × Entropy)
delete_req_bytes db_name key secret cell_index id e = do
  db_name_bytes ← to_uint8_array db_name
  key_bytes ← to_uint8_array key
  secret_bytes ← to_uint8_array secret
  (raw, e) ← normalize_id id e
  frame ← build_opcode_message native_opcode (
      uint8_array raw
      ∷ part (u32_bytes cell_index)
      ∷ part (u32_bytes (pos db_name_bytes.byte_length))
      ∷ part (u32_bytes (pos key_bytes.byte_length))
      ∷ part (u32_bytes (pos secret_bytes.byte_length))
      ∷ uint8_array db_name_bytes
      ∷ uint8_array key_bytes
      ∷ uint8_array secret_bytes
      ∷ [])
  ok (frame, e)

pub record DeleteReq : Type 0 where
  pub id : List ℕ
  pub cell_index : ℕ
  pub db_name : List ℕ
  pub key : List ℕ
  pub secret : List ℕ

pub delete_req : Value → Result DeleteReq
delete_req message = do
  cursor ← make_cursor message
  ensure_min_length cursor.bytes 36 "DeleteReq"
  c ← skip 4 "DeleteReq opcode" cursor
  (id, c) ← bytes_slice 16 "DeleteReq id" c
  (cell_index, c) ← u32 "DeleteReq cellIndex" c
  (db_name_len, c) ← u32 "DeleteReq dbNameLen" c
  (key_len, c) ← u32 "DeleteReq keyLen" c
  (secret_len, c) ← u32 "DeleteReq secretLen" c
  (db_name, c) ← bytes_slice db_name_len "DeleteReq dbName" c
  (key, c) ← bytes_slice key_len "DeleteReq key" c
  (secret, c) ← bytes_slice secret_len "DeleteReq secret" c
  ok (record { id = id; cell_index = cell_index; db_name = db_name; key = key; secret = secret })

pub delete_result_bytes : Value → ℤ → Entropy → Result (List ℕ × Entropy)
delete_result_bytes id status e = build_result_message id (part (u32_bytes status) ∷ []) e

pub record DeleteResult : Type 0 where
  pub id : List ℕ
  pub status : ℕ

pub delete_result : Value → Result DeleteResult
delete_result message = do
  bytes ← to_uint8_array message
  ensure_min_length bytes 20 "DeleteResult"
  status ← word_at bytes 16
  ok (record { id = slice bytes 0 16; status = status })
