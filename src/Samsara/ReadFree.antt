-- ===== src/Samsara/ReadFree.antt =====
-- cards/js/read-free.js
pub mod Layout
pub mod Request
pub mod Response
pub mod Errors
use diarsaba_go.Prelude.{ℕ, List, [], ◌∷◌, Option, none, some, leb, if◌then◌else◌, length}
use diarsaba_go.Js.Result.{Result, ok, ◌>>=◌, ◌>>◌}
use diarsaba_go.Js.Number.{ℤ, pos}
use diarsaba_go.Js.Bytes.{View, slice, slice_from}
use diarsaba_go.Js.Entropy.{Entropy}
use diarsaba_go.Common.Opcodes.{native_opcodes, external_opcodes}
use diarsaba_go.Common.Opcodes
use diarsaba_go.Common.Value.{
  Value, uint8_array, array_view, array_buffer, array, nullish, part, to_uint8_array,
}
use diarsaba_go.Common.Convert.{ensure_min_length, u32_bytes, word_at}
use diarsaba_go.Common.Concat.{build_opcode_message}
use diarsaba_go.Common.Ids.{normalize_id, random_bytes, build_result_message}
use diarsaba_go.Common.Cursor.{make_cursor, skip, u32, bytes_slice}
use diarsaba_go.Common.Cell.{Cell, CellInput, no_fields, cell_bytes, cell_from_bytes}

abbrev pub native_opcode : ℕ
native_opcode = native_opcodes Opcodes.read_free

abbrev pub external_opcode : ℕ
external_opcode = external_opcodes Opcodes.read_free

pub read_free_req_bytes : Value → Value → Value → Entropy → Result (List ℕ × Entropy)
read_free_req_bytes db_name key id e = do
  db_name_bytes ← to_uint8_array db_name
  key_bytes ← to_uint8_array key
  (raw, e) ← normalize_id id e
  frame ← build_opcode_message native_opcode (
      uint8_array raw
      ∷ part (u32_bytes (pos db_name_bytes.byte_length))
      ∷ part (u32_bytes (pos key_bytes.byte_length))
      ∷ uint8_array db_name_bytes
      ∷ uint8_array key_bytes
      ∷ [])
  ok (frame, e)

pub record ReadFreeReq : Type 0 where
  pub id : List ℕ
  pub db_name : List ℕ
  pub key : List ℕ

pub read_free_req : Value → Result ReadFreeReq
read_free_req message = do
  cursor ← make_cursor message
  ensure_min_length cursor.bytes 28 "ReadFreeReq"
  c ← skip 4 "ReadFreeReq opcode" cursor
  (id, c) ← bytes_slice 16 "ReadFreeReq id" c
  (db_name_len, c) ← u32 "ReadFreeReq dbNameLen" c
  (key_len, c) ← u32 "ReadFreeReq keyLen" c
  (db_name, c) ← bytes_slice db_name_len "ReadFreeReq dbName" c
  (key, c) ← bytes_slice key_len "ReadFreeReq key" c
  ok (record { id = id; db_name = db_name; key = key })

pub read_free_result_bytes : Value → ℤ → Value → Entropy → Result (List ℕ × Entropy)
read_free_result_bytes id status value e = do
  bytes ← to_uint8_array value
  build_result_message id (part (u32_bytes status) ∷ uint8_array bytes ∷ []) e

pub record ReadFreeResult : Type 0 where
  pub id : List ℕ
  pub status : ℕ
  pub value : List ℕ

pub read_free_result : Value → Result ReadFreeResult
read_free_result message = do
  bytes ← to_uint8_array message
  ensure_min_length bytes 20 "ReadFreeResult"
  status ← word_at bytes 16
  ok (record { id = slice bytes 0 16; status = status; value = slice_from bytes 20 })
