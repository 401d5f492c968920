-- ===== src/Samsara/CreateDb.antt =====
-- cards/js/create-db.js
pub mod Layout
pub mod Request
pub mod Response
pub mod Errors
use diarsaba_go.Prelude.{ℕ, List, [], ◌∷◌, Option, none, some, leb, if◌then◌else◌, length}
use diarsaba_go.Js.Result.{Result, ok, ◌>>=◌, ◌>>◌}
use diarsaba_go.Js.Number.{ℤ, pos}
use diarsaba_go.Js.Bytes.{View, slice, slice_from}
use diarsaba_go.Js.Entropy.{Entropy}
use diarsaba_go.Common.Opcodes.{native_opcodes, external_opcodes}
use diarsaba_go.Common.Opcodes
use diarsaba_go.Common.Value.{
  Value, uint8_array, array_view, array_buffer, array, nullish, part, to_uint8_array,
}
use diarsaba_go.Common.Convert.{ensure_min_length, u32_bytes, word_at}
use diarsaba_go.Common.Concat.{build_opcode_message}
use diarsaba_go.Common.Ids.{normalize_id, random_bytes, build_result_message}
use diarsaba_go.Common.Cursor.{make_cursor, skip, u32, bytes_slice}
use diarsaba_go.Common.Cell.{Cell, CellInput, no_fields, cell_bytes, cell_from_bytes}

abbrev pub native_opcode : ℕ
native_opcode = native_opcodes Opcodes.create_db

abbrev pub external_opcode : ℕ
external_opcode = external_opcodes Opcodes.create_db

pub create_db_req_bytes : Value → Value → ℤ → ℤ → Value → Entropy → Result (List ℕ × Entropy)
create_db_req_bytes db_name secret db_size genome id e = do
  db_name_bytes ← to_uint8_array db_name
  secret_bytes ← to_uint8_array secret
  (raw, e) ← normalize_id id e
  frame ← build_opcode_message native_opcode (
      uint8_array raw
      ∷ part (u32_bytes (pos db_name_bytes.byte_length))
      ∷ part (u32_bytes (pos secret_bytes.byte_length))
      ∷ part (u32_bytes db_size)
      ∷ part (u32_bytes genome)
      ∷ uint8_array db_name_bytes
      ∷ uint8_array secret_bytes
      ∷ [])
  ok (frame, e)

pub record CreateDbReq : Type 0 where
  pub id : List ℕ
  pub db_name : List ℕ
  pub secret : List ℕ
  pub db_size : ℕ
  pub genome : ℕ

pub create_db_req : Value → Result CreateDbReq
create_db_req message = do
  cursor ← make_cursor message
  ensure_min_length cursor.bytes 36 "CreateDBReq"
  c ← skip 4 "CreateDBReq opcode" cursor
  (id, c) ← bytes_slice 16 "CreateDBReq id" c
  (db_name_len, c) ← u32 "CreateDBReq dbNameLen" c
  (secret_len, c) ← u32 "CreateDBReq secretLen" c
  (db_size, c) ← u32 "CreateDBReq dbSize" c
  (genome, c) ← u32 "CreateDBReq genome" c
  (db_name, c) ← bytes_slice db_name_len "CreateDBReq dbName" c
  (secret, c) ← bytes_slice secret_len "CreateDBReq secret" c
  ok (record { id = id; db_name = db_name; secret = secret; db_size = db_size; genome = genome })

pub create_db_result_bytes : Value → ℤ → Entropy → Result (List ℕ × Entropy)
create_db_result_bytes id status e = build_result_message id (part (u32_bytes status) ∷ []) e

pub record CreateDbResult : Type 0 where
  pub id : List ℕ
  pub status : ℕ

pub create_db_result : Value → Result CreateDbResult
create_db_result message = do
  bytes ← to_uint8_array message
  ensure_min_length bytes 20 "CreateDBResult"
  status ← word_at bytes 16
  ok (record { id = slice bytes 0 16; status = status })
