-- ===== src/Samsara/Cruzar.antt =====
-- cards/js/cruzar.js
pub mod Layout
pub mod Request
pub mod Response
pub mod Errors
use diarsaba_go.Prelude.{ℕ, List, [], ◌∷◌, Option, none, some, leb, if◌then◌else◌, length}
use diarsaba_go.Js.Result.{Result, ok, ◌>>=◌, ◌>>◌}
use diarsaba_go.Js.Number.{ℤ, pos}
use diarsaba_go.Js.Bytes.{View, slice, slice_from}
use diarsaba_go.Js.Entropy.{Entropy}
use diarsaba_go.Common.Opcodes.{native_opcodes, external_opcodes}
use diarsaba_go.Common.Opcodes
use diarsaba_go.Common.Value.{
  Value, uint8_array, array_view, array_buffer, array, nullish, part, to_uint8_array,
}
use diarsaba_go.Common.Convert.{ensure_min_length, u32_bytes, word_at}
use diarsaba_go.Common.Concat.{build_opcode_message}
use diarsaba_go.Common.Ids.{normalize_id, random_bytes, build_result_message}
use diarsaba_go.Common.Cursor.{make_cursor, skip, u32, bytes_slice}
use diarsaba_go.Common.Cell.{Cell, CellInput, no_fields, cell_bytes, cell_from_bytes}

abbrev pub native_opcode : ℕ
native_opcode = native_opcodes Opcodes.cruzar

abbrev pub external_opcode : ℕ
external_opcode = external_opcodes Opcodes.cruzar

pub cruzar_req_bytes :
    Value → ℤ → ℤ → Value → Value → ℤ → ℤ → ℤ → Value → Value → Entropy → Result (List ℕ × Entropy)
cruzar_req_bytes db_name cell_index_a cell_index_b secret_a secret_b x y z child_secret id e = do
  db_name_bytes ← to_uint8_array db_name
  secret_a_bytes ← to_uint8_array secret_a
  secret_b_bytes ← to_uint8_array secret_b
  child_secret_bytes ← to_uint8_array child_secret
  (raw, e) ← normalize_id id e
  frame ← build_opcode_message native_opcode (
      uint8_array raw
      ∷ part (u32_bytes (pos db_name_bytes.byte_length))
      ∷ part (u32_bytes cell_index_a)
      ∷ part (u32_bytes cell_index_b)
      ∷ part (u32_bytes (pos secret_a_bytes.byte_length))
      ∷ part (u32_bytes (pos secret_b_bytes.byte_length))
      ∷ part (u32_bytes x)
      ∷ part (u32_bytes y)
      ∷ part (u32_bytes z)
      ∷ part (u32_bytes (pos child_secret_bytes.byte_length))
      ∷ uint8_array db_name_bytes
      ∷ uint8_array secret_a_bytes
      ∷ uint8_array secret_b_bytes
      ∷ uint8_array child_secret_bytes
      ∷ [])
  ok (frame, e)

pub record CruzarReq : Type 0 where
  pub id : List ℕ
  pub db_name : List ℕ
  pub cell_index_a : ℕ
  pub cell_index_b : ℕ
  pub secret_a : List ℕ
  pub secret_b : List ℕ
  pub x : ℕ
  pub y : ℕ
  pub z : ℕ
  pub child_secret : List ℕ

pub cruzar_req : Value → Result CruzarReq
cruzar_req message = do
  cursor ← make_cursor message
  ensure_min_length cursor.bytes 56 "CruzarReq"
  c ← skip 4 "CruzarReq opcode" cursor
  (id, c) ← bytes_slice 16 "CruzarReq id" c
  (db_name_len, c) ← u32 "CruzarReq dbNameLen" c
  (cell_index_a, c) ← u32 "CruzarReq cellIndexA" c
  (cell_index_b, c) ← u32 "CruzarReq cellIndexB" c
  (secret_a_len, c) ← u32 "CruzarReq secretALen" c
  (secret_b_len, c) ← u32 "CruzarReq secretBLen" c
  (x, c) ← u32 "CruzarReq x" c
  (y, c) ← u32 "CruzarReq y" c
  (z, c) ← u32 "CruzarReq z" c
  (child_secret_len, c) ← u32 "CruzarReq childSecretLen" c
  (db_name, c) ← bytes_slice db_name_len "CruzarReq dbName" c
  (secret_a, c) ← bytes_slice secret_a_len "CruzarReq secretA" c
  (secret_b, c) ← bytes_slice secret_b_len "CruzarReq secretB" c
  (child_secret, c) ← bytes_slice child_secret_len "CruzarReq childSecret" c
  ok (record {
    id = id;
    db_name = db_name;
    cell_index_a = cell_index_a;
    cell_index_b = cell_index_b;
    secret_a = secret_a;
    secret_b = secret_b;
    x = x;
    y = y;
    z = z;
    child_secret = child_secret;
  })

pub cruzar_result_bytes : Value → ℤ → ℤ → Entropy → Result (List ℕ × Entropy)
cruzar_result_bytes id status cell_index e =
    build_result_message id (part (u32_bytes status) ∷ part (u32_bytes cell_index) ∷ []) e

pub record CruzarResult : Type 0 where
  pub id : List ℕ
  pub status : ℕ
  pub cell_index : ℕ

pub cruzar_result : Value → Result CruzarResult
cruzar_result message = do
  bytes ← to_uint8_array message
  ensure_min_length bytes 24 "CruzarResult"
  status ← word_at bytes 16
  cell_index ← word_at bytes 20
  ok (record { id = slice bytes 0 16; status = status; cell_index = cell_index })
