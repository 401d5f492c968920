-- ===== src/Samsara/Diferir.antt =====
-- cards/js/diferir.js
mod Salt
pub mod Layout
pub mod Request
pub mod Response
pub mod Errors
use diarsaba_go.Prelude.{ℕ, List, [], ◌∷◌, Option, none, some, leb, if◌then◌else◌, length}
use diarsaba_go.Js.Result.{Result, ok, ◌>>=◌, ◌>>◌}
use diarsaba_go.Js.Number.{ℤ, pos}
use diarsaba_go.Js.Bytes.{View, slice, slice_from}
use diarsaba_go.Js.Entropy.{Entropy}
use diarsaba_go.Common.Opcodes.{native_opcodes, external_opcodes}
use diarsaba_go.Common.Opcodes
use diarsaba_go.Common.Value.{
  Value, uint8_array, array_view, array_buffer, array, nullish, part, to_uint8_array,
}
use diarsaba_go.Common.Convert.{ensure_min_length, u32_bytes, word_at}
use diarsaba_go.Common.Concat.{build_opcode_message}
use diarsaba_go.Common.Ids.{normalize_id, random_bytes, build_result_message}
use diarsaba_go.Common.Cursor.{make_cursor, skip, u32, bytes_slice}
use diarsaba_go.Common.Cell.{Cell, CellInput, no_fields, cell_bytes, cell_from_bytes}

abbrev pub native_opcode : ℕ
native_opcode = native_opcodes Opcodes.diferir

abbrev pub external_opcode : ℕ
external_opcode = external_opcodes Opcodes.diferir

-- `childSalt == null ? randomBytes(16) : normalizeId(childSalt)`
pub salt_bytes : Value → Entropy → Result (View × Entropy)
salt_bytes nullish e = random_bytes 16 e
salt_bytes child_salt e = normalize_id child_salt e

pub diferir_req_bytes :
    Value → Value → Value → ℤ → ℤ → ℤ → ℤ → ℤ → Value → Value → Entropy → Result (List ℕ × Entropy)
diferir_req_bytes db_name secret child_secret cell_index child_genome x y z id child_salt e = do
  db_name_bytes ← to_uint8_array db_name
  secret_bytes ← to_uint8_array secret
  child_secret_bytes ← to_uint8_array child_secret
  (salt, e) ← salt_bytes child_salt e
  (raw, e) ← normalize_id id e
  frame ← build_opcode_message native_opcode (
      uint8_array raw
      ∷ part (u32_bytes (pos db_name_bytes.byte_length))
      ∷ part (u32_bytes cell_index)
      ∷ part (u32_bytes (pos secret_bytes.byte_length))
      ∷ part (u32_bytes child_genome)
      ∷ part (u32_bytes x)
      ∷ part (u32_bytes y)
      ∷ part (u32_bytes z)
      ∷ uint8_array salt
      ∷ part (u32_bytes (pos child_secret_bytes.byte_length))
      ∷ uint8_array db_name_bytes
      ∷ uint8_array secret_bytes
      ∷ uint8_array child_secret_bytes
      ∷ [])
  ok (frame, e)

pub record DiferirReq : Type 0 where
  pub id : List ℕ
  pub db_name : List ℕ
  pub cell_index : ℕ
  pub secret : List ℕ
  pub child_genome : ℕ
  pub x : ℕ
  pub y : ℕ
  pub z : ℕ
  pub child_salt : List ℕ
  pub child_secret : List ℕ

pub diferir_req : Value → Result DiferirReq
diferir_req message = do
  cursor ← make_cursor message
  ensure_min_length cursor.bytes 68 "DiferirReq"
  c ← skip 4 "DiferirReq opcode" cursor
  (id, c) ← bytes_slice 16 "DiferirReq id" c
  (db_name_len, c) ← u32 "DiferirReq dbNameLen" c
  (cell_index, c) ← u32 "DiferirReq cellIndex" c
  (secret_len, c) ← u32 "DiferirReq secretLen" c
  (child_genome, c) ← u32 "DiferirReq childGenome" c
  (x, c) ← u32 "DiferirReq x" c
  (y, c) ← u32 "DiferirReq y" c
  (z, c) ← u32 "DiferirReq z" c
  (child_salt, c) ← bytes_slice 16 "DiferirReq childSalt" c
  (child_secret_len, c) ← u32 "DiferirReq childSecretLen" c
  (db_name, c) ← bytes_slice db_name_len "DiferirReq dbName" c
  (secret, c) ← bytes_slice secret_len "DiferirReq secret" c
  (child_secret, c) ← bytes_slice child_secret_len "DiferirReq childSecret" c
  ok (record {
    id = id;
    db_name = db_name;
    cell_index = cell_index;
    secret = secret;
    child_genome = child_genome;
    x = x;
    y = y;
    z = z;
    child_salt = child_salt;
    child_secret = child_secret;
  })

pub diferir_result_bytes : Value → ℤ → ℤ → Entropy → Result (List ℕ × Entropy)
diferir_result_bytes id status cell_index e =
    build_result_message id (part (u32_bytes status) ∷ part (u32_bytes cell_index) ∷ []) e

pub record DiferirResult : Type 0 where
  pub id : List ℕ
  pub status : ℕ
  pub cell_index : ℕ

pub diferir_result : Value → Result DiferirResult
diferir_result message = do
  bytes ← to_uint8_array message
  ensure_min_length bytes 24 "DiferirResult"
  status ← word_at bytes 16
  cell_index ← word_at bytes 20
  ok (record { id = slice bytes 0 16; status = status; cell_index = cell_index })
