-- ===== src/Synap/Frames.antt =====
-- cards/js/synap2p/common.js: the requests with one payload, the status responses, and the texts
-- inside payloads.
pub mod Single
pub mod Status
pub mod Texts
use diarsaba_go.Prelude.{
  ℕ, suc, ◌+◌, ◌*◌, ◌%◌, String, Bool, true, false, List, [], ◌∷◌, length, take, drop, get_or,
  overwrite, Option, none, some, ◌==◌, if◌then◌else◌,
}
use diarsaba_go.Js.Result.{Result, ok, ◌>>=◌, ◌>>◌}
use diarsaba_go.Js.Number.{pos}
use diarsaba_go.Js.Bytes.{View, contents, zeros, set, slice, slice_from}
use diarsaba_go.Js.Text.{decode}
use diarsaba_go.Js.Strings.{split, filter_nonempty, index_of}
use diarsaba_go.Js.Entropy.{Entropy}
use diarsaba_go.Common.Value.{Value, uint8_array, part, to_uint8_array}
use diarsaba_go.Common.Convert.{ensure_min_length, read_u32, u16_bytes, utf8_text}
use diarsaba_go.Common.Concat.{build_opcode_message}
use diarsaba_go.Common.Ids.{normalize_id}

unfoldable pub build_single_payload_request :
    ℕ → Value → Value → Entropy → Result (List ℕ × Entropy)
build_single_payload_request opcode payload id e = do
  (raw, e) ← normalize_id id e
  payload_bytes ← to_uint8_array payload
  frame ← build_opcode_message opcode (uint8_array raw ∷ uint8_array payload_bytes ∷ [])
  ok (frame, e)

pub record SinglePayload : Type 0 where
  pub opcode : ℕ
  pub id : List ℕ
  pub payload : List ℕ

-- `word & 0xff`
abbrev pub low_byte : ℕ → ℕ
low_byte word = word % 256

unfoldable pub parse_single_payload_request : Value → String → Result SinglePayload
parse_single_payload_request message label = do
  bytes ← to_uint8_array message
  ensure_min_length bytes 20 label
  word ← read_u32 bytes 0
  ok (record { opcode = low_byte word; id = slice bytes 4 20; payload = slice_from bytes 20 })

-- `out[at] = value` at an index of the array.
abbrev pub store : List ℕ → ℕ → ℕ → List ℕ
store out at value = overwrite out at ((value % 256) ∷ [])

abbrev pub status_byte : Bool → ℕ
status_byte true = 0x01
status_byte false = 0x00

unfoldable pub build_status_response : ℕ → Value → Bool → Entropy → Result (List ℕ × Entropy)
build_status_response opcode id success e = do
  let out = store (zeros 21) 3 opcode
  (raw, e) ← normalize_id id e
  out ← set out (contents raw) 4
  ok (store out 20 (status_byte success), e)

unfoldable pub build_success_response : ℕ → Value → Entropy → Result (List ℕ × Entropy)
unfolding build_status_response
build_success_response opcode id e = build_status_response opcode id true e

unfoldable pub build_error_response : ℕ → Value → Entropy → Result (List ℕ × Entropy)
unfolding build_status_response
build_error_response opcode id e = build_status_response opcode id false e

-- `is_ok` is the field `ok`.
pub record StatusResponse : Type 0 where
  pub opcode : ℕ
  pub id : List ℕ
  pub status : ℕ
  pub is_ok : Bool
  pub payload : List ℕ

unfoldable pub parse_status_response : Value → String → Result StatusResponse
parse_status_response message label = do
  bytes ← to_uint8_array message
  ensure_min_length bytes 21 label
  word ← read_u32 bytes 0
  let status = get_or (contents bytes) 20 0
  ok (record {
    opcode = low_byte word;
    id = slice bytes 4 20;
    status = status;
    is_ok = status == 0x01;
    payload = slice_from bytes 21;
  })

unfoldable pub build_success_data_response : ℕ → Value → Value → Entropy → Result (List ℕ × Entropy)
build_success_data_response opcode id payload e = do
  payload_bytes ← to_uint8_array payload
  let out = store (zeros (21 + payload_bytes.byte_length)) 3 opcode
  (raw, e) ← normalize_id id e
  out ← set out (contents raw) 4
  let out = store out 20 0x01
  out ← set out (contents payload_bytes) 21
  ok (out, e)

-- The parsed response, and its payload once more as bytes and as text. `payload_data` is the field
-- `data`.
pub record DataResponse : Type 0 where
  pub response : StatusResponse
  pub payload_data : List ℕ
  pub text : List ℕ

unfoldable pub parse_success_data_response : Value → String → Result DataResponse
parse_success_data_response message label = do
  parsed ← parse_status_response message label
  text ← utf8_text (part parsed.payload)
  ok (record { response = parsed; payload_data = parsed.payload; text = text })

-- `text ? text.split(",").filter(Boolean) : []`
unfoldable pub peers_of_text : List ℕ → List (List ℕ)
peers_of_text [] = []
peers_of_text (u ∷ s) = filter_nonempty (split b',' (u ∷ s))

unfoldable pub parse_peers_csv : Value → Result (List (List ℕ))
unfolding peers_of_text
parse_peers_csv bytes = do text ← utf8_text bytes; ok (peers_of_text text)

pub record PubPayload : Type 0 where
  pub topic : List ℕ
  pub message : List ℕ

unfoldable pub split_text : List ℕ → Option ℕ → PubPayload
split_text text none = record { topic = text; message = [] }
split_text text (some separator) = record {
  topic = take separator text;
  message = drop (suc separator) text;
}

unfoldable pub split_pub_payload : Value → Result PubPayload
unfolding split_text
split_pub_payload bytes = do text ← utf8_text bytes; ok (split_text text (index_of b'|' text))
