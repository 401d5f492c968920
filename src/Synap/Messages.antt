-- ===== src/Synap/Messages.antt =====
-- cards/js/synap2p/common.js: direct messages and the three events.
pub mod Direct
pub mod Events
use Prim.Native.String.{◌++◌ as joined}
use diarsaba_go.Prelude.{ℕ, ◌+◌, ◌*◌, String, List, [], ◌∷◌, get_or}
use diarsaba_go.Js.Result.{Result, ok, ◌>>=◌, ◌>>◌}
use diarsaba_go.Js.Number.{pos}
use diarsaba_go.Js.Bytes.{View, contents, zeros, slice, slice_from}
use diarsaba_go.Js.Entropy.{Entropy}
use diarsaba_go.Common.Value.{Value, uint8_array, part, to_uint8_array}
use diarsaba_go.Common.Convert.{ensure_min_length, read_u32, u16_bytes, utf8_text}
use diarsaba_go.Common.Concat.{build_opcode_message}
use diarsaba_go.Common.Ids.{normalize_id}
use diarsaba_go.Synap.Opcodes.{event_pubsub, event_direct_msg, event_peer_found, native_opcodes}
use diarsaba_go.Synap.Frames.{SinglePayload, low_byte, parse_single_payload_request}

unfoldable pub build_direct_msg_request :
    ℕ → Value → Value → Value → Entropy → Result (List ℕ × Entropy)
build_direct_msg_request opcode peer_id payload id e = do
  peer_bytes ← to_uint8_array peer_id
  data_bytes ← to_uint8_array payload
  (raw, e) ← normalize_id id e
  frame ← build_opcode_message opcode (
      uint8_array raw
      ∷ part (u16_bytes (pos peer_bytes.byte_length))
      ∷ uint8_array peer_bytes
      ∷ uint8_array data_bytes
      ∷ [])
  ok (frame, e)

-- `payload` is the field `data`.
pub record DirectMsg : Type 0 where
  pub opcode : ℕ
  pub id : List ℕ
  pub peer_id : List ℕ
  pub payload : List ℕ

-- `(bytes[20] << 8) | bytes[21]`, of two bytes.
unfoldable pub peer_length : View → ℕ
unfolding contents
peer_length bytes = get_or (contents bytes) 20 0 * 256 + get_or (contents bytes) 21 0

unfoldable pub parse_direct_msg_request : Value → String → Result DirectMsg
unfolding peer_length
parse_direct_msg_request message label = do
  bytes ← to_uint8_array message
  ensure_min_length bytes 22 label
  let size = peer_length bytes
  ensure_min_length bytes (22 + size) (joined label " peer")
  word ← read_u32 bytes 0
  ok (record {
    opcode = low_byte word;
    id = slice bytes 4 20;
    peer_id = slice bytes 22 (22 + size);
    payload = slice_from bytes (22 + size);
  })

unfoldable pub build_event_pub_sub : Value → Value → Entropy → Result (List ℕ × Entropy)
build_event_pub_sub id payload e = do
  (raw, e) ← normalize_id id e
  data_bytes ← to_uint8_array payload
  frame ←
      build_opcode_message (native_opcodes event_pubsub)
        (uint8_array raw ∷ uint8_array data_bytes ∷ [])
  ok (frame, e)

-- The parsed request, and its payload once more as bytes and as text.
pub record EventPubSub : Type 0 where
  pub parsed : SinglePayload
  pub payload_data : List ℕ
  pub text : List ℕ

unfoldable pub parse_event_pub_sub : Value → Result EventPubSub
parse_event_pub_sub message = do
  parsed ← parse_single_payload_request message "EventPubSub"
  text ← utf8_text (part parsed.payload)
  ok (record { parsed = parsed; payload_data = parsed.payload; text = text })

unfoldable pub build_event_direct_msg : Value → Value → Value → Entropy → Result (List ℕ × Entropy)
build_event_direct_msg id peer_id payload e = do
  peer_bytes ← to_uint8_array peer_id
  data_bytes ← to_uint8_array payload
  (raw, e) ← normalize_id id e
  frame ← build_opcode_message (native_opcodes event_direct_msg) (
      uint8_array raw
      ∷ part (u16_bytes (pos peer_bytes.byte_length))
      ∷ uint8_array peer_bytes
      ∷ uint8_array data_bytes
      ∷ [])
  ok (frame, e)

pub record EventDirectMsg : Type 0 where
  pub parsed : DirectMsg
  pub peer_text : List ℕ
  pub data_text : List ℕ

unfoldable pub parse_event_direct_msg : Value → Result EventDirectMsg
parse_event_direct_msg message = do
  parsed ← parse_direct_msg_request message "EventDirectMsg"
  peer_text ← utf8_text (part parsed.peer_id)
  data_text ← utf8_text (part parsed.payload)
  ok (record { parsed = parsed; peer_text = peer_text; data_text = data_text })

-- The event has no request: its id is sixteen zeros.
unfoldable pub build_event_peer_found : Value → Result (List ℕ)
build_event_peer_found peer_id = do
  peer_bytes ← to_uint8_array peer_id
  build_opcode_message (native_opcodes event_peer_found) (
      part (zeros 16) ∷ part (u16_bytes (pos peer_bytes.byte_length)) ∷ uint8_array peer_bytes ∷ [])

pub record EventPeerFound : Type 0 where
  pub opcode : ℕ
  pub id : List ℕ
  pub peer_id : List ℕ
  pub peer_text : List ℕ

unfoldable pub parse_event_peer_found : Value → Result EventPeerFound
unfolding peer_length
parse_event_peer_found message = do
  bytes ← to_uint8_array message
  ensure_min_length bytes 22 "EventPeerFound"
  let size = peer_length bytes
  ensure_min_length bytes (22 + size) "EventPeerFound peer"
  let peer_id = slice bytes 22 (22 + size)
  word ← read_u32 bytes 0
  peer_text ← utf8_text (part peer_id)
  ok (record {
    opcode = low_byte word;
    id = slice bytes 4 20;
    peer_id = peer_id;
    peer_text = peer_text;
  })
