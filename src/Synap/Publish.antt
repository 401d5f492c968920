-- ===== src/Synap/Publish.antt =====
-- cards/js/synap2p/pub.js
pub mod RoundTrip
use diarsaba_go.Prelude.{ℕ, List, [], ◌∷◌, ◌++◌, Option, none, some}
use diarsaba_go.Js.Result.{Result, ok, ◌>>=◌}
use diarsaba_go.Js.Entropy.{Entropy}
use diarsaba_go.Js.Strings.{join}
use diarsaba_go.Common.Value.{Value, text, part}
use diarsaba_go.Synap.Opcodes
use diarsaba_go.Synap.Opcodes.{native_opcodes, external_opcodes}
use diarsaba_go.Synap.Frames.{
  SinglePayload, StatusResponse, DataResponse, build_single_payload_request,
  parse_single_payload_request, build_success_response, build_error_response,
  build_success_data_response, parse_status_response, parse_success_data_response, parse_peers_csv,
  split_pub_payload,
}

abbrev pub native_opcode : ℕ
native_opcode = native_opcodes Opcodes.publish

abbrev pub external_opcode : ℕ
external_opcode = external_opcodes Opcodes.publish

-- `topic + "|" + (message || "")`, of strings; without a message, of the empty one.
unfoldable pub pub_payload_bytes : List ℕ → Option (List ℕ) → List ℕ
pub_payload_bytes topic none = topic ++ (b'|' ∷ [])
pub_payload_bytes topic (some message) = topic ++ (b'|' ∷ message)

unfoldable pub pub_req_bytes :
    List ℕ → Option (List ℕ) → Value → Entropy → Result (List ℕ × Entropy)
unfolding pub_payload_bytes
pub_req_bytes topic message id e =
    build_single_payload_request native_opcode (text (pub_payload_bytes topic message)) id e

pub record PubReq : Type 0 where
  pub parsed : SinglePayload
  pub topic : List ℕ
  pub message : List ℕ

pub pub_req : Value → Result PubReq
pub_req message = do
  parsed ← parse_single_payload_request message "PubReq"
  split ← split_pub_payload (part parsed.payload)
  ok (record { parsed = parsed; topic = split.topic; message = split.message })

pub pub_success_bytes : Value → Entropy → Result (List ℕ × Entropy)
pub_success_bytes id e = build_success_response native_opcode id e

pub pub_error_bytes : Value → Entropy → Result (List ℕ × Entropy)
pub_error_bytes id e = build_error_response native_opcode id e

pub pub_result : Value → Result StatusResponse
pub_result message = parse_status_response message "PubResult"
