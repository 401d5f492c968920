-- ===== src/Synap/Sub.antt =====
-- cards/js/synap2p/sub.js
use diarsaba_go.Prelude.{ℕ, List}
use diarsaba_go.Js.Result.{Result, ok, ◌>>=◌}
use diarsaba_go.Js.Entropy.{Entropy}
use diarsaba_go.Common.Value.{Value}
use diarsaba_go.Synap.Opcodes
use diarsaba_go.Synap.Opcodes.{native_opcodes, external_opcodes}
use diarsaba_go.Synap.Frames.{
  SinglePayload, StatusResponse, build_single_payload_request, parse_single_payload_request,
  build_success_response, build_error_response, parse_status_response,
}

abbrev pub native_opcode : ℕ
native_opcode = native_opcodes Opcodes.sub

abbrev pub external_opcode : ℕ
external_opcode = external_opcodes Opcodes.sub

unfoldable pub sub_req_bytes : Value → Value → Entropy → Result (List ℕ × Entropy)
sub_req_bytes topic id e = build_single_payload_request native_opcode topic id e

pub record SubReq : Type 0 where
  pub parsed : SinglePayload
  pub topic : List ℕ

pub sub_req : Value → Result SubReq
sub_req message = do
  parsed ← parse_single_payload_request message "SubReq"
  ok (record { parsed = parsed; topic = parsed.payload })

pub sub_success_bytes : Value → Entropy → Result (List ℕ × Entropy)
sub_success_bytes id e = build_success_response native_opcode id e

pub sub_error_bytes : Value → Entropy → Result (List ℕ × Entropy)
sub_error_bytes id e = build_error_response native_opcode id e

pub sub_result : Value → Result StatusResponse
sub_result message = parse_status_response message "SubResult"
