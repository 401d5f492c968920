-- ===== src/Synap/UseTopic.antt =====
-- cards/js/synap2p/use.js
use diarsaba_go.Prelude.{ℕ, List}
use diarsaba_go.Js.Result.{Result, ok, ◌>>=◌}
use diarsaba_go.Js.Entropy.{Entropy}
use diarsaba_go.Common.Value.{Value}
use diarsaba_go.Synap.Opcodes
use diarsaba_go.Synap.Opcodes.{native_opcodes, external_opcodes}
use diarsaba_go.Synap.Frames.{
  SinglePayload, StatusResponse, build_single_payload_request, parse_single_payload_request,
  build_success_response, build_error_response, parse_status_response,
}

abbrev pub native_opcode : ℕ
native_opcode = native_opcodes Opcodes.use_topic

abbrev pub external_opcode : ℕ
external_opcode = external_opcodes Opcodes.use_topic

unfoldable pub use_req_bytes : Value → Value → Entropy → Result (List ℕ × Entropy)
use_req_bytes topic id e = build_single_payload_request native_opcode topic id e

pub record UseReq : Type 0 where
  pub parsed : SinglePayload
  pub topic : List ℕ

pub use_req : Value → Result UseReq
use_req message = do
  parsed ← parse_single_payload_request message "UseReq"
  ok (record { parsed = parsed; topic = parsed.payload })

pub use_success_bytes : Value → Entropy → Result (List ℕ × Entropy)
use_success_bytes id e = build_success_response native_opcode id e

pub use_error_bytes : Value → Entropy → Result (List ℕ × Entropy)
use_error_bytes id e = build_error_response native_opcode id e

pub use_result : Value → Result StatusResponse
use_result message = parse_status_response message "UseResult"
