-- ===== src/Synap/Disconnect.antt =====
-- cards/js/synap2p/disconnect.js
use diarsaba_go.Prelude.{ℕ, List}
use diarsaba_go.Js.Result.{Result, ok, ◌>>=◌}
use diarsaba_go.Js.Entropy.{Entropy}
use diarsaba_go.Common.Value.{Value}
use diarsaba_go.Synap.Opcodes
use diarsaba_go.Synap.Opcodes.{native_opcodes, external_opcodes}
use diarsaba_go.Synap.Frames.{
  SinglePayload, StatusResponse, build_single_payload_request, parse_single_payload_request,
  build_success_response, build_error_response, parse_status_response,
}

abbrev pub native_opcode : ℕ
native_opcode = native_opcodes Opcodes.disconnect

abbrev pub external_opcode : ℕ
external_opcode = external_opcodes Opcodes.disconnect

unfoldable pub disconnect_req_bytes : Value → Value → Entropy → Result (List ℕ × Entropy)
disconnect_req_bytes peer_id id e = build_single_payload_request native_opcode peer_id id e

pub record DisconnectReq : Type 0 where
  pub parsed : SinglePayload
  pub peer_id : List ℕ

pub disconnect_req : Value → Result DisconnectReq
disconnect_req message = do
  parsed ← parse_single_payload_request message "DisconnectReq"
  ok (record { parsed = parsed; peer_id = parsed.payload })

pub disconnect_success_bytes : Value → Entropy → Result (List ℕ × Entropy)
disconnect_success_bytes id e = build_success_response native_opcode id e

pub disconnect_error_bytes : Value → Entropy → Result (List ℕ × Entropy)
disconnect_error_bytes id e = build_error_response native_opcode id e

pub disconnect_result : Value → Result StatusResponse
disconnect_result message = parse_status_response message "DisconnectResult"
