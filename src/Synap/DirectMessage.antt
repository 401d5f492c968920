-- ===== src/Synap/DirectMessage.antt =====
-- cards/js/synap2p/direct-msg.js
use diarsaba_go.Prelude.{ℕ, List}
use diarsaba_go.Js.Result.{Result}
use diarsaba_go.Js.Entropy.{Entropy}
use diarsaba_go.Common.Value.{Value}
use diarsaba_go.Synap.Opcodes
use diarsaba_go.Synap.Opcodes.{native_opcodes, external_opcodes}
use diarsaba_go.Synap.Frames.{
  StatusResponse, build_success_response, build_error_response, parse_status_response,
}
use diarsaba_go.Synap.Messages.{DirectMsg, build_direct_msg_request, parse_direct_msg_request}

abbrev pub native_opcode : ℕ
native_opcode = native_opcodes Opcodes.direct_msg

abbrev pub external_opcode : ℕ
external_opcode = external_opcodes Opcodes.direct_msg

unfoldable pub direct_msg_req_bytes : Value → Value → Value → Entropy → Result (List ℕ × Entropy)
direct_msg_req_bytes peer_id payload id e =
    build_direct_msg_request native_opcode peer_id payload id e

pub direct_msg_req : Value → Result DirectMsg
direct_msg_req message = parse_direct_msg_request message "DirectMsgReq"

pub direct_msg_success_bytes : Value → Entropy → Result (List ℕ × Entropy)
direct_msg_success_bytes id e = build_success_response native_opcode id e

pub direct_msg_error_bytes : Value → Entropy → Result (List ℕ × Entropy)
direct_msg_error_bytes id e = build_error_response native_opcode id e

pub direct_msg_result : Value → Result StatusResponse
direct_msg_result message = parse_status_response message "DirectMsgResult"
