-- ===== src/Synap/Dial.antt =====
-- cards/js/synap2p/dial.js
use diarsaba_go.Prelude.{ℕ, List}
use diarsaba_go.Js.Result.{Result, ok, ◌>>=◌}
use diarsaba_go.Js.Entropy.{Entropy}
use diarsaba_go.Common.Value.{Value}
use diarsaba_go.Synap.Opcodes
use diarsaba_go.Synap.Opcodes.{native_opcodes, external_opcodes}
use diarsaba_go.Synap.Frames.{
  SinglePayload, StatusResponse, build_single_payload_request, parse_single_payload_request,
  build_success_response, build_error_response, parse_status_response,
}

abbrev pub native_opcode : ℕ
native_opcode = native_opcodes Opcodes.dial

abbrev pub external_opcode : ℕ
external_opcode = external_opcodes Opcodes.dial

unfoldable pub dial_req_bytes : Value → Value → Entropy → Result (List ℕ × Entropy)
dial_req_bytes addr id e = build_single_payload_request native_opcode addr id e

pub record DialReq : Type 0 where
  pub parsed : SinglePayload
  pub addr : List ℕ

pub dial_req : Value → Result DialReq
dial_req message = do
  parsed ← parse_single_payload_request message "DialReq"
  ok (record { parsed = parsed; addr = parsed.payload })

pub dial_success_bytes : Value → Entropy → Result (List ℕ × Entropy)
dial_success_bytes id e = build_success_response native_opcode id e

pub dial_error_bytes : Value → Entropy → Result (List ℕ × Entropy)
dial_error_bytes id e = build_error_response native_opcode id e

pub dial_result : Value → Result StatusResponse
dial_result message = parse_status_response message "DialResult"
