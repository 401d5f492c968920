-- ===== src/Synap/Relay.antt =====
-- cards/js/synap2p/relay.js
use diarsaba_go.Prelude.{ℕ, List}
use diarsaba_go.Js.Result.{Result, ok, ◌>>=◌}
use diarsaba_go.Js.Entropy.{Entropy}
use diarsaba_go.Common.Value.{Value}
use diarsaba_go.Synap.Opcodes
use diarsaba_go.Synap.Opcodes.{native_opcodes, external_opcodes}
use diarsaba_go.Synap.Frames.{
  SinglePayload, StatusResponse, build_single_payload_request, parse_single_payload_request,
  build_success_response, build_error_response, parse_status_response,
}

abbrev pub native_opcode : ℕ
native_opcode = native_opcodes Opcodes.relay

abbrev pub external_opcode : ℕ
external_opcode = external_opcodes Opcodes.relay

unfoldable pub relay_req_bytes : Value → Value → Entropy → Result (List ℕ × Entropy)
relay_req_bytes addr id e = build_single_payload_request native_opcode addr id e

pub record RelayReq : Type 0 where
  pub parsed : SinglePayload
  pub addr : List ℕ

pub relay_req : Value → Result RelayReq
relay_req message = do
  parsed ← parse_single_payload_request message "RelayReq"
  ok (record { parsed = parsed; addr = parsed.payload })

pub relay_success_bytes : Value → Entropy → Result (List ℕ × Entropy)
relay_success_bytes id e = build_success_response native_opcode id e

pub relay_error_bytes : Value → Entropy → Result (List ℕ × Entropy)
relay_error_bytes id e = build_error_response native_opcode id e

pub relay_result : Value → Result StatusResponse
relay_result message = parse_status_response message "RelayResult"
