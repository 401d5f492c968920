-- ===== src/Synap/Unannounce.antt =====
-- cards/js/synap2p/unannounce.js
use diarsaba_go.Prelude.{ℕ, List}
use diarsaba_go.Js.Result.{Result, ok, ◌>>=◌}
use diarsaba_go.Js.Entropy.{Entropy}
use diarsaba_go.Common.Value.{Value}
use diarsaba_go.Synap.Opcodes
use diarsaba_go.Synap.Opcodes.{native_opcodes, external_opcodes}
use diarsaba_go.Synap.Frames.{
  SinglePayload, StatusResponse, build_single_payload_request, parse_single_payload_request,
  build_success_response, build_error_response, parse_status_response,
}

abbrev pub native_opcode : ℕ
native_opcode = native_opcodes Opcodes.unannounce

abbrev pub external_opcode : ℕ
external_opcode = external_opcodes Opcodes.unannounce

unfoldable pub unannounce_req_bytes : Value → Value → Entropy → Result (List ℕ × Entropy)
unannounce_req_bytes cid id e = build_single_payload_request native_opcode cid id e

pub record UnannounceReq : Type 0 where
  pub parsed : SinglePayload
  pub cid : List ℕ

pub unannounce_req : Value → Result UnannounceReq
unannounce_req message = do
  parsed ← parse_single_payload_request message "UnannounceReq"
  ok (record { parsed = parsed; cid = parsed.payload })

pub unannounce_success_bytes : Value → Entropy → Result (List ℕ × Entropy)
unannounce_success_bytes id e = build_success_response native_opcode id e

pub unannounce_error_bytes : Value → Entropy → Result (List ℕ × Entropy)
unannounce_error_bytes id e = build_error_response native_opcode id e

pub unannounce_result : Value → Result StatusResponse
unannounce_result message = parse_status_response message "UnannounceResult"
