-- ===== src/Synap/Announce.antt =====
-- cards/js/synap2p/announce.js
use diarsaba_go.Prelude.{ℕ, List}
use diarsaba_go.Js.Result.{Result, ok, ◌>>=◌}
use diarsaba_go.Js.Entropy.{Entropy}
use diarsaba_go.Common.Value.{Value}
use diarsaba_go.Synap.Opcodes
use diarsaba_go.Synap.Opcodes.{native_opcodes, external_opcodes}
use diarsaba_go.Synap.Frames.{
  SinglePayload, StatusResponse, build_single_payload_request, parse_single_payload_request,
  build_success_response, build_error_response, parse_status_response,
}

abbrev pub native_opcode : ℕ
native_opcode = native_opcodes Opcodes.announce

abbrev pub external_opcode : ℕ
external_opcode = external_opcodes Opcodes.announce

unfoldable pub announce_req_bytes : Value → Value → Entropy → Result (List ℕ × Entropy)
announce_req_bytes cid id e = build_single_payload_request native_opcode cid id e

pub record AnnounceReq : Type 0 where
  pub parsed : SinglePayload
  pub cid : List ℕ

pub announce_req : Value → Result AnnounceReq
announce_req message = do
  parsed ← parse_single_payload_request message "AnnounceReq"
  ok (record { parsed = parsed; cid = parsed.payload })

pub announce_success_bytes : Value → Entropy → Result (List ℕ × Entropy)
announce_success_bytes id e = build_success_response native_opcode id e

pub announce_error_bytes : Value → Entropy → Result (List ℕ × Entropy)
announce_error_bytes id e = build_error_response native_opcode id e

pub announce_result : Value → Result StatusResponse
announce_result message = parse_status_response message "AnnounceResult"
