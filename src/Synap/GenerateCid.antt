-- ===== src/Synap/GenerateCid.antt =====
-- cards/js/synap2p/generate-cid.js
use diarsaba_go.Prelude.{ℕ, List, [], ◌∷◌}
use diarsaba_go.Js.Result.{Result, ok, ◌>>=◌}
use diarsaba_go.Js.Entropy.{Entropy}
use diarsaba_go.Common.Value.{Value}
use diarsaba_go.Synap.Opcodes
use diarsaba_go.Synap.Opcodes.{native_opcodes, external_opcodes}
use diarsaba_go.Synap.Frames.{
  SinglePayload, StatusResponse, DataResponse, build_single_payload_request,
  parse_single_payload_request, build_success_response, build_error_response,
  build_success_data_response, parse_status_response, parse_success_data_response,
}

abbrev pub native_opcode : ℕ
native_opcode = native_opcodes Opcodes.generate_cid

abbrev pub external_opcode : ℕ
external_opcode = external_opcodes Opcodes.generate_cid

unfoldable pub generate_cid_req_bytes : Value → Value → Entropy → Result (List ℕ × Entropy)
generate_cid_req_bytes payload id e = build_single_payload_request native_opcode payload id e

-- `payload_data` is the field `data`.
pub record GenerateCidReq : Type 0 where
  pub parsed : SinglePayload
  pub payload_data : List ℕ

pub generate_cid_req : Value → Result GenerateCidReq
generate_cid_req message = do
  parsed ← parse_single_payload_request message "GenerateCidReq"
  ok (record { parsed = parsed; payload_data = parsed.payload })

pub generate_cid_success_bytes : Value → Entropy → Result (List ℕ × Entropy)
generate_cid_success_bytes id e = build_success_response native_opcode id e

pub generate_cid_error_bytes : Value → Entropy → Result (List ℕ × Entropy)
generate_cid_error_bytes id e = build_error_response native_opcode id e

pub generate_cid_data_bytes : Value → Value → Entropy → Result (List ℕ × Entropy)
generate_cid_data_bytes id cid e = build_success_data_response native_opcode id cid e

-- A response without a payload is returned as it is; else the content id is added.
pub data GenerateCidResult : Type 0 where
  bare : StatusResponse → GenerateCidResult
  with_cid : DataResponse → List ℕ → GenerateCidResult

pub cid_or_bare : List ℕ → StatusResponse → Value → Result GenerateCidResult
cid_or_bare [] parsed message = ok (bare parsed)
cid_or_bare (b ∷ payload) parsed message = do
  with_data ← parse_success_data_response message "GenerateCidResultData"
  ok (with_cid with_data with_data.text)

pub generate_cid_result : Value → Result GenerateCidResult
unfolding cid_or_bare
generate_cid_result message = do
  parsed ← parse_status_response message "GenerateCidResult"
  cid_or_bare parsed.payload parsed message
