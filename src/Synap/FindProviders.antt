-- ===== src/Synap/FindProviders.antt =====
-- cards/js/synap2p/find-providers.js
use diarsaba_go.Prelude.{ℕ, List}
use diarsaba_go.Js.Result.{Result, ok, ◌>>=◌}
use diarsaba_go.Js.Entropy.{Entropy}
use diarsaba_go.Common.Value.{Value}
use diarsaba_go.Synap.Opcodes
use diarsaba_go.Synap.Opcodes.{native_opcodes, external_opcodes}
use diarsaba_go.Synap.Peers.{PeersArgument, peers_payload, PeersResult, peers_or_bare}
use diarsaba_go.Synap.Frames.{
  SinglePayload, build_single_payload_request, parse_single_payload_request, build_success_response,
  build_error_response, build_success_data_response, parse_status_response,
}

abbrev pub native_opcode : ℕ
native_opcode = native_opcodes Opcodes.find_providers

abbrev pub external_opcode : ℕ
external_opcode = external_opcodes Opcodes.find_providers

unfoldable pub find_providers_req_bytes : Value → Value → Entropy → Result (List ℕ × Entropy)
find_providers_req_bytes cid id e = build_single_payload_request native_opcode cid id e

pub record FindProvidersReq : Type 0 where
  pub parsed : SinglePayload
  pub cid : List ℕ

pub find_providers_req : Value → Result FindProvidersReq
find_providers_req message = do
  parsed ← parse_single_payload_request message "FindProvidersReq"
  ok (record { parsed = parsed; cid = parsed.payload })

pub find_providers_success_bytes : Value → Entropy → Result (List ℕ × Entropy)
find_providers_success_bytes id e = build_success_response native_opcode id e

pub find_providers_error_bytes : Value → Entropy → Result (List ℕ × Entropy)
find_providers_error_bytes id e = build_error_response native_opcode id e

pub find_providers_data_bytes : Value → PeersArgument → Entropy → Result (List ℕ × Entropy)
find_providers_data_bytes id peers e =
    build_success_data_response native_opcode id (peers_payload peers) e

pub find_providers_result : Value → Result PeersResult
find_providers_result message = do
  parsed ← parse_status_response message "FindProvidersResult"
  peers_or_bare parsed.payload parsed message "FindProvidersResultData"
