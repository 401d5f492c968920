-- ===== src/Synap/Peers.antt =====
-- cards/js/synap2p/peers.js
pub mod RoundTrip
use diarsaba_go.Prelude.{ℕ, String, List, [], ◌∷◌, ◌++◌, Option, none, some}
use diarsaba_go.Js.Result.{Result, ok, ◌>>=◌}
use diarsaba_go.Js.Entropy.{Entropy}
use diarsaba_go.Js.Strings.{join}
use diarsaba_go.Common.Value.{Value, text, part}
use diarsaba_go.Synap.Opcodes
use diarsaba_go.Synap.Opcodes.{native_opcodes, external_opcodes}
use diarsaba_go.Synap.Frames.{
  SinglePayload, StatusResponse, DataResponse, build_single_payload_request,
  parse_single_payload_request, build_success_response, build_error_response,
  build_success_data_response, parse_status_response, parse_success_data_response, parse_peers_csv,
  split_pub_payload,
}

abbrev pub native_opcode : ℕ
native_opcode = native_opcodes Opcodes.peers

abbrev pub external_opcode : ℕ
external_opcode = external_opcodes Opcodes.peers

unfoldable pub peers_req_bytes : Value → Entropy → Result (List ℕ × Entropy)
peers_req_bytes id e = build_single_payload_request native_opcode (part []) id e

pub peers_req : Value → Result SinglePayload
peers_req message = parse_single_payload_request message "PeersReq"

pub peers_success_bytes : Value → Entropy → Result (List ℕ × Entropy)
peers_success_bytes id e = build_success_response native_opcode id e

pub peers_error_bytes : Value → Entropy → Result (List ℕ × Entropy)
peers_error_bytes id e = build_error_response native_opcode id e

-- The argument `peers`: an Array of strings, or a value that is no Array.
pub data PeersArgument : Type 0 where
  strings : List (List ℕ) → PeersArgument
  plain : Value → PeersArgument

-- `Array.isArray(peers) ? peers.join(",") : peers`
unfoldable pub peers_payload : PeersArgument → Value
peers_payload (strings peers) = text (join b',' peers)
peers_payload (plain peers) = peers

pub peers_data_bytes : Value → PeersArgument → Entropy → Result (List ℕ × Entropy)
unfolding peers_payload
peers_data_bytes id peers e = build_success_data_response native_opcode id (peers_payload peers) e

-- A response without a payload is returned as it is; else the peers are added.
pub data PeersResult : Type 0 where
  bare : StatusResponse → PeersResult
  with_peers : DataResponse → List (List ℕ) → PeersResult

unfoldable pub peers_or_bare : List ℕ → StatusResponse → Value → String → Result PeersResult
peers_or_bare [] parsed message label = ok (bare parsed)
peers_or_bare (b ∷ payload) parsed message label = do
  with_data ← parse_success_data_response message label
  peers ← parse_peers_csv (part with_data.payload_data)
  ok (with_peers with_data peers)

pub peers_result : Value → Result PeersResult
unfolding peers_or_bare
peers_result message = do
  parsed ← parse_status_response message "PeersResult"
  peers_or_bare parsed.payload parsed message "PeersResultData"
