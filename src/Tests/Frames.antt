-- ===== src/Tests/Frames.antt =====
-- Synap frames, built and read back: cards/js/synap2p.
use diarsaba_go.Prelude.{ℕ, ◌<◌, ◌≡◌, refl, List, [], ◌∷◌, some, true, false, replicate, arith}
use diarsaba_go.Js.Result.{ok, ◌>>=◌}
use diarsaba_go.Common.Value.{uint8_array, text, nullish, part, Converts-part}
use diarsaba_go.Tests.Fixtures.{
  id_bytes, id_view, entropy, drawn_bytes, id_given, id_drawn, name_units, name_bytes, name_text,
  key_bytes, value_bytes,
}
use diarsaba_go.Js.Text.{encode, decode, strip_bom}
use diarsaba_go.Js.Text.RoundTrip.{IsWellFormed, single, nil}
use diarsaba_go.Js.Strings.{join}
use diarsaba_go.Synap.Frames.{
  build_single_payload_request, parse_single_payload_request, build_status_response,
  parse_status_response, build_success_data_response, parse_success_data_response,
}
use diarsaba_go.Synap.Frames.Single.{parse-build_single_payload_request}
use diarsaba_go.Synap.Frames.Status.{parse-build_status_response, parse-build_success_data_response}
use diarsaba_go.Synap.Frames.Texts.{IsPlain}
use diarsaba_go.Synap.Messages.{
  build_direct_msg_request, parse_direct_msg_request, build_event_pub_sub, parse_event_pub_sub,
  build_event_direct_msg, parse_event_direct_msg, build_event_peer_found, parse_event_peer_found,
}
use diarsaba_go.Synap.Messages.Direct.{
  parse-build_direct_msg_request, parse-build_direct_msg_request_any,
}
use diarsaba_go.Synap.Messages.Events.{
  parse-build_event_pub_sub, parse-build_event_direct_msg, parse-build_event_peer_found,
}
use diarsaba_go.Synap.Peers.{strings, with_peers, peers_data_bytes, peers_result}
use diarsaba_go.Synap.Peers.RoundTrip.{peers_result-peers_data_bytes}
use diarsaba_go.Synap.Publish.{pub_req_bytes, pub_req}
use diarsaba_go.Synap.Publish.RoundTrip.{pub_req-pub_req_bytes}
use mathlib.Core.Logic.{inl}

parse-build_single_payload_request_example :
    (build_single_payload_request 13 (part value_bytes) nullish entropy >>= λ (frame, _).
    parse_single_payload_request (part frame) "GenerateCidReq")
    ≡ ok (record { opcode = 13; id = drawn_bytes; payload = value_bytes })
parse-build_single_payload_request_example =
    parse-build_single_payload_request 13 "GenerateCidReq" (omega arith) id_drawn
      (Converts-part value_bytes)

parse-build_status_response_example :
    (build_status_response 3 (uint8_array id_view) false entropy >>= λ (frame, _).
    parse_status_response (part frame) "SubResult")
    ≡ ok (record { opcode = 3; id = id_bytes; status = 0; is_ok = false; payload = [] })
parse-build_status_response_example =
    parse-build_status_response 3 false "SubResult" (omega arith) id_given

parse-build_success_data_response_example :
    (build_success_data_response 13 (uint8_array id_view) (text name_units) entropy
      >>= λ (frame, _). parse_success_data_response (part frame) "GenerateCidResult")
    ≡ ok (record {
      response = record {
        opcode = 13;
        id = id_bytes;
        status = 1;
        is_ok = true;
        payload = name_bytes;
      };
      payload_data = name_bytes;
      text = name_units;
    })
unfolding decode
parse-build_success_data_response_example =
    parse-build_success_data_response 13 "GenerateCidResult" (omega arith) id_given name_text

parse-build_direct_msg_request_example :
    (build_direct_msg_request 11 (text name_units) (part value_bytes) (uint8_array id_view) entropy
      >>= λ (frame, _). parse_direct_msg_request (part frame) "DirectMsgReq")
    ≡ ok (record { opcode = 11; id = id_bytes; peer_id = name_bytes; payload = value_bytes })
parse-build_direct_msg_request_example =
    parse-build_direct_msg_request 11 "DirectMsgReq" (omega arith) name_text
      (Converts-part value_bytes) id_given (omega arith)

parse-build_direct_msg_request_any_example :
    (build_direct_msg_request 11 (part key_bytes) (part value_bytes) nullish entropy
      >>= λ (frame, _). parse_direct_msg_request (part frame) "DirectMsgReq")
    ≡ ok (record { opcode = 11; id = drawn_bytes; peer_id = key_bytes; payload = value_bytes })
parse-build_direct_msg_request_any_example =
    parse-build_direct_msg_request_any 11 "DirectMsgReq" (omega arith) (Converts-part key_bytes)
      (Converts-part value_bytes) id_drawn (omega arith)

parse-build_event_pub_sub_example :
    (build_event_pub_sub (uint8_array id_view) (text name_units) entropy >>= λ (frame, _).
    parse_event_pub_sub (part frame))
    ≡ ok (record {
      parsed = record { opcode = 14; id = id_bytes; payload = name_bytes };
      payload_data = name_bytes;
      text = name_units;
    })
unfolding decode
parse-build_event_pub_sub_example = parse-build_event_pub_sub id_given name_text

parse-build_event_direct_msg_example :
    (build_event_direct_msg (uint8_array id_view) (part key_bytes) (text name_units) entropy
      >>= λ (frame, _). parse_event_direct_msg (part frame))
    ≡ ok (record {
      parsed = record { opcode = 15; id = id_bytes; peer_id = key_bytes; payload = name_bytes };
      peer_text = key_bytes;
      data_text = name_units;
    })
unfolding decode
parse-build_event_direct_msg_example =
    parse-build_event_direct_msg (Converts-part key_bytes) name_text id_given (omega arith)

parse-build_event_peer_found_example :
    (build_event_peer_found (text name_units) >>= λ frame. parse_event_peer_found (part frame))
    ≡ ok (record { opcode = 16; id = replicate 16 0; peer_id = name_bytes; peer_text = name_units })
unfolding decode
parse-build_event_peer_found_example = parse-build_event_peer_found name_text (omega arith)

-- "ab", "c" and "a,c" are texts without surrogates.
small : {u : ℕ} {s : List ℕ} → u < 0xd800 → IsWellFormed s → IsWellFormed (u ∷ s)
small h t = single (omega arith, inl h) t

peers_IsPlain : IsPlain (97 ∷ 44 ∷ 99 ∷ [])
unfolding strip_bom
peers_IsPlain = record {
  well_formed = small (omega arith) (small (omega arith) (small (omega arith) nil));
  unmarked = refl;
}

peers_result-peers_data_bytes_example :
    (peers_data_bytes (uint8_array id_view) (strings ((97 ∷ []) ∷ (99 ∷ []) ∷ [])) entropy
      >>= λ (frame, _). peers_result (part frame))
    ≡ ok (
        with_peers
          (record {
            response = record {
              opcode = 6;
              id = id_bytes;
              status = 1;
              is_ok = true;
              payload = 97 ∷ 44 ∷ 99 ∷ [];
            };
            payload_data = 97 ∷ 44 ∷ 99 ∷ [];
            text = 97 ∷ 44 ∷ 99 ∷ [];
          })
          ((97 ∷ []) ∷ (99 ∷ []) ∷ []))
unfolding encode join
peers_result-peers_data_bytes_example =
    peers_result-peers_data_bytes (97 ∷ []) ((99 ∷ []) ∷ []) id_given
      (
        ((λ e. cc), (λ e. absurd (omega arith), tt)),
        (((λ e. cc), (λ e. absurd (omega arith), tt)), tt),
      )
      (unfold join in peers_IsPlain)

topic_IsPlain : IsPlain (97 ∷ b'|' ∷ 99 ∷ [])
unfolding strip_bom
topic_IsPlain = record {
  well_formed = small (omega arith) (small (omega arith) (small (omega arith) nil));
  unmarked = refl;
}

pub_req-pub_req_bytes_example :
    (pub_req_bytes (97 ∷ []) (some (99 ∷ [])) nullish entropy >>= λ (frame, _).
    pub_req (part frame))
    ≡ ok (record {
      parsed = record { opcode = 5; id = drawn_bytes; payload = 97 ∷ 124 ∷ 99 ∷ [] };
      topic = 97 ∷ [];
      message = 99 ∷ [];
    })
unfolding encode
pub_req-pub_req_bytes_example =
    pub_req-pub_req_bytes (97 ∷ []) (some (99 ∷ [])) id_drawn (λ e. absurd (omega arith), tt)
      topic_IsPlain
