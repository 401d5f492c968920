-- ===== src/Tests/Dispatching.antt =====
-- Frames on their way through dispatch.go.
use diarsaba_go.Prelude.{
  ◌≡◌, ◌↔◌, ◌⊎◌, ◌≤◌, refl, [], ◌∷◌, ◌++◌, none, some, true, false, replicate, arith,
}
use diarsaba_go.Js.Result.{ok, ◌>>=◌}
use diarsaba_go.Common.Value.{uint8_array, nullish, part, Converts-part}
use diarsaba_go.Samsara.ReadFree.{read_free_result}
use diarsaba_go.Synap.Frames.{build_single_payload_request, build_status_response}
use diarsaba_go.Dispatch.{
  Ranges, synap, unknown_opcode, copied, normalize_id, error_result, classify_frame,
  synap_response_id,
}
use diarsaba_go.Dispatch.ErrorFrames.{read_free_result-error_result}
use diarsaba_go.Dispatch.Routing.{
  classify_frame-build_single_payload_request, classify_frame-error_frame_iff,
  synap_response_id-build_status_response, synap_response_id-id_first,
}
use diarsaba_go.Tests.Fixtures.{
  id_view, id_bytes, entropy, drawn_bytes, id_drawn, id_given, value_bytes,
}

-- Bounds that hold the opcodes of the cards' tables.
abbrev pub ranges : Ranges
ranges = record {
  request_min = 1;
  request_max = 13;
  event_min = 14;
  event_max = 16;
  namespace_min = 32;
  namespace_max = 47;
}

read_free_result-error_result_example :
    read_free_result (part (error_result (7 ∷ []) unknown_opcode (33 ∷ [])))
    ≡ ok (record { id = 7 ∷ replicate 15 0; status = 50001; value = 33 ∷ [] })
unfolding normalize_id copied
read_free_result-error_result_example =
    read_free_result-error_result (7 ∷ []) unknown_opcode (33 ∷ [])

classify_frame-build_single_payload_request_example :
    (build_single_payload_request 13 (part value_bytes) nullish entropy >>= λ (frame, _).
    ok (classify_frame ranges frame))
    ≡ ok (record { target = synap; opcode = 13; request_id = drawn_bytes; error_frame = none })
classify_frame-build_single_payload_request_example =
    classify_frame-build_single_payload_request ranges 13 (omega arith) refl id_drawn
      (Converts-part value_bytes)

classify_frame-error_frame_iff_example :
    ((classify_frame ranges (0 ∷ 0 ∷ 0 ∷ 33 ∷ id_bytes)).error_frame ≡ none)
    ↔ ((20 ≤ 20) × ((false ≡ true) ⊎ (true ≡ true)))
classify_frame-error_frame_iff_example =
    classify_frame-error_frame_iff ranges (0 ∷ 0 ∷ 0 ∷ 33 ∷ id_bytes)

synap_response_id-build_status_response_example :
    (build_status_response 3 (uint8_array id_view) true entropy >>= λ (frame, _).
    ok (synap_response_id ranges frame))
    ≡ ok (some id_bytes)
synap_response_id-build_status_response_example =
    synap_response_id-build_status_response ranges 3 true (omega arith) refl id_given

synap_response_id-id_first_example :
    synap_response_id ranges (id_bytes ++ (0 ∷ 0 ∷ 0 ∷ 1 ∷ [])) ≡ some id_bytes
synap_response_id-id_first_example =
    synap_response_id-id_first ranges id_bytes (0 ∷ 0 ∷ 0 ∷ 1 ∷ []) refl (omega arith)
      (λ e. absurd (omega arith))
