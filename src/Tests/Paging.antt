-- ===== src/Tests/Paging.antt =====
-- The page's frames and its log.
use diarsaba_go.Prelude.{
  ℕ, ◌≡◌, refl, List, [], ◌∷◌, ◌++◌, none, some, true, false, All, lookup, delete, same_key, arith,
}
use diarsaba_go.Js.Result.{ok, ◌>>=◌}
use diarsaba_go.Js.Number.{IsByte, pos, negsuc, to_uint32}
use diarsaba_go.Js.Strings.{literal}
use diarsaba_go.Js.Strings.Numerals.{decimal, to_base, pad_start}
use diarsaba_go.Js.Text.{encode}
use diarsaba_go.Js.Entropy.{get_random_values}
use diarsaba_go.Common.Value.{nullish, part, Converts-part}
use diarsaba_go.Samsara.Read.{read_result_bytes}
use diarsaba_go.Samsara.Diferir.{diferir_req}
use diarsaba_go.Synap.Frames.{build_status_response, build_success_data_response}
use diarsaba_go.Dispatch.{unknown_opcode, error_result, synap, samsara, classify_frame}
use diarsaba_go.Page.Op
use diarsaba_go.Page.{
  Pending, has, is_known, opcode_name, short_hex, remember_pending, consume_pending,
}
use diarsaba_go.Page.Texts.{line, try_decode_text, payload_text_lines}
use diarsaba_go.Page.Frames.{info_lines, true_or_false, inspect_incoming_frame}
use diarsaba_go.Page.Keys.{consume_pending-remember_pending}
use diarsaba_go.Page.Answers.{
  inspect_incoming_frame-read_result_bytes, inspect_incoming_frame-error_result,
}
use diarsaba_go.Page.SynapAnswers.{
  inspect_incoming_frame-build_status_response, inspect_incoming_frame-build_success_data_response,
}
use diarsaba_go.Page.Mistaken.{inspect_incoming_frame-mistaken}
use diarsaba_go.Page.Cards.{
  diferir, write, direct_msg, build_samsara_frame, build_synap_frame, samsara_opcode, synap_opcode,
}
use diarsaba_go.Page.Cards.Routing.{classify_frame-build_samsara_frame}
use diarsaba_go.Page.Cards.Samsara.{build_samsara_frame-IsRequest}
use diarsaba_go.Page.Cards.Synap.{
  codec_frame, build_synap_frame-codec_frame, classify_frame-build_synap_frame,
}
use diarsaba_go.Tests.Dispatching.{ranges}
use diarsaba_go.Tests.Fixtures.{
  id_bytes, entropy, entropy_after, drawn_bytes, id_drawn, name_units, name_bytes, value_bytes,
  key_bytes, all_bytes-IsByte,
}

abbrev waiting_for_read : Pending
waiting_for_read = (short_hex id_bytes, 6) ∷ (short_hex drawn_bytes, Op.read) ∷ []

read_waits : lookup (short_hex drawn_bytes) waiting_for_read ≡ some Op.read
unfolding lookup same_key short_hex pad_start to_base
read_waits = refl

drawn_unknown : is_known (some 253) ≡ false
unfolding is_known has
drawn_unknown = refl

drawn_are_bytes : All IsByte drawn_bytes
drawn_are_bytes = all_bytes-IsByte drawn_bytes refl

consume_pending-remember_pending_example :
    let (found, pending') =
      consume_pending drawn_bytes (remember_pending drawn_bytes 35 waiting_for_read) in
    (found ≡ some 35)
    × ((consume_pending drawn_bytes pending').0 ≡ none)
    × ((consume_pending id_bytes pending').0 ≡ (consume_pending id_bytes waiting_for_read).0)
consume_pending-remember_pending_example =
    consume_pending-remember_pending drawn_bytes id_bytes 35 waiting_for_read drawn_are_bytes
      (all_bytes-IsByte id_bytes refl) (λ e. cc)

inspect_incoming_frame-read_result_bytes_example :
    (read_result_bytes nullish (pos 1) (pos 7) (part value_bytes) entropy >>= λ (frame, _).
    ok (inspect_incoming_frame frame waiting_for_read))
    ≡ ok (
      record {
        title = literal "READ";
        lines =
            line "opcode" (literal "READ")
            ∷ line "id" (short_hex drawn_bytes)
            ∷ line "status" (literal "1")
            ∷ line "ok" (literal "true")
            ∷ line "cellIndex" (literal "7")
            ∷ payload_text_lines "value" value_bytes;
      },
      delete (short_hex drawn_bytes) waiting_for_read,
    )
unfolding to_uint32 true_or_false to_base
inspect_incoming_frame-read_result_bytes_example =
    inspect_incoming_frame-read_result_bytes (pos 1) (pos 7) waiting_for_read id_drawn
      (Converts-part value_bytes) drawn_are_bytes drawn_unknown read_waits (omega arith)

inspect_incoming_frame-error_result_example :
    let (inspected, pending') =
      inspect_incoming_frame (error_result drawn_bytes unknown_opcode (33 ∷ [])) waiting_for_read in
    (inspected.lines
      ≡ literal "type=error_envelope"
        ∷ line "id" (short_hex drawn_bytes)
        ∷ line "request" (opcode_name Op.read)
        ∷ line "error_id" (decimal 50001)
        ∷ info_lines (try_decode_text (33 ∷ [])) (33 ∷ []))
    × (pending' ≡ delete (short_hex drawn_bytes) waiting_for_read)
inspect_incoming_frame-error_result_example =
    inspect_incoming_frame-error_result drawn_bytes (33 ∷ []) unknown_opcode Op.read
      waiting_for_read drawn_are_bytes refl drawn_unknown read_waits

inspect_incoming_frame-build_status_response_example :
    (build_status_response 13 nullish false entropy >>= λ (frame, _).
    ok (inspect_incoming_frame frame waiting_for_read))
    ≡ ok (
      record {
        title = opcode_name 13;
        lines =
            line "opcode" (opcode_name 13)
            ∷ line "id" (short_hex drawn_bytes)
            ∷ line "status" (decimal 0)
            ∷ line "ok" (literal "false")
            ∷ [];
      },
      delete (short_hex drawn_bytes) waiting_for_read,
    )
unfolding true_or_false
inspect_incoming_frame-build_status_response_example =
    inspect_incoming_frame-build_status_response 13 false waiting_for_read (omega arith)
      (omega arith) id_drawn

inspect_incoming_frame-build_success_data_response_example :
    (build_success_data_response 6 nullish (part key_bytes) entropy >>= λ (frame, _).
    ok (inspect_incoming_frame frame waiting_for_read))
    ≡ ok (
      record {
        title = opcode_name 6;
        lines =
            line "opcode" (opcode_name 6)
            ∷ line "id" (short_hex drawn_bytes)
            ∷ line "status" (decimal 1)
            ∷ line "ok" (literal "true")
            ∷ payload_text_lines "data" key_bytes;
      },
      delete (short_hex drawn_bytes) waiting_for_read,
    )
inspect_incoming_frame-build_success_data_response_example =
    inspect_incoming_frame-build_success_data_response 6 waiting_for_read (omega arith)
      (omega arith) id_drawn (Converts-part key_bytes) (omega arith)

-- The fourth byte of this id is the opcode of READ.
abbrev unlucky_id : List ℕ
unlucky_id = 1 ∷ 2 ∷ 3 ∷ 35 ∷ 5 ∷ 6 ∷ 7 ∷ 8 ∷ 9 ∷ 10 ∷ 11 ∷ 12 ∷ 13 ∷ 14 ∷ 15 ∷ 16 ∷ []

abbrev waiting_for_write : Pending
waiting_for_write = (short_hex unlucky_id, Op.write) ∷ []

read_known : is_known (some 35) ≡ true
unfolding is_known has
read_known = refl

inspect_incoming_frame-mistaken_example :
    let (inspected, pending') =
      inspect_incoming_frame (unlucky_id ++ (0 ∷ 0 ∷ 0 ∷ 1 ∷ [])) waiting_for_write in
    (inspected.title ≡ opcode_name 35) × (pending' ≡ waiting_for_write)
inspect_incoming_frame-mistaken_example =
    inspect_incoming_frame-mistaken unlucky_id (0 ∷ 0 ∷ 0 ∷ 1 ∷ []) waiting_for_write
      (all_bytes-IsByte unlucky_id refl) refl read_known (omega arith)

build_samsara_frame-IsRequest_example :
    diferir_req (
      part
        (build_samsara_frame
          (diferir name_units (pos 1) (115 ∷ []) (pos 64) (pos 3) (negsuc 0) (pos 0) (104 ∷ []))
          id_bytes
          entropy).0)
    ≡ ok (record {
      id = id_bytes;
      db_name = name_bytes;
      cell_index = 1;
      secret = 115 ∷ [];
      child_genome = 64;
      x = 3;
      y = 4294967295;
      z = 0;
      child_salt = drawn_bytes;
      child_secret = 104 ∷ [];
    })
unfolding encode to_uint32 get_random_values
build_samsara_frame-IsRequest_example =
    build_samsara_frame-IsRequest
      (diferir name_units (pos 1) (115 ∷ []) (pos 64) (pos 3) (negsuc 0) (pos 0) (104 ∷ []))
      id_bytes entropy refl (omega arith, omega arith, omega arith)

build_synap_frame-codec_frame_example :
    codec_frame (direct_msg name_units key_bytes) nullish entropy
    ≡ ok (build_synap_frame (direct_msg name_units key_bytes) drawn_bytes, entropy_after)
unfolding encode
build_synap_frame-codec_frame_example =
    build_synap_frame-codec_frame (direct_msg name_units key_bytes) id_drawn (omega arith)

classify_frame-build_synap_frame_example :
    classify_frame ranges (build_synap_frame (direct_msg name_units key_bytes) id_bytes)
    ≡ record { target = synap; opcode = 11; request_id = id_bytes; error_frame = none }
unfolding synap_opcode
classify_frame-build_synap_frame_example =
    classify_frame-build_synap_frame ranges (direct_msg name_units key_bytes) id_bytes refl refl

classify_frame-build_samsara_frame_example :
    classify_frame ranges
      (build_samsara_frame (write (pos 0) name_units key_bytes [] []) id_bytes entropy).0
    ≡ record { target = samsara; opcode = 34; request_id = id_bytes; error_frame = none }
unfolding samsara_opcode
classify_frame-build_samsara_frame_example =
    classify_frame-build_samsara_frame ranges (write (pos 0) name_units key_bytes [] []) id_bytes
      entropy refl refl refl
