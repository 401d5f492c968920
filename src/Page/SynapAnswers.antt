-- ===== src/Page/SynapAnswers.antt =====
-- The log of cards/index.html for the responses of Synap, which start with an opcode.
use diarsaba_go.Prelude.{
  ℕ, ◌/◌, ◌%◌, ◌^◌, ◌≤◌, ◌<◌, ◌≡◌, refl, ap, ◌∙◌, List, [], ◌∷◌, ◌++◌, length, take, drop, some,
  Bool, true, false, ◌&&◌, ltb, leb, delete, length-append, take-length_append, drop-length_append,
  arith,
}
use diarsaba_go.Js.Result.{ok, ◌>>=◌}
use diarsaba_go.Js.Number.{be32}
use diarsaba_go.Js.Strings.{literal}
use diarsaba_go.Js.Strings.Numerals.{decimal}
use diarsaba_go.Js.Entropy.{Entropy}
use diarsaba_go.Common.Value.{Value, Converts}
use diarsaba_go.Common.Ids.{Identifies}
use diarsaba_go.Synap.Frames.{build_status_response, build_success_data_response, status_byte}
use diarsaba_go.Synap.Frames.Status.{
  build_status_response-layout, build_success_data_response-layout,
}
use diarsaba_go.Page.Op
use diarsaba_go.Page.{Pending, has, opcode_name, short_hex, is_known, frame_opcode, consume_pending}
use diarsaba_go.Page.Texts.{line, payload_text_lines}
use diarsaba_go.Page.Frames.{
  true_or_false, status_lines, parse_synap_opcode_frame, inspect_opcode, inspect_incoming_frame,
}
use diarsaba_go.Page.Inspect.{frame_opcode-front, inspect_incoming_frame-opcode}

request_opcode :
    (opcode : ℕ) → Op.relay ≤ opcode → opcode ≤ Op.generate_cid → is_known (some opcode) ≡ true
unfolding is_known has
request_opcode opcode h k = ground arith

opcode_in_front :
    (opcode : ℕ) (rest : List ℕ) → opcode < 256 → frame_opcode (be32 opcode ++ rest) ≡ some opcode
unfolding be32
opcode_in_front opcode rest h =
    frame_opcode-front (opcode / 2 ^ 24 % 256) (opcode / 2 ^ 16 % 256) (opcode / 2 ^ 8 % 256)
      (opcode % 256) rest (omega arith)
    ∙ ap some (omega arith)

module _ (opcode : ℕ) (raw payload : List ℕ) (pending : Pending) (low : Op.relay ≤ opcode)
    (high : opcode ≤ Op.generate_cid) (sixteen : length raw ≡ 16) where
  response_parsed : parse_synap_opcode_frame (be32 opcode ++ (raw ++ payload)) opcode pending ≡ (
    line "opcode" (opcode_name opcode) ∷ line "id" (short_hex raw) ∷ status_lines payload,
    delete (short_hex raw) pending,
  )
  unfolding parse_synap_opcode_frame consume_pending
  response_parsed =
      let long : ltb (length (be32 opcode ++ (raw ++ payload))) 20 ≡ false =
        unfold be32 in ground (arith, length-append raw payload) in
      let ranged : (leb Op.relay opcode && leb opcode Op.generate_cid) ≡ true = ground arith in
      let id : take 16 (drop 4 (be32 opcode ++ (raw ++ payload))) ≡ raw =
        unfold be32 in take-length_append 16 raw payload sixteen in
      let behind : drop 20 (be32 opcode ++ (raw ++ payload)) ≡ payload =
        unfold be32 in drop-length_append 16 raw payload sixteen in
      rw (long, ranged, id, behind) refl

  pub response_inspected : inspect_incoming_frame (be32 opcode ++ (raw ++ payload)) pending ≡ (
    record {
      title = opcode_name opcode;
      lines = line "opcode" (opcode_name opcode) ∷ line "id" (short_hex raw) ∷ status_lines payload;
    },
    delete (short_hex raw) pending,
  )
  response_inspected =
      let some_bytes : 0 < length (be32 opcode ++ (raw ++ payload)) = unfold be32 in omega arith in
      rw
        (
          inspect_incoming_frame-opcode (be32 opcode ++ (raw ++ payload)) pending some_bytes,
          opcode_in_front opcode (raw ++ payload) (omega arith),
        )
        (unfold inspect_opcode in rw (request_opcode opcode low high, response_parsed) refl)

-- The response that `buildStatusResponse` builds to one of Synap's thirteen requests is logged under
-- that request's name, with the id, the status and the outcome, and the request waits no longer. The
-- id is one that `normalizeId` accepts.
pub inspect_incoming_frame-build_status_response :
    {id : Value} {raw : List ℕ} {e e₁ : Entropy} (opcode : ℕ) (success : Bool) (pending : Pending)
    → Op.relay ≤ opcode
    → opcode ≤ Op.generate_cid
    → Identifies id e raw e₁
    → (build_status_response opcode id success e >>= λ (frame, _).
        ok (inspect_incoming_frame frame pending))
      ≡ ok (
        record {
          title = opcode_name opcode;
          lines =
              line "opcode" (opcode_name opcode)
              ∷ line "id" (short_hex raw)
              ∷ line "status" (decimal (status_byte success))
              ∷ line "ok" (true_or_false success)
              ∷ [];
        },
        delete (short_hex raw) pending,
      )
inspect_incoming_frame-build_status_response {raw = raw} opcode true pending low high hi =
    rw
      (
        build_status_response-layout opcode true (omega arith) hi,
        response_inspected opcode raw (0x01 ∷ []) pending low high hi.sixteen,
      )
      (unfold status_lines in refl)
inspect_incoming_frame-build_status_response {raw = raw} opcode false pending low high hi =
    rw
      (
        build_status_response-layout opcode false (omega arith) hi,
        response_inspected opcode raw (0x00 ∷ []) pending low high hi.sixteen,
      )
      (unfold status_lines in refl)

-- The response that `buildSuccessDataResponse` builds to one of Synap's thirteen requests is logged
-- under that request's name, with the id and success, and after them the number of bytes and the
-- text of its payload, if it is not empty; and the request waits no longer. Each argument is one that
-- `toUint8Array` accepts, and the id one that `normalizeId` accepts.
pub inspect_incoming_frame-build_success_data_response :
    {id payload : Value} {raw payload' : List ℕ} {e e₁ : Entropy} (opcode : ℕ) (pending : Pending)
    → Op.relay ≤ opcode
    → opcode ≤ Op.generate_cid
    → Identifies id e raw e₁
    → Converts payload payload'
    → 0 < length payload'
    → (build_success_data_response opcode id payload e >>= λ (frame, _).
        ok (inspect_incoming_frame frame pending))
      ≡ ok (
        record {
          title = opcode_name opcode;
          lines =
              line "opcode" (opcode_name opcode)
              ∷ line "id" (short_hex raw)
              ∷ line "status" (decimal 1)
              ∷ line "ok" (literal "true")
              ∷ payload_text_lines "data" payload';
        },
        delete (short_hex raw) pending,
      )
inspect_incoming_frame-build_success_data_response {raw = raw} {payload' = payload'} opcode pending
      low high hi hp nonempty =
    let some_data : leb 1 (length payload') ≡ true = ground arith in
    rw
      (
        build_success_data_response-layout opcode (omega arith) hi hp,
        response_inspected opcode raw (0x01 ∷ payload') pending low high hi.sixteen,
      )
      (unfold status_lines in rw some_data (unfold true_or_false in refl))
