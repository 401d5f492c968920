-- ===== src/Dispatch/Routing.antt =====
-- Where dispatch.go sends the frames that the cards build, and whose response a frame is.
use diarsaba_go.Prelude.{
  ℕ, ◌/◌, ◌%◌, ◌^◌, ◌≤◌, ◌<◌, ◌≡◌, ◌↔◌, ◌⊎◌, inl, inr, refl, ap, List, [], ◌∷◌, ◌++◌, length,
  get_or, none, some, Bool, true, false, ltb, replicate, ◌==◌, length-append, take-length_append,
  Bool-cases, ltb→lt, ◌≢◌, arith,
}
use diarsaba_go.Js.Result.{ok, ◌>>=◌}
use diarsaba_go.Js.Number.{be32}
use diarsaba_go.Js.Entropy.{Entropy}
use diarsaba_go.Common.Value.{Value, Converts}
use diarsaba_go.Common.Ids.{Identifies}
use diarsaba_go.Synap.Frames.{build_single_payload_request, build_status_response}
use diarsaba_go.Synap.Frames.Single.{build_single_payload_request-layout}
use diarsaba_go.Synap.Frames.Status.{build_status_response-layout}
use diarsaba_go.Dispatch.{
  Ranges, synap, within, request_id_from_frame, classify_frame, classify_opcode,
  synap_opcode_from_frame, response_id_at, synap_response_id,
}
use diarsaba_go.Dispatch.ErrorFrames.{copied-same}
use diarsaba_go.Dispatch.RequestIds.{request_id_from_frame-frame, id_behind}

module _ (opcode : ℕ) (is_byte : opcode < 256) (raw rest : List ℕ) (sixteen : length raw ≡ 16) where
  long_frame : ltb (length (be32 opcode ++ (raw ++ rest))) 20 ≡ false
  long_frame = unfold be32 in ground (arith, length-append raw rest)

  fourth_byte : get_or (be32 opcode ++ (raw ++ rest)) 3 0 ≡ opcode
  unfolding be32
  fourth_byte = omega arith

  pub classified_by_opcode :
      (r : Ranges) → classify_frame r (be32 opcode ++ (raw ++ rest)) ≡ classify_opcode r opcode raw
  unfolding classify_frame
  classified_by_opcode r =
      let four : length (be32 opcode) ≡ 4 = unfold be32 in refl in
      rw (long_frame, fourth_byte, request_id_from_frame-frame (be32 opcode) raw rest four sixteen)
        refl

-- A frame that `buildSinglePayloadRequest` builds with an opcode of Synap's requests is sent to
-- Synap, with its opcode and its id, and no error is reported. Each argument is one that
-- `toUint8Array` accepts, and the id one that `normalizeId` accepts.
pub classify_frame-build_single_payload_request :
    {id payload : Value} {raw payload' : List ℕ} {e e₁ : Entropy} (r : Ranges) (opcode : ℕ)
    → opcode < 256
    → within r.request_min r.request_max opcode ≡ true
    → Identifies id e raw e₁
    → Converts payload payload'
    → (build_single_payload_request opcode payload id e >>= λ (frame, _).
        ok (classify_frame r frame))
      ≡ ok (record { target = synap; opcode = opcode; request_id = raw; error_frame = none })
classify_frame-build_single_payload_request r opcode h w hi hp =
    rw
      (
        build_single_payload_request-layout opcode h hi hp,
        classified_by_opcode opcode h _ _ hi.sixteen r,
      )
      (ap ok (unfold classify_opcode in rw w refl))

long_enough : (n : ℕ) → ltb n 20 ≡ false → 20 ≤ n
long_enough n h = ground arith

opcode_accepted :
    (r : Ranges) (opcode : ℕ) (id : List ℕ)
    → ((classify_opcode r opcode id).error_frame ≡ none) ↔ (
        (within r.request_min r.request_max opcode ≡ true)
        ⊎ (within r.namespace_min r.namespace_max opcode ≡ true))
unfolding classify_opcode
opcode_accepted r opcode id =
    let a = within r.request_min r.request_max opcode in
    let b = within r.namespace_min r.namespace_max opcode in
    elim (Bool-cases a) [
      | inl e ↦ rw e (λ h. inl refl, λ h. refl)
      | inr e ↦ elim (Bool-cases b) [
        | inl f ↦ rw (e, f) (λ h. inr refl, λ h. refl)
        | inr f ↦ rw (e, f) (λ h. cc, λ h. elim h [ inl k ↦ cc | inr k ↦ cc ])
      ]
    ]

-- `classifyFrame` reports no error exactly where the frame has twenty bytes at least and its fourth
-- byte lies in the range of one of the two protocols.
pub classify_frame-error_frame_iff :
    (r : Ranges) (frame : List ℕ)
    → ((classify_frame r frame).error_frame ≡ none) ↔ (
        (20 ≤ length frame)
        × ((within r.request_min r.request_max (get_or frame 3 0) ≡ true)
            ⊎ (within r.namespace_min r.namespace_max (get_or frame 3 0) ≡ true)))
unfolding classify_frame
classify_frame-error_frame_iff r frame =
    let id = request_id_from_frame frame in
    let accepted = opcode_accepted r (get_or frame 3 0) id in
    elim (Bool-cases (ltb (length frame) 20)) [
      | inl e ↦
          rw e (λ h. cc, λ h. absurd (let c : length frame < 20 = ltb→lt _ _ e in omega arith))
      | inr e ↦ rw e (λ h. (long_enough _ e, accepted.0 h), λ h. accepted.1 h.1)
    ]

pub opcode_in_front :
    (r : Ranges) (opcode : ℕ)
    → opcode < 256
    → (raw rest : List ℕ) → within r.request_min r.event_max opcode ≡ true
    → synap_opcode_from_frame r (be32 opcode ++ (raw ++ rest)) ≡ some opcode
unfolding synap_opcode_from_frame be32
opcode_in_front r opcode h raw rest w =
    let low : opcode % 256 ≡ opcode = omega arith in
    let a : opcode / 2 ^ 24 % 256 ≡ 0 = omega arith in
    let b : opcode / 2 ^ 16 % 256 ≡ 0 = omega arith in
    let c : opcode / 2 ^ 8 % 256 ≡ 0 = omega arith in
    let long : ltb (length (be32 opcode ++ (raw ++ rest))) 4 ≡ false = ground arith in
    rw (long, a, b, c, low, w) refl

pub response_id_behind :
    (r : Ranges) (opcode : ℕ)
    → opcode < 256
    → (raw rest : List ℕ) → length raw ≡ 16
    → within r.request_min r.event_max opcode ≡ true
    → synap_response_id r (be32 opcode ++ (raw ++ rest)) ≡ some raw
unfolding synap_response_id
response_id_behind r opcode h raw rest k w =
    let four : length (be32 opcode) ≡ 4 = unfold be32 in refl in
    rw (long_frame opcode h raw rest k, opcode_in_front r opcode h raw rest w)
      (ap some (unfold response_id_at in id_behind (be32 opcode) raw rest four k))

-- The response that `buildStatusResponse` builds, with an opcode between Synap's first request and
-- its last event, is found to answer the request with its id. The id is one that `normalizeId`
-- accepts.
pub synap_response_id-build_status_response :
    {id : Value} {raw : List ℕ} {e e₁ : Entropy} (r : Ranges) (opcode : ℕ) (success : Bool)
    → opcode < 256
    → within r.request_min r.event_max opcode ≡ true
    → Identifies id e raw e₁
    → (build_status_response opcode id success e >>= λ (frame, _). ok (synap_response_id r frame))
      ≡ ok (some raw)
synap_response_id-build_status_response r opcode success h w hi =
    rw (build_status_response-layout opcode success h hi)
      (ap ok (response_id_behind r opcode h _ _ hi.sixteen w))

no_opcode_in_front :
    (r : Ranges) (raw rest : List ℕ)
    → 0 < length raw
    → get_or raw 0 0 ≢ 0
    → synap_opcode_from_frame r (raw ++ rest) ≡ none
unfolding synap_opcode_from_frame
no_opcode_in_front r [] rest h nonzero = absurd (omega arith)
no_opcode_in_front r (b ∷ raw) rest h nonzero =
    elim (Bool-cases (ltb (length (b ∷ (raw ++ rest))) 4)) [
      | inl e ↦ rw e refl
      | inr e ↦ let differs : (b == 0) ≡ false = ground arith in rw (e, differs) refl
    ]

-- A frame that starts with an id of sixteen bytes, the first of which is not zero, and has four
-- bytes more at least, is found to answer the request with that id.
pub synap_response_id-id_first :
    (r : Ranges) (raw rest : List ℕ)
    → length raw ≡ 16
    → 4 ≤ length rest
    → get_or raw 0 0 ≢ 0
    → synap_response_id r (raw ++ rest) ≡ some raw
unfolding synap_response_id response_id_at
synap_response_id-id_first r raw rest h k nonzero =
    let long : ltb (length (raw ++ rest)) 20 ≡ false = ground (arith, length-append raw rest) in
    rw (long, no_opcode_in_front r raw rest (omega (arith, h)) nonzero)
      (ap some (rw (take-length_append 16 raw rest h) (copied-same (replicate 16 0) raw h)))
