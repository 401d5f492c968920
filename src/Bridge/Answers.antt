-- ===== src/Bridge/Answers.antt =====
-- Who is answered, and by what.
use diarsaba_go.Prelude.{
  ℕ, ◌≡◌, ◌≢◌, refl, ap, sym, ◌∙◌, List, [], ◌∷◌, Option, none, some, true, false, All, ◌==◌,
  Bool-cases, inl, inr, ==_iff,
}
use diarsaba_go.Dispatch.{Ranges, request_id_from_frame, synap_opcode_from_frame, synap_response_id}
use diarsaba_go.Bridge.{
  PendingRequest, http_response, session, SynapBridge, Process, Delivery, to_channel, to_session,
  request_key, drop_session, is_of, without, broadcast, answer, is_event, registered,
  register_pending, remove_pending, pop_pending, remove_session, processed, submitted, submit,
  route_response, route_frame,
}
use diarsaba_go.Prelude.{
  same_key, lookup, delete, lookup-front, same_key_refl, same_key→eq, lookup-delete,
  lookup-delete_other, lookup-delete-none,
}

-- A frame that answers an id goes to the request that is registered under it, which is then gone.
pub route_frame-response :
    (r : Ranges) (response id : List ℕ) (b : SynapBridge)
    → is_event r (synap_opcode_from_frame r response) ≡ false
    → synap_response_id r response ≡ some id
    → route_frame r response b ≡ (
      answer response (lookup (request_key id) b.pending),
      record b { pending = delete (request_key id) b.pending },
    )
unfolding route_frame route_response pop_pending
route_frame-response r response id b no_event found = rw (no_event, found) refl

none-some : (text : List ℕ) → none ≢ some text
none-some text e = cc

pub submit-accepted :
    (process : Process) (p : PendingRequest) (frame : List ℕ) (b : SynapBridge)
    → lookup (request_key (request_id_from_frame frame)) b.pending ≡ none
    → process frame ≡ none
    → submit process p frame b
      ≡ (none, record b { pending = (request_key (request_id_from_frame frame), p) ∷ b.pending })
unfolding submit submitted processed register_pending registered
submit-accepted process p frame b free taken = rw (free, taken) refl

-- A frame for who waits: on the channel of an HTTP request, or to the session.
abbrev pub delivery_to : PendingRequest → List ℕ → Delivery
delivery_to (http_response channel) frame = to_channel channel frame
delivery_to (session s) frame = to_session s frame

answer-delivery_to :
    (frame : List ℕ) (p : PendingRequest) → answer frame (some p) ≡ delivery_to p frame ∷ []
unfolding answer
answer-delivery_to frame (http_response channel) = refl
answer-delivery_to frame (session s) = refl

-- Where no request is registered under a frame's id and the node takes the frame, whoever submits
-- it waits. The first response with this id that is no event is delivered once, on the channel if an
-- HTTP request waits and to the session if a session does, and to nobody else; the same response once
-- more is delivered to nobody.
pub route_frame-submit :
    (r : Ranges) (process : Process) (p : PendingRequest) (frame response id : List ℕ)
    (b : SynapBridge)
    → lookup (request_key (request_id_from_frame frame)) b.pending ≡ none
    → process frame ≡ none
    → is_event r (synap_opcode_from_frame r response) ≡ false
    → synap_response_id r response ≡ some id
    → request_key id ≡ request_key (request_id_from_frame frame)
    → ((submit process p frame b).0 ≡ none)
      × ((route_frame r response (submit process p frame b).1).0 ≡ delivery_to p response ∷ [])
      × ((route_frame r response (route_frame r response (submit process p frame b).1).1).0 ≡ [])
route_frame-submit r process p frame response id b free taken no_event found same =
    let key = request_key (request_id_from_frame frame) in
    let waiting = (key, p) ∷ b.pending in
    let routed = λ (b : SynapBridge). route_frame-response r response id b no_event found in
    let answered : lookup (request_key id) waiting ≡ some p =
      ap (λ k. lookup k waiting) same ∙ lookup-front key p b.pending in
    let gone : lookup (request_key id) (delete (request_key id) waiting) ≡ none =
      lookup-delete (request_key id) waiting in
    rw
      (
        submit-accepted process p frame b free taken,
        routed (record b { pending = waiting }),
        routed (record b { pending = delete (request_key id) waiting }),
        answered,
        gone,
      )
      (refl, answer-delivery_to response p, unfold answer in refl)

-- What a failed registration or a failed call of the node leaves.
pub lookup-processed :
    (own key text : List ℕ) (p : PendingRequest) (b : SynapBridge) (id : List ℕ)
    → request_key id ≡ own
    → lookup own b.pending ≡ none
    → lookup key (processed (some text) id (record b { pending = (own, p) ∷ b.pending })).1.pending
      ≡ lookup key b.pending
unfolding processed remove_pending lookup delete
lookup-processed own key text p b id same free =
    ap (λ k. lookup key (delete k ((own, p) ∷ b.pending))) same
    ∙ rw (same_key_refl own) (elim (Bool-cases (same_key own key)) [
      | inl e ↦
          let k = same_key→eq own key e in
          let absent = ap (λ i. lookup i b.pending) (sym k) ∙ free in
          lookup-delete-none own key b.pending absent ∙ sym absent
      | inr e ↦ lookup-delete_other own key b.pending e
    ])

lookup-submitted :
    (process : Process) (p : PendingRequest) (frame text key : List ℕ) (b : SynapBridge)
    (found : Option PendingRequest) (result : Option (List ℕ))
    → lookup (request_key (request_id_from_frame frame)) b.pending ≡ found
    → process frame ≡ result
    → (submit process p frame b).0 ≡ some text
    → lookup key (submit process p frame b).1.pending ≡ lookup key b.pending
unfolding submit register_pending registered submitted processed
lookup-submitted process p frame text key b (some q) result found done refused = rw found refl
lookup-submitted process p frame text key b none none found done refused =
    absurd (none-some text (rw (found, done) at refused))
lookup-submitted process p frame text key b none (some info) found done refused =
    rw (found, done)
      (lookup-processed (request_key (request_id_from_frame frame)) key info p b
        (request_id_from_frame frame) refl found)

-- A request that is refused leaves every other as it was: where `submit` returns an error frame,
-- each key has the same pending request as before.
pub lookup-submit_refused :
    (process : Process) (p : PendingRequest) (frame text key : List ℕ) (b : SynapBridge)
    → (submit process p frame b).0 ≡ some text
    → lookup key (submit process p frame b).1.pending ≡ lookup key b.pending
lookup-submit_refused process p frame text key b refused =
    lookup-submitted process p frame text key b _ _ refl refl refused

-- A delivery that is not to the session `s`.
abbrev pub IsElsewhere : ℕ → Delivery → Type 0
IsElsewhere s (to_channel channel frame) = Unit {0}
IsElsewhere s (to_session t frame) = t ≢ s

differs : (t s : ℕ) → (t == s) ≡ false → t ≢ s
differs t s e h = absurd (let k : (t == s) ≡ true = (==_iff t s).1 h in cc)

broadcast-IsElsewhere :
    (s : ℕ) (frame : List ℕ) (sessions : List ℕ)
    → All (IsElsewhere s) (broadcast frame (without s sessions))
unfolding broadcast without
broadcast-IsElsewhere s frame [] = tt
broadcast-IsElsewhere s frame (t ∷ rest) = elim (Bool-cases (t == s)) [
  | inl e ↦ rw e (broadcast-IsElsewhere s frame rest)
  | inr e ↦ rw e ((λ h. differs t s e h), broadcast-IsElsewhere s frame rest)
]

answer-IsElsewhere :
    (s : ℕ) (key frame : List ℕ) (l : List (List ℕ × PendingRequest))
    → All (IsElsewhere s) (answer frame (lookup key (drop_session s l)))
unfolding answer lookup drop_session is_of
answer-IsElsewhere s key frame [] = tt
answer-IsElsewhere s key frame ((k, http_response channel) ∷ rest) =
    elim (Bool-cases (same_key k key)) [
      | inl e ↦ rw e (tt, tt)
      | inr e ↦ rw e (answer-IsElsewhere s key frame rest)
    ]
answer-IsElsewhere s key frame ((k, session t) ∷ rest) = elim (Bool-cases (t == s)) [
  | inl e ↦ rw e (answer-IsElsewhere s key frame rest)
  | inr e ↦ elim (Bool-cases (same_key k key)) [
    | inl f ↦ rw (e, f) ((λ h. differs t s e h), tt)
    | inr f ↦ rw (e, f) (answer-IsElsewhere s key frame rest)
  ]
]

routed-IsElsewhere :
    (s : ℕ) (frame : List ℕ) (found : Option (List ℕ)) (b : SynapBridge)
    → All (IsElsewhere s) (route_response found frame (remove_session s b)).0
unfolding route_response remove_session pop_pending
routed-IsElsewhere s frame none b = tt
routed-IsElsewhere s frame (some id) b = answer-IsElsewhere s (request_key id) frame b.pending

-- Once a session has been removed, no frame that is routed is delivered to it.
pub route_frame-remove_session :
    (r : Ranges) (s : ℕ) (frame : List ℕ) (b : SynapBridge)
    → All (IsElsewhere s) (route_frame r frame (remove_session s b)).0
unfolding route_frame remove_session
route_frame-remove_session r s frame b =
    elim (Bool-cases (is_event r (synap_opcode_from_frame r frame))) [
      | inl e ↦ rw e (broadcast-IsElsewhere s frame b.sessions)
      | inr e ↦ rw e (routed-IsElsewhere s frame (synap_response_id r frame) b)
    ]
