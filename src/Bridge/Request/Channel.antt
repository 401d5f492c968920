-- ===== src/Bridge/Request/Channel.antt =====
-- The channel of an HTTP request in the bridge: whoever else comes, it waits under its own key, and
-- what comes on it answers that key.
use diarsaba_go.Prelude.{
  ℕ, ◌≡◌, ◌≢◌, inl, inr, refl, ap, sym, ◌∙◌, List, [], ◌∷◌, Option, none, some, All, ◌==◌, ==_iff,
  Bool-cases, same_key, same_key→eq, lookup,
}
use mathlib.Core.Path.{subst}
use diarsaba_go.Dispatch.{Ranges, request_id_from_frame, synap_response_id, synap_opcode_from_frame}
use diarsaba_go.Bridge.{
  PendingRequest, http_response, session, SynapBridge, Process, request_key, registered,
  register_pending, remove_pending, pop_pending, drop_session, is_of, has_session, add_session,
  remove_session, broadcast, answer, is_event, processed, submitted, submit, route_response,
  route_frame, time_out,
}
use diarsaba_go.Bridge.Invariant.{All-delete}
use diarsaba_go.Bridge.Request.{
  Event, routed, expired, joined, left, dispatched, requested, entered, happens, received,
}

-- Other requests have channels of their own.
abbrev pub IsApart : ℕ → Event → Type 0
IsApart channel (requested c frame) = c ≢ channel
IsApart channel (entered (http_response c) frame) = c ≢ channel
IsApart channel event = Unit {0}

-- Where an entry is found, what holds of every entry holds of it.
lookup-All :
    (P : List ℕ × PendingRequest → Type 0) (key : List ℕ) (q : PendingRequest)
    (l : List (List ℕ × PendingRequest))
    → All P l
    → lookup key l ≡ some q
    → P (key, q)
unfolding lookup
lookup-All P key q [] h e = cc
lookup-All P key q ((k, p) ∷ rest) h e = elim (Bool-cases (same_key k key)) [
  | inl f ↦
      let found : some p ≡ some q = rw f at e in
      let same_entry : (k, p) ≡ (key, q) =
        (let a = same_key→eq k key f in let b : p ≡ q = cc in cc) in
      subst P same_entry h.0
  | inr f ↦ lookup-All P key q rest h.1 (rw f at e)
]

All-drop_session :
    (P : List ℕ × PendingRequest → Type 0) (s : ℕ) (l : List (List ℕ × PendingRequest))
    → All P l
    → All P (drop_session s l)
unfolding drop_session
All-drop_session P s [] h = h
All-drop_session P s ((k, p) ∷ rest) h = elim (Bool-cases (is_of s p)) [
  | inl e ↦ rw e (All-drop_session P s rest h.1)
  | inr e ↦ rw e (h.0, All-drop_session P s rest h.1)
]

module _ (r : Ranges) (process : Process) (channel : ℕ) (key : List ℕ) where
  -- The channel waits under the key only.
  abbrev pub Owns : List ℕ × PendingRequest → Type 0
  Owns e = e.1 ≡ http_response channel → e.0 ≡ key

  processed-Owns :
      (result : Option (List ℕ)) (id : List ℕ) (b : SynapBridge)
      → All Owns b.pending
      → All Owns (processed result id b).1.pending
  unfolding processed remove_pending
  processed-Owns none id b h = h
  processed-Owns (some text) id b h = All-delete Owns (request_key id) b.pending h

  registered-Owns :
      (p : PendingRequest) (frame id : List ℕ) (b : SynapBridge) (found : Option PendingRequest)
      → Owns (request_key id, p)
      → All Owns b.pending
      → All Owns (submitted process frame id (registered found (request_key id) p b)).1.pending
  unfolding submitted registered
  registered-Owns p frame id b (some q) own h = h
  registered-Owns p frame id b none own h =
      processed-Owns (process frame) id (record b { pending = (request_key id, p) ∷ b.pending })
        (own, h)

  found-Owns :
      (p : PendingRequest) (id : List ℕ) (b : SynapBridge) (found : Option PendingRequest)
      → Owns (id, p)
      → All Owns b.pending
      → All Owns (registered found id p b).1.pending
  unfolding registered
  found-Owns p id b (some q) own h = h
  found-Owns p id b none own h = (own, h)

  pub submit-Owns :
      (p : PendingRequest) (frame : List ℕ) (b : SynapBridge)
      → Owns (request_key (request_id_from_frame frame), p)
      → All Owns b.pending
      → All Owns (submit process p frame b).1.pending
  unfolding submit register_pending
  submit-Owns p frame b own h =
      let id = request_id_from_frame frame in
      registered-Owns p frame id b (lookup (request_key id) b.pending) own h

  response-Owns :
      (id : Option (List ℕ)) (frame : List ℕ) (b : SynapBridge)
      → All Owns b.pending
      → All Owns (route_response id frame b).1.pending
  unfolding route_response pop_pending
  response-Owns none frame b h = h
  response-Owns (some id) frame b h = All-delete Owns (request_key id) b.pending h

  route_frame-Owns :
      (frame : List ℕ) (b : SynapBridge)
      → All Owns b.pending
      → All Owns (route_frame r frame b).1.pending
  unfolding route_frame
  route_frame-Owns frame b h = elim (Bool-cases (is_event r (synap_opcode_from_frame r frame))) [
    | inl e ↦ rw e h
    | inr e ↦ rw e (response-Owns (synap_response_id r frame) frame b h)
  ]

  add_session-pending : (s : ℕ) (b : SynapBridge) → (add_session s b).pending ≡ b.pending
  unfolding add_session
  add_session-pending s b = elim (Bool-cases (has_session s b.sessions)) [
    | inl e ↦ rw e refl
    | inr e ↦ rw e refl
  ]

  pub happens-Owns :
      (event : Event) (b : SynapBridge)
      → IsApart channel event
      → All Owns b.pending
      → All Owns (happens r process event b).1.pending
  unfolding happens time_out remove_pending remove_session register_pending
  happens-Owns (routed frame) b apart h = route_frame-Owns frame b h
  happens-Owns (expired frame) b apart h =
      All-delete Owns (request_key (request_id_from_frame frame)) b.pending h
  happens-Owns (joined s) b apart h = rw (add_session-pending s b) h
  happens-Owns (left s) b apart h = All-drop_session Owns s b.pending h
  happens-Owns (dispatched s frame) b apart h = submit-Owns (session s) frame b (λ e. cc) h
  happens-Owns (requested c frame) b apart h =
      submit-Owns (http_response c) frame b
        (λ e. absurd (apart (let same : c ≡ channel = cc in same))) h
  happens-Owns (entered (session s) frame) b apart h =
      let id = request_id_from_frame frame in
      found-Owns (session s) (request_key id) b (lookup (request_key id) b.pending) (λ e. cc) h
  happens-Owns (entered (http_response c) frame) b apart h =
      let id = request_id_from_frame frame in
      found-Owns (http_response c) (request_key id) b (lookup (request_key id) b.pending)
        (λ e. absurd (apart (let same : c ≡ channel = cc in same))) h

  -- Events go to no channel.
  received-broadcast :
      (frame : List ℕ) (sessions : List ℕ) → received channel (broadcast frame sessions) ≡ none
  unfolding received broadcast
  received-broadcast frame [] = refl
  received-broadcast frame (s ∷ rest) = received-broadcast frame rest

  -- What comes on the channel answers the key.
  received-answer :
      (bytes text : List ℕ) (found : Option PendingRequest)
      → received channel (answer bytes found) ≡ some text
      → (found ≡ some (http_response channel)) × (bytes ≡ text)
  unfolding received answer
  received-answer bytes text none h = cc
  received-answer bytes text (some (session s)) h = cc
  received-answer bytes text (some (http_response c)) h = elim (Bool-cases (c == channel)) [
    | inl e ↦
        let same = (==_iff c channel).0 e in
        let received_here : some bytes ≡ some text = rw e at h in (cc, cc)
    | inr e ↦ let nothing : none ≡ some text = rw e at h in cc
  ]

  received-response :
      (bytes text : List ℕ) (id : Option (List ℕ)) (b : SynapBridge)
      → All Owns b.pending
      → synap_response_id r bytes ≡ id
      → received channel (route_response id bytes b).0 ≡ some text
      → (own : List ℕ) × (synap_response_id r text ≡ some own) × (request_key own ≡ key)
  unfolding route_response pop_pending received
  received-response bytes text none b own e h = cc
  received-response bytes text (some id) b own e h =
      let (found, same) = received-answer bytes text (lookup (request_key id) b.pending) h in
      (
        id,
        ap (synap_response_id r) (sym same) ∙ e,
        lookup-All Owns (request_key id) (http_response channel) b.pending own found refl,
      )

  received-route_frame :
      (bytes text : List ℕ) (b : SynapBridge)
      → All Owns b.pending
      → received channel (route_frame r bytes b).0 ≡ some text
      → (own : List ℕ) × (synap_response_id r text ≡ some own) × (request_key own ≡ key)
  unfolding route_frame
  received-route_frame bytes text b own h =
      elim (Bool-cases (is_event r (synap_opcode_from_frame r bytes))) [
        | inl e ↦
            let nothing : none ≡ some text =
              sym (received-broadcast bytes b.sessions) ∙ (rw e at h) in
            cc
        | inr e ↦ received-response bytes text (synap_response_id r bytes) b own refl (rw e at h)
      ]

  pub received-happens :
      (event : Event) (text : List ℕ) (b : SynapBridge)
      → All Owns b.pending
      → received channel (happens r process event b).0 ≡ some text
      → (own : List ℕ) × (synap_response_id r text ≡ some own) × (request_key own ≡ key)
  unfolding happens received
  received-happens (routed frame) text b own h = received-route_frame frame text b own h
  received-happens (expired frame) text b own h = cc
  received-happens (joined s) text b own h = cc
  received-happens (left s) text b own h = cc
  received-happens (dispatched s frame) text b own h = cc
  received-happens (requested c frame) text b own h = cc
  received-happens (entered p frame) text b own h = cc
