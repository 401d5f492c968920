-- ===== src/Bridge/Abstract.antt =====
-- The bridge as a map and a set: what its methods do, without the order in which synap_bridge.go's
-- two maps are kept.
use diarsaba_go.Prelude.{
  ℕ, ◌≡◌, refl, ap, sym, ◌∙◌, List, [], ◌∷◌, Bool, true, false, Option, none, some, ◌==◌, ==_iff,
  if◌then◌else◌, Bool-cases, inl, inr, same_key, same_key→eq, lookup, delete, lookup-delete,
  lookup-delete_other, arith,
}
use diarsaba_go.Dispatch.{Ranges, request_id_from_frame, synap_response_id, synap_opcode_from_frame}
use diarsaba_go.Bridge.{
  PendingRequest, SynapBridge, Process, request_key, registered, register_pending, remove_pending,
  pop_pending, drop_session, is_of, has_session, without, add_session, remove_session, is_event,
  processed, submitted, submit, route_response, route_frame, time_out,
}
use diarsaba_go.Bridge.Answers.{lookup-processed}
use diarsaba_go.Bridge.Invariant.{AreDistinct, IsConsistent}

-- Who waits under a key, and which sessions have joined.
pub record Abstract : Type 0 where
  pub waits : List ℕ → Option PendingRequest
  pub joined : ℕ → Bool

abbrev pub view : SynapBridge → Abstract
view b = record { waits = λ key. lookup key b.pending; joined = λ s. has_session s b.sessions }

pub data Method : Type 0 where
  add remove : ℕ → Method
  submits : PendingRequest → List ℕ → Method
  registers : PendingRequest → List ℕ → Method
  removes times_out routes : List ℕ → Method

pub run : Ranges → Process → Method → SynapBridge → SynapBridge
run r process (add s) b = add_session s b
run r process (remove s) b = remove_session s b
run r process (submits p frame) b = (submit process p frame b).1
run r process (registers p key) b = (register_pending key p b).1
run r process (removes key) b = remove_pending key b
run r process (times_out frame) b = (time_out frame b).1
run r process (routes frame) b = (route_frame r frame b).1

-- Nobody waits under the key.
pub released : List ℕ → Abstract → Abstract
released key a = record a { waits = λ k. if same_key key k then none else a.waits k }

pub kept : ℕ → Option PendingRequest → Option PendingRequest
kept s none = none
kept s (some p) = if is_of s p then none else some p

-- A request waits under its key if nobody did and the node takes its frame.
pub waiting :
    List ℕ → PendingRequest → Option PendingRequest → Option (List ℕ) → Abstract → Abstract
waiting key p none none a = record a { waits = λ k. if same_key key k then some p else a.waits k }
waiting key p found refused a = a

pub answered : Option (List ℕ) → Abstract → Abstract
answered none a = a
answered (some id) a = released (request_key id) a

pub specified : Ranges → Process → Method → Abstract → Abstract
specified r process (add s) a = record a { joined = λ t. if s == t then true else a.joined t }
specified r process (remove s) a = record {
  waits = λ k. kept s (a.waits k);
  joined = λ t. if s == t then false else a.joined t;
}
specified r process (submits p frame) a =
    let key = request_key (request_id_from_frame frame) in
    waiting key p (a.waits key) (process frame) a
specified r process (registers p key) a = waiting key p (a.waits key) none a
specified r process (removes key) a = released key a
specified r process (times_out frame) a = released (request_key (request_id_from_frame frame)) a
specified r process (routes frame) a =
    if is_event r (synap_opcode_from_frame r frame)
    then a
    else answered (synap_response_id r frame) a

same_view :
    {a b : Abstract}
    → ((key : List ℕ) → a.waits key ≡ b.waits key)
    → ((s : ℕ) → a.joined s ≡ b.joined s)
    → a ≡ b
same_view w j = λ i. record { waits = λ key. w key i; joined = λ s. j s i }

lookup-deleted :
    (key k : List ℕ) (l : List (List ℕ × PendingRequest))
    → lookup k (delete key l) ≡ (if same_key key k then none else lookup k l)
lookup-deleted key k l = elim (Bool-cases (same_key key k)) [
  | inl e ↦
      rw e (ap (λ j. lookup j (delete key l)) (sym (same_key→eq key k e)) ∙ lookup-delete key l)
  | inr e ↦ rw e (lookup-delete_other key k l e)
]

lookup-dropped :
    (s : ℕ) (k : List ℕ) (l : List (List ℕ × PendingRequest))
    → AreDistinct l
    → lookup k (drop_session s l) ≡ kept s (lookup k l)
unfolding lookup drop_session kept
lookup-dropped s k [] h = refl
lookup-dropped s k ((j, p) ∷ rest) (free, h) = elim (Bool-cases (is_of s p)) [
  | inl e ↦ elim (Bool-cases (same_key j k)) [
    | inl f ↦
        let absent : lookup k rest ≡ none =
          ap (λ i. lookup i rest) (sym (same_key→eq j k f)) ∙ free in
        rw (e, f, e) (lookup-dropped s k rest h ∙ rw absent refl)
    | inr f ↦ rw (e, f) (lookup-dropped s k rest h)
  ]
  | inr e ↦ elim (Bool-cases (same_key j k)) [
    | inl f ↦ rw (e, f, e) refl
    | inr f ↦ rw (e, f) (lookup-dropped s k rest h)
  ]
]

has_session-left :
    (s t : ℕ) (sessions : List ℕ)
    → has_session t (without s sessions) ≡ (if s == t then false else has_session t sessions)
unfolding has_session without
has_session-left s t [] = ground arith
has_session-left s t (u ∷ rest) = ground (arith, has_session-left s t rest)

has_session-joined :
    (s t : ℕ) (b : SynapBridge)
    → has_session t (add_session s b).sessions ≡ (if s == t then true else has_session t b.sessions)
unfolding add_session has_session
has_session-joined s t b = elim (Bool-cases (has_session s b.sessions)) [
  | inl e ↦ elim (Bool-cases (s == t)) [
    | inl f ↦ rw (e, f) (ap (λ i. has_session i b.sessions) (sym ((==_iff s t).0 f)) ∙ e)
    | inr f ↦ rw (e, f) refl
  ]
  | inr e ↦ rw e refl
]

released-view :
    (key : List ℕ) (b : SynapBridge)
    → view (record b { pending = delete key b.pending }) ≡ released key (view b)
unfolding released
released-view key b = same_view (λ k. lookup-deleted key k b.pending) (λ s. refl)

view-registered :
    (process : Process) (p : PendingRequest) (frame id : List ℕ) (b : SynapBridge)
    (found : Option PendingRequest) (refused : Option (List ℕ))
    → lookup (request_key id) b.pending ≡ found
    → process frame ≡ refused
    → view (submitted process frame id (registered found (request_key id) p b)).1
      ≡ waiting (request_key id) p found refused (view b)
unfolding registered submitted waiting
view-registered process p frame id b (some q) refused e f = refl
view-registered process p frame id b none none e f =
    rw f (unfold processed in unfold lookup in refl)
view-registered process p frame id b none (some text) e f = rw f (
    same_view (λ key. lookup-processed (request_key id) key text p b id refl e)
      (λ s. unfold processed in unfold remove_pending in refl))

view-found :
    (key : List ℕ) (p : PendingRequest) (b : SynapBridge) (found : Option PendingRequest)
    → view (registered found key p b).1 ≡ waiting key p found none (view b)
unfolding registered waiting lookup
view-found key p b (some q) = refl
view-found key p b none = refl

view-submit :
    (process : Process) (p : PendingRequest) (frame : List ℕ) (b : SynapBridge)
    → view (submit process p frame b).1 ≡ (
        let key = request_key (request_id_from_frame frame) in
        waiting key p (lookup key b.pending) (process frame) (view b))
unfolding submit register_pending
view-submit process p frame b =
    view-registered process p frame (request_id_from_frame frame) b _ _ refl refl

view-response :
    (id : Option (List ℕ)) (frame : List ℕ) (b : SynapBridge)
    → view (route_response id frame b).1 ≡ answered id (view b)
unfolding route_response pop_pending answered
view-response none frame b = refl
view-response (some id) frame b = released-view (request_key id) b

view-route_frame :
    (r : Ranges) (frame : List ℕ) (b : SynapBridge)
    → view (route_frame r frame b).1 ≡ (
        if is_event r (synap_opcode_from_frame r frame)
        then view b
        else answered (synap_response_id r frame) (view b))
unfolding route_frame
view-route_frame r frame b = elim (Bool-cases (is_event r (synap_opcode_from_frame r frame))) [
  | inl e ↦ rw e refl
  | inr e ↦ rw e (view-response (synap_response_id r frame) frame b)
]

add_session-pending : (s : ℕ) (b : SynapBridge) → (add_session s b).pending ≡ b.pending
unfolding add_session
add_session-pending s b = elim (Bool-cases (has_session s b.sessions)) [
  | inl e ↦ rw e refl
  | inr e ↦ rw e refl
]

-- Seen as a map from ids to who waits and a set of sessions, each method of the bridge does what is
-- specified, from any consistent state: a session joins or leaves with all its requests; a request
-- that registers waits if its id is free, and one that is submitted at a stretch if the node takes its
-- frame as well; and a removal, a timeout, or a response that is no event, ends the wait under its id.
-- Everything else stays as it was.
pub view-run :
    (r : Ranges) (process : Process) (m : Method) (b : SynapBridge)
    → IsConsistent b
    → view (run r process m b) ≡ specified r process m (view b)
unfolding run specified
view-run r process (add s) b h =
    same_view (λ key. ap (lookup key) (add_session-pending s b)) (λ t. has_session-joined s t b)
view-run r process (remove s) b h =
    unfold remove_session in
    same_view (λ key. lookup-dropped s key b.pending h.distinct)
      (λ t. has_session-left s t b.sessions)
view-run r process (submits p frame) b h = view-submit process p frame b
view-run r process (registers p key) b h =
    unfold register_pending in view-found key p b (lookup key b.pending)
view-run r process (removes key) b h = (unfold remove_pending in released-view key b)
view-run r process (times_out frame) b h =
    unfold time_out in
    unfold remove_pending in released-view (request_key (request_id_from_frame frame)) b
view-run r process (routes frame) b h = view-route_frame r frame b
