-- ===== src/Bridge/Invariant.antt =====
-- What holds of the bridge after any sequence of its methods.
use diarsaba_go.Prelude.{
  ℕ, ◌≡◌, refl, List, [], ◌∷◌, Option, none, some, true, false, All, ◌==◌, Bool-cases, inl, inr,
  arith,
}
use diarsaba_go.Dispatch.{Ranges, request_id_from_frame, synap_opcode_from_frame, synap_response_id}
use diarsaba_go.Bridge.{
  PendingRequest, http_response, session, SynapBridge, Process, new_synap_bridge, request_key,
  drop_session, is_of, has_session, without, is_event, registered, register_pending, remove_pending,
  pop_pending, add_session, remove_session, processed, submitted, submit, dispatch_to_session,
  begin_request, route_response, route_frame, time_out,
}
use diarsaba_go.Prelude.{same_key, lookup, delete, lookup-delete-none}
use diarsaba_go.Bridge.Pending.{lookup-drop_session-none}

abbrev pub IsConnected : List ℕ → PendingRequest → Type 0
IsConnected sessions (http_response channel) = Unit {0}
IsConnected sessions (session s) = has_session s sessions ≡ true

-- One method of the bridge. A session dispatches between its registration and its removal; the two
-- halves of an HTTP request are steps of their own, between which others may come. So are the two
-- times that a request takes the lock before it waits, `registers` and `removes`: while the node
-- processes its frame the lock is free. `dispatches` and `requests` are the runs without such a gap.
pub data Step (r : Ranges) (process : Process) : SynapBridge → SynapBridge → Type 0 where
  joins : (s : ℕ) {b : SynapBridge} → Step r process b (add_session s b)
  leaves : (s : ℕ) {b : SynapBridge} → Step r process b (remove_session s b)
  dispatches :
      (s : ℕ) (frame : List ℕ) {b : SynapBridge}
      → has_session s b.sessions ≡ true
      → Step r process b (dispatch_to_session process s frame b).1
  requests :
      (channel : ℕ) (frame : List ℕ) {b : SynapBridge}
      → Step r process b (begin_request process channel frame b).1
  registers :
      (key : List ℕ) (p : PendingRequest) {b : SynapBridge}
      → IsConnected b.sessions p
      → Step r process b (register_pending key p b).1
  removes : (key : List ℕ) {b : SynapBridge} → Step r process b (remove_pending key b)
  times_out : (frame : List ℕ) {b : SynapBridge} → Step r process b (time_out frame b).1
  routes : (frame : List ℕ) {b : SynapBridge} → Step r process b (route_frame r frame b).1

pub data IsReachable (r : Ranges) (process : Process) : SynapBridge → Type 0 where
  at_start : IsReachable r process new_synap_bridge
  after :
      {b b' : SynapBridge}
      → IsReachable r process b
      → Step r process b b'
      → IsReachable r process b'

-- No two entries have the same key.
abbrev pub AreDistinct : List (List ℕ × PendingRequest) → Type 0
AreDistinct [] = Unit {0}
AreDistinct ((key, p) ∷ rest) = (lookup key rest ≡ none) × AreDistinct rest

-- The keys are distinct, and every session that waits is one of the sessions.
pub record IsConsistent (b : SynapBridge) : Type 0 where
  pub distinct : AreDistinct b.pending
  pub connected : All (λ e. IsConnected b.sessions e.1) b.pending

AreDistinct-delete :
    (key : List ℕ) (l : List (List ℕ × PendingRequest)) → AreDistinct l → AreDistinct (delete key l)
unfolding delete
AreDistinct-delete key [] h = tt
AreDistinct-delete key ((k, p) ∷ rest) (free, h) = elim (Bool-cases (same_key k key)) [
  | inl e ↦ rw e (AreDistinct-delete key rest h)
  | inr e ↦ rw e (lookup-delete-none key k rest free, AreDistinct-delete key rest h)
]

AreDistinct-drop_session :
    (s : ℕ) (l : List (List ℕ × PendingRequest)) → AreDistinct l → AreDistinct (drop_session s l)
unfolding drop_session
AreDistinct-drop_session s [] h = tt
AreDistinct-drop_session s ((k, p) ∷ rest) (free, h) = elim (Bool-cases (is_of s p)) [
  | inl e ↦ rw e (AreDistinct-drop_session s rest h)
  | inr e ↦ rw e (lookup-drop_session-none s k rest free, AreDistinct-drop_session s rest h)
]

module _ {ℓ} (P : List ℕ × PendingRequest → Type ℓ) where
  pub All-delete :
      (key : List ℕ) (l : List (List ℕ × PendingRequest)) → All P l → All P (delete key l)
  unfolding delete
  All-delete key [] h = h
  All-delete key ((k, p) ∷ rest) h = elim (Bool-cases (same_key k key)) [
    | inl e ↦ rw e (All-delete key rest h.1)
    | inr e ↦ rw e (h.0, All-delete key rest h.1)
  ]

-- Another session's removal does not disconnect a session.
has_session-without :
    (s t : ℕ) (sessions : List ℕ)
    → (t == s) ≡ false
    → has_session t sessions ≡ true
    → has_session t (without s sessions) ≡ true
unfolding has_session without
has_session-without s t [] d h = h
has_session-without s t (u ∷ rest) d h = ground (arith, has_session-without s t rest d)

IsConnected-drop_session :
    (s : ℕ) (sessions : List ℕ) (l : List (List ℕ × PendingRequest))
    → All (λ e. IsConnected sessions e.1) l
    → All (λ e. IsConnected (without s sessions) e.1) (drop_session s l)
unfolding drop_session is_of
IsConnected-drop_session s sessions [] h = tt
IsConnected-drop_session s sessions ((k, http_response channel) ∷ rest) (h, t) =
    (tt, IsConnected-drop_session s sessions rest t)
IsConnected-drop_session s sessions ((k, session u) ∷ rest) (h, t) = elim (Bool-cases (u == s)) [
  | inl e ↦ rw e (IsConnected-drop_session s sessions rest t)
  | inr e ↦ rw e (has_session-without s u sessions e h, IsConnected-drop_session s sessions rest t)
]

pub IsConsistent-remove_session :
    {b : SynapBridge} (s : ℕ) → IsConsistent b → IsConsistent (remove_session s b)
unfolding remove_session
IsConsistent-remove_session {b} s v = record {
  distinct = AreDistinct-drop_session s b.pending v.distinct;
  connected = IsConnected-drop_session s b.sessions b.pending v.connected;
}

-- A session more leaves the others connected.
IsConnected-add :
    (s : ℕ) (sessions : List ℕ) (l : List (List ℕ × PendingRequest))
    → All (λ e. IsConnected sessions e.1) l
    → All (λ e. IsConnected (s ∷ sessions) e.1) l
unfolding has_session
IsConnected-add s sessions [] h = tt
IsConnected-add s sessions ((k, http_response channel) ∷ rest) (h, t) =
    (tt, IsConnected-add s sessions rest t)
IsConnected-add s sessions ((k, session u) ∷ rest) (h, t) =
    (ground arith, IsConnected-add s sessions rest t)

pub IsConsistent-add_session :
    {b : SynapBridge} (s : ℕ) → IsConsistent b → IsConsistent (add_session s b)
unfolding add_session
IsConsistent-add_session {b} s v = elim (Bool-cases (has_session s b.sessions)) [
  | inl e ↦ rw e v
  | inr e ↦ rw e (record {
    distinct = v.distinct;
    connected = IsConnected-add s b.sessions b.pending v.connected;
  })
]

IsConsistent-delete :
    {b : SynapBridge} (key : List ℕ)
    → IsConsistent b
    → IsConsistent (record b { pending = delete key b.pending })
IsConsistent-delete {b} key v = record {
  distinct = AreDistinct-delete key b.pending v.distinct;
  connected = All-delete (λ e. IsConnected b.sessions e.1) key b.pending v.connected;
}

IsConsistent-processed :
    {b : SynapBridge} (result : Option (List ℕ)) (id : List ℕ)
    → IsConsistent b
    → IsConsistent (processed result id b).1
unfolding processed remove_pending
IsConsistent-processed none id v = v
IsConsistent-processed (some text) id v = IsConsistent-delete (request_key id) v

IsConsistent-found :
    {b : SynapBridge} (key : List ℕ) (p : PendingRequest) (found : Option PendingRequest)
    → lookup key b.pending ≡ found
    → IsConnected b.sessions p
    → IsConsistent b
    → IsConsistent (registered found key p b).1
unfolding registered
IsConsistent-found key p (some q) e c v = v
IsConsistent-found key p none e c v = record {
  distinct = (e, v.distinct);
  connected = (c, v.connected);
}

IsConsistent-registered :
    {b : SynapBridge} (process : Process) (frame id : List ℕ) (p : PendingRequest)
    (found : Option PendingRequest)
    → lookup (request_key id) b.pending ≡ found
    → IsConnected b.sessions p
    → IsConsistent b
    → IsConsistent (submitted process frame id (registered found (request_key id) p b)).1
unfolding registered submitted
IsConsistent-registered process frame id p (some q) e c v = v
IsConsistent-registered process frame id p none e c v =
    IsConsistent-processed (process frame) id
      (unfold registered in IsConsistent-found (request_key id) p none e c v)

pub IsConsistent-submit :
    {b : SynapBridge} (process : Process) (p : PendingRequest) (frame : List ℕ)
    → IsConnected b.sessions p
    → IsConsistent b
    → IsConsistent (submit process p frame b).1
unfolding submit register_pending
IsConsistent-submit process p frame c v =
    IsConsistent-registered process frame (request_id_from_frame frame) p _ refl c v

sessions-processed :
    (result : Option (List ℕ)) (id : List ℕ) (b : SynapBridge)
    → (processed result id b).1.sessions ≡ b.sessions
unfolding processed remove_pending
sessions-processed none id b = refl
sessions-processed (some text) id b = refl

sessions-submitted :
    (process : Process) (frame id : List ℕ) (p : PendingRequest) (b : SynapBridge)
    (found : Option PendingRequest)
    → (submitted process frame id (registered found (request_key id) p b)).1.sessions ≡ b.sessions
unfolding submitted registered
sessions-submitted process frame id p b (some q) = refl
sessions-submitted process frame id p b none =
    sessions-processed (process frame) id (record b { pending = (request_key id, p) ∷ b.pending })

-- The sessions are the same after a request.
pub sessions-submit :
    (process : Process) (p : PendingRequest) (frame : List ℕ) (b : SynapBridge)
    → (submit process p frame b).1.sessions ≡ b.sessions
unfolding submit register_pending
sessions-submit process p frame b =
    let id = request_id_from_frame frame in
    sessions-submitted process frame id p b (lookup (request_key id) b.pending)

IsConsistent-response :
    {b : SynapBridge} (found : Option (List ℕ)) (frame : List ℕ)
    → IsConsistent b
    → IsConsistent (route_response found frame b).1
unfolding route_response pop_pending
IsConsistent-response none frame v = v
IsConsistent-response (some id) frame v = IsConsistent-delete (request_key id) v

IsConsistent-route_frame :
    {b : SynapBridge} (r : Ranges) (frame : List ℕ)
    → IsConsistent b
    → IsConsistent (route_frame r frame b).1
unfolding route_frame
IsConsistent-route_frame {b} r frame v =
    elim (Bool-cases (is_event r (synap_opcode_from_frame r frame))) [
      | inl e ↦ rw e v
      | inr e ↦ rw e (IsConsistent-response (synap_response_id r frame) frame v)
    ]

-- Every method of the bridge keeps its state consistent.
pub Step-IsConsistent :
    {r : Ranges} {process : Process} {b b' : SynapBridge}
    → Step r process b b'
    → IsConsistent b
    → IsConsistent b'
unfolding time_out remove_pending register_pending
Step-IsConsistent (joins s) v = IsConsistent-add_session s v
Step-IsConsistent (leaves s) v = IsConsistent-remove_session s v
Step-IsConsistent {process = process} (dispatches s frame here) v =
    IsConsistent-submit process (session s) frame here v
Step-IsConsistent {process = process} (requests channel frame) v =
    IsConsistent-submit process (http_response channel) frame tt v
Step-IsConsistent {b = b} (registers key p c) v =
    IsConsistent-found key p (lookup key b.pending) refl c v
Step-IsConsistent (removes key) v = IsConsistent-delete key v
Step-IsConsistent (times_out frame) v =
    IsConsistent-delete (request_key (request_id_from_frame frame)) v
Step-IsConsistent {r = r} (routes frame) v = IsConsistent-route_frame r frame v

-- After any sequence of the bridge's methods from its start, where a session dispatches only while
-- it is registered, and whatever comes between a request's registration and its removal where the
-- node refuses its frame, no id has two pending requests, and every session that waits for a response is
-- one of the registered sessions.
pub IsReachable-IsConsistent :
    {r : Ranges} {process : Process} {b : SynapBridge} → IsReachable r process b → IsConsistent b
IsReachable-IsConsistent at_start = record { distinct = tt; connected = tt }
IsReachable-IsConsistent (after before step) =
    Step-IsConsistent step (IsReachable-IsConsistent before)
