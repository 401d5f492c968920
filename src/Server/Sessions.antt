-- ===== src/Server/Sessions.antt =====
-- WebSocket connections of server.go: what a connection leaves behind.
use diarsaba_go.Prelude.{
  ℕ, ◌≡◌, refl, ap, ◌∙◌, List, [], ◌∷◌, true, false, Option, none, some, All, Bool-cases, inl, inr,
  arith,
}
use diarsaba_go.Dispatch.{DispatchTarget, unknown, synap, samsara, classify_frame}
use diarsaba_go.Bridge.{
  PendingRequest, session, SynapBridge, has_session, add_session, remove_session, drop_session,
  is_of, without,
}
use diarsaba_go.Bridge.Invariant.{
  IsConsistent, IsConsistent-submit, IsConsistent-add_session, IsConsistent-remove_session,
  sessions-submit,
}
use diarsaba_go.Server.{
  Packages, State, Message, binary, not_binary, replies, to_target, dispatch_web_socket,
  read_messages, handle_client_web_socket,
}

module _ {S : Type 0} (p : Packages S) (s : ℕ) where
  -- The bridge is consistent, and the session is registered.
  abbrev IsServed : State S → Type 0
  IsServed st = IsConsistent st.bridge × (has_session s st.bridge.sessions ≡ true)

  to_target-IsServed :
      (frame : List ℕ) (error_frame : Option (List ℕ)) (target : DispatchTarget) (st : State S)
      → IsServed st
      → IsServed (to_target p replies (session s) frame error_frame target st).1
  unfolding to_target
  to_target-IsServed frame (some bytes) target st h = h
  to_target-IsServed frame none unknown st h = h
  to_target-IsServed frame none samsara st h = h
  to_target-IsServed frame none synap st h = (
    IsConsistent-submit p.process (session s) frame h.1 h.0,
    ap (has_session s) (sessions-submit p.process (session s) frame st.bridge) ∙ h.1,
  )

  read_messages-IsServed :
      (messages : List Message) (st : State S)
      → IsServed st
      → IsServed (read_messages p s messages st).1
  unfolding read_messages dispatch_web_socket
  read_messages-IsServed [] st h = h
  read_messages-IsServed (not_binary ∷ rest) st h = read_messages-IsServed rest st h
  read_messages-IsServed (binary frame ∷ rest) st h =
      let c = classify_frame p.ranges frame in
      read_messages-IsServed rest
        (to_target p replies (session s) frame c.error_frame c.target st).1
        (to_target-IsServed frame c.error_frame c.target st h)

-- A session that has joined is registered.
has_session-add_session :
    (s : ℕ) (b : SynapBridge) → has_session s (add_session s b).sessions ≡ true
unfolding add_session has_session
has_session-add_session s b = elim (Bool-cases (has_session s b.sessions)) [
  | inl e ↦ rw e e
  | inr e ↦ rw e (ground arith)
]

without-has_session : (s : ℕ) (sessions : List ℕ) → has_session s (without s sessions) ≡ false
unfolding has_session without
without-has_session s [] = refl
without-has_session s (t ∷ rest) = ground (arith, without-has_session s rest)

drop_session-is_of :
    (s : ℕ) (l : List (List ℕ × PendingRequest)) → All (λ e. is_of s e.1 ≡ false) (drop_session s l)
unfolding drop_session
drop_session-is_of s [] = tt
drop_session-is_of s ((k, q) ∷ rest) = elim (Bool-cases (is_of s q)) [
  | inl e ↦ rw e (drop_session-is_of s rest)
  | inr e ↦ rw e (e, drop_session-is_of s rest)
]

-- Whatever a connection sends, with no other connection between its messages, the bridge is consistent
-- after it if it was before, the session is no longer registered, and no pending request is the
-- session's.
pub handle_client_web_socket-IsConsistent :
    {S : Type 0} (p : Packages S) (s : ℕ) (messages : List Message) (st : State S)
    → IsConsistent st.bridge
    → let after = (handle_client_web_socket p s messages st).1.bridge in
      IsConsistent after
      × (has_session s after.sessions ≡ false)
      × All (λ e. is_of s e.1 ≡ false) after.pending
unfolding handle_client_web_socket remove_session
handle_client_web_socket-IsConsistent p s messages st h =
    let joined = record st { bridge = add_session s st.bridge } in
    let read = (read_messages p s messages joined).1 in
    let served =
      read_messages-IsServed p s messages joined
        (IsConsistent-add_session s h, has_session-add_session s st.bridge) in
    (
      (unfold remove_session in IsConsistent-remove_session s served.0),
      without-has_session s read.bridge.sessions,
      drop_session-is_of s read.bridge.pending,
    )
