-- ===== src/Server/EndToEnd.antt =====
-- A card of cards/index.html, the dispatcher and the bridge of the Go program, and the page's log,
-- over one WebSocket connection.
use diarsaba_go.Prelude.{
  ℕ, ◌≡◌, refl, ap, sym, ◌∙◌, List, [], ◌∷◌, ◌++◌, length, true, false, none, some, lookup,
  lookup-put, lookup-delete, arith,
}
use diarsaba_go.Js.Number.{be32}
use diarsaba_go.Js.Entropy.{Entropy}
use diarsaba_go.Dispatch.{within, synap_opcode_from_frame, is_synap_event, request_id_from_frame}
use diarsaba_go.Dispatch.ErrorFrames.{normalize_id-same}
use diarsaba_go.Dispatch.RequestIds.{request_id_from_frame-frame}
use diarsaba_go.Dispatch.Routing.{opcode_in_front, response_id_behind}
use diarsaba_go.Bridge.{session, to_session, request_key, is_event, submit, route_frame}
use diarsaba_go.Bridge.Answers.{route_frame-submit}
use diarsaba_go.Page.Op
use diarsaba_go.Page.Inspect.{inspected}
use diarsaba_go.Page.{Pending, short_hex, opcode_name, remember_pending, consume_pending}
use diarsaba_go.Page.Frames.{inspect_incoming_frame}
use diarsaba_go.Page.SynapAnswers.{response_inspected}
use diarsaba_go.Page.Cards.{SynapCard, synap_opcode, synap_payload, build_synap_frame}
use diarsaba_go.Page.Cards.Concat.{build_request_frame-append}
use diarsaba_go.Page.Cards.Synap.{opcode_small, opcode_is_request, classify_frame-build_synap_frame}
use diarsaba_go.Server.{Packages, State, replies, to_target, dispatch_web_socket}

module _ {S : Type 0} (p : Packages S) (s : ℕ) where
  dispatch_web_socket-build_synap_frame :
      (card : SynapCard) (id : List ℕ) (st : State S)
      → length id ≡ 16
      → within p.ranges.request_min p.ranges.request_max (synap_opcode card) ≡ true
      → let (refused, bridge') =
          submit p.process (session s) (build_synap_frame card id) st.bridge in
        dispatch_web_socket p s (build_synap_frame card id) st
        ≡ (replies refused, record st { bridge = bridge' })
  unfolding dispatch_web_socket
  dispatch_web_socket-build_synap_frame card id st h w =
      rw (classify_frame-build_synap_frame p.ranges card id h w) (unfold to_target in refl)

  -- A Synap card's frame is taken, the node's response to it is delivered to the session that sent
  -- it, and the page logs the response under the name of the card's opcode, as the one that it waits for, and no
  -- longer waits. The frame's id has sixteen bytes and is not in use, the node takes the frame, the
  -- ranges of the protocol's package hold the card's opcode among the requests and not among the
  -- events, and the response starts with the card's opcode and the id.
  pub dispatch_web_socket-inspect_incoming_frame :
      (card : SynapCard) (id payload : List ℕ) (st : State S) (pending : Pending)
      → length id ≡ 16
      → within p.ranges.request_min p.ranges.request_max (synap_opcode card) ≡ true
      → within p.ranges.request_min p.ranges.event_max (synap_opcode card) ≡ true
      → is_synap_event p.ranges (synap_opcode card) ≡ false
      → lookup id st.bridge.pending ≡ none
      → p.process (build_synap_frame card id) ≡ none
      → let (reply, st') = dispatch_web_socket p s (build_synap_frame card id) st in
        let response = be32 (synap_opcode card) ++ (id ++ payload) in
        let waiting = remember_pending id (synap_opcode card) pending in
        let (inspected, pending') = inspect_incoming_frame response waiting in
        (reply ≡ replies none)
        × ((route_frame p.ranges response st'.bridge).0 ≡ to_session s response ∷ [])
        × (inspected.title ≡ opcode_name (synap_opcode card))
        × ((consume_pending id waiting).0 ≡ some (synap_opcode card))
        × ((consume_pending id pending').0 ≡ none)
  dispatch_web_socket-inspect_incoming_frame card id payload st pending h w w' no_event free taken =
      let opcode = synap_opcode card in
      let small = opcode_small card in
      let (low, high) = opcode_is_request card in
      let response = be32 opcode ++ (id ++ payload) in
      let frame = build_synap_frame card id in
      let four : length (be32 opcode) ≡ 4 = unfold be32 in refl in
      let laid_out : frame ≡ be32 opcode ++ (id ++ synap_payload card) =
        unfold build_synap_frame in
        build_request_frame-append opcode id (synap_payload card) (omega (arith, small)) in
      let frame_id : request_id_from_frame frame ≡ id =
        ap request_id_from_frame laid_out
        ∙ request_id_from_frame-frame (be32 opcode) id (synap_payload card) four h in
      let own_key : request_key id ≡ id = normalize_id-same id h in
      let key : request_key (request_id_from_frame frame) ≡ id =
        ap request_key frame_id ∙ own_key in
      let quiet : is_event p.ranges (synap_opcode_from_frame p.ranges response) ≡ false =
        rw (opcode_in_front p.ranges opcode small id payload w') (unfold is_event in no_event) in
      let delivered =
        route_frame-submit p.ranges p.process (session s) frame response id st.bridge
          (ap (λ k. lookup k st.bridge.pending) key ∙ free) taken quiet
          (response_id_behind p.ranges opcode small id payload h w') (own_key ∙ sym key) in
      rw
        (
          dispatch_web_socket-build_synap_frame card id st h w,
          response_inspected opcode id payload (remember_pending id opcode pending) low high h,
        )
        (
          ap replies delivered.0,
          delivered.1,
          refl,
          (unfold consume_pending in
              unfold remember_pending in lookup-put (short_hex id) opcode pending),
          (unfold consume_pending in
              lookup-delete (short_hex id) (remember_pending id opcode pending)),
        )
