-- ===== src/Tests/Bridging.antt =====
-- Requests, responses and sessions of synap_bridge.go.
use diarsaba_go.Prelude.{lookup, ℕ, ◌≡◌, refl, List, [], ◌∷◌, none, some, false, All}
use diarsaba_go.Dispatch.{
  copied, request_id_from_frame, synap_opcode_from_frame, synap_response_id, response_id_at,
  is_synap_event, error_result, node_process_failed,
}
use diarsaba_go.Bridge.{
  SynapBridge, Process, http_response, session, to_channel, new_synap_bridge, is_event, has_session,
  add_session, remove_session, submit, submitted, processed, register_pending, registered,
  dispatch_to_session, route_frame, time_out,
}
use diarsaba_go.Bridge.Answers.{
  IsElsewhere, route_frame-submit, lookup-submit_refused, route_frame-remove_session,
}
use diarsaba_go.Bridge.Invariant.{
  IsConsistent, at_start, after, joins, dispatches, routes, leaves, IsReachable-IsConsistent,
}
use diarsaba_go.Bridge.Timeout.{answered_and_again, route_frame-time_out}
use diarsaba_go.Bridge.Request.{
  Turn, timer, meanwhile, dispatched as dispatched_meanwhile, routed, request,
}
use diarsaba_go.Bridge.Request.Answered.{IsAnswer, request-IsAnswer}
use diarsaba_go.Bridge.Abstract.{remove, view, run, specified, view-run}
use diarsaba_go.Tests.Fixtures.{id_bytes}
use diarsaba_go.Tests.Dispatching.{ranges}

abbrev frame : List ℕ
frame = 0 ∷ 0 ∷ 0 ∷ 13 ∷ id_bytes

abbrev response : List ℕ
response =
    0 ∷ 0 ∷ 0 ∷ 13 ∷ 1 ∷ 2 ∷ 3 ∷ 4 ∷ 5 ∷ 6 ∷ 7 ∷ 8 ∷ 9 ∷ 10 ∷ 11 ∷ 12 ∷ 13 ∷ 14 ∷ 15 ∷ 16 ∷ 1 ∷ []

-- A node that takes every frame, and one that takes none.
abbrev takes_all : Process
takes_all = λ f. none

abbrev takes_none : Process
takes_none = λ f. some (33 ∷ [])

abbrev one_session : SynapBridge
one_session = record { pending = []; sessions = 5 ∷ [] }

no_event : is_event ranges (synap_opcode_from_frame ranges response) ≡ false
unfolding is_event synap_opcode_from_frame is_synap_event
no_event = refl

response_id : synap_response_id ranges response ≡ some id_bytes
unfolding synap_response_id synap_opcode_from_frame response_id_at copied
response_id = refl

request_id : request_id_from_frame frame ≡ id_bytes
unfolding request_id_from_frame copied
request_id = refl

route_frame-submit_example :
    ((submit takes_all (http_response 7) frame one_session).0 ≡ none)
    × ((route_frame ranges response (submit takes_all (http_response 7) frame one_session).1).0
        ≡ to_channel 7 response ∷ [])
    × ((route_frame ranges response
          (route_frame ranges response
            (submit takes_all (http_response 7) frame one_session).1).1).0
        ≡ [])
route_frame-submit_example =
    route_frame-submit ranges takes_all (http_response 7) frame response id_bytes one_session
      (unfold lookup in refl) refl no_event response_id
      (unfold request_id_from_frame copied in refl)

lookup-submit_refused_example :
    lookup id_bytes (submit takes_none (session 5) frame one_session).1.pending
    ≡ lookup id_bytes one_session.pending
lookup-submit_refused_example =
    lookup-submit_refused takes_none (session 5) frame
      (error_result id_bytes node_process_failed (33 ∷ [])) id_bytes one_session
      (unfold submit submitted processed register_pending registered lookup request_id_from_frame
          copied in
        refl)

route_frame-remove_session_example :
    All
      (IsElsewhere 5)
      (route_frame ranges response
        (remove_session 5 (dispatch_to_session takes_all 5 frame one_session).1)).0
route_frame-remove_session_example =
    route_frame-remove_session ranges 5 response
      (dispatch_to_session takes_all 5 frame one_session).1

-- A session joins, dispatches, is answered, and leaves.
IsReachable-IsConsistent_example : IsConsistent (
    remove_session 5
      (route_frame ranges response
        (dispatch_to_session takes_all 5 frame (add_session 5 new_synap_bridge)).1).1)
IsReachable-IsConsistent_example = IsReachable-IsConsistent (
    after
      (after
        (after (after at_start (joins 5)) (
          dispatches 5 frame {b = add_session 5 new_synap_bridge}
            (unfold add_session has_session in refl)))
        (routes response))
      (leaves 5))

route_frame-time_out_example :
    ((answered_and_again ranges takes_all
        (http_response 7)
        (session 5)
        frame
        frame
        response
        one_session).0
      ≡ none)
    × ((route_frame ranges response
          (time_out frame
            (answered_and_again ranges takes_all
              (http_response 7)
              (session 5)
              frame
              frame
              response
              one_session).1).1).0
        ≡ [])
route_frame-time_out_example =
    route_frame-time_out ranges takes_all (http_response 7) (session 5) frame frame response
      id_bytes one_session (unfold lookup in refl) refl refl no_event response_id
      (unfold request_id_from_frame copied in refl) refl

-- A session dispatches under another id while the request waits, and its response comes before the
-- timer fires.
abbrev turns : List Turn
turns =
    meanwhile (dispatched_meanwhile 5 (0 ∷ 0 ∷ 0 ∷ 3 ∷ []))
    ∷ meanwhile (routed response)
    ∷ timer
    ∷ []

request-IsAnswer_example :
    (bytes : List ℕ) × ((request ranges takes_all 7 frame turns one_session).0 ≡ some bytes)
    × IsAnswer ranges frame bytes
request-IsAnswer_example =
    request-IsAnswer ranges takes_all 7 frame turns one_session (tt, (tt, tt)) refl tt

view-run_example :
    view (run ranges takes_all (remove 5) one_session)
    ≡ specified ranges takes_all (remove 5) (view one_session)
view-run_example =
    view-run ranges takes_all (remove 5) one_session (record { distinct = tt; connected = tt })
