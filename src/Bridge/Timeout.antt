-- ===== src/Bridge/Timeout.antt =====
-- A timeout of synap_bridge.go's `Request` that comes after the response.
use diarsaba_go.Prelude.{ℕ, ◌≡◌, refl, ap, sym, ◌∙◌, List, [], ◌∷◌, Option, none, some, false}
use diarsaba_go.Dispatch.{Ranges, request_id_from_frame, synap_opcode_from_frame, synap_response_id}
use diarsaba_go.Bridge.{
  PendingRequest, SynapBridge, Process, request_key, answer, is_event, remove_pending, submit,
  route_frame, time_out,
}
use diarsaba_go.Prelude.{lookup, delete, lookup-delete}
use diarsaba_go.Bridge.Answers.{route_frame-response, submit-accepted}

-- The state after a request, its response, and another request.
pub answered_and_again :
    Ranges
    → Process
    → PendingRequest
    → PendingRequest
    → List ℕ
    → List ℕ
    → List ℕ
    → SynapBridge
    → Option (List ℕ) × SynapBridge
answered_and_again r process p q frame again response b =
    submit process q again (route_frame r response (submit process p frame b).1).1

-- Where a request has been answered, and a second one under the same id waits, the first one's
-- timeout takes the second one out of the map: the node has accepted the second one's frame, and
-- its response is delivered to nobody.
pub route_frame-time_out :
    (r : Ranges) (process : Process) (p q : PendingRequest) (frame again response id : List ℕ)
    (b : SynapBridge)
    → lookup (request_key (request_id_from_frame frame)) b.pending ≡ none
    → process frame ≡ none
    → process again ≡ none
    → is_event r (synap_opcode_from_frame r response) ≡ false
    → synap_response_id r response ≡ some id
    → request_key id ≡ request_key (request_id_from_frame frame)
    → request_id_from_frame again ≡ request_id_from_frame frame
    → ((answered_and_again r process p q frame again response b).0 ≡ none)
      × ((route_frame r response
            (time_out frame (answered_and_again r process p q frame again response b).1).1).0
          ≡ [])
unfolding answered_and_again time_out remove_pending
route_frame-time_out r process p q frame again response id b free taken taken_again no_event found
      same same_id =
    let key = request_key (request_id_from_frame frame) in
    let waiting = (key, p) ∷ b.pending in
    let left = delete (request_key id) waiting in
    let popped = record b { pending = left } in
    let free_again : lookup (request_key (request_id_from_frame again)) left ≡ none =
      ap (λ i. lookup (request_key i) left) same_id
      ∙ ap (λ k. lookup k left) (sym same)
      ∙ lookup-delete (request_key id) waiting in
    let entries = (request_key (request_id_from_frame again), q) ∷ left in
    let gone : lookup (request_key id) (delete key entries) ≡ none =
      ap (λ k. lookup k (delete key entries)) same ∙ lookup-delete key entries in
    rw
      (
        submit-accepted process p frame b free taken,
        route_frame-response r response id (record b { pending = waiting }) no_event found,
        submit-accepted process q again popped free_again taken_again,
        route_frame-response r response id (record b { pending = delete key entries }) no_event
            found,
        gone,
      )
      (refl, unfold answer in refl)
