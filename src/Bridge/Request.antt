-- ===== src/Bridge/Request.antt =====
-- `Request` of synap_bridge.go as a whole: its frame is submitted, and then it waits for a response
-- on its channel or for its timer, while the bridge goes on. The time between its own registration and
-- the node's verdict on its frame has no other events here.
pub mod Channel
pub mod Answered
use diarsaba_go.Prelude.{
  ℕ, List, [], ◌∷◌, Bool, true, false, Option, none, some, ◌==◌, if◌then◌else◌,
}
use diarsaba_go.Dispatch.{Ranges, request_id_from_frame}
use diarsaba_go.Bridge.{
  PendingRequest, request_key, register_pending, SynapBridge, Process, Delivery, to_channel,
  to_session, add_session, remove_session, dispatch_to_session, begin_request, route_frame,
  time_out,
}

-- What else happens while a request waits: the node sends a frame, a session joins, leaves or
-- dispatches a frame, or another request begins or is timed out. `entered` is a request up to where
-- the lock is free and the node processes its frame, and `expired` takes it out again if the node
-- refuses it, so that other events may come between the two.
pub data Event : Type 0 where
  routed expired : List ℕ → Event
  joined left : ℕ → Event
  dispatched requested : ℕ → List ℕ → Event
  entered : PendingRequest → List ℕ → Event

unfoldable pub happens : Ranges → Process → Event → SynapBridge → List Delivery × SynapBridge
happens r process (routed frame) b = route_frame r frame b
happens r process (expired frame) b = ([], (time_out frame b).1)
happens r process (joined s) b = ([], add_session s b)
happens r process (left s) b = ([], remove_session s b)
happens r process (dispatched s frame) b = ([], (dispatch_to_session process s frame b).1)
happens r process (requested channel frame) b = ([], (begin_request process channel frame b).1)
happens r process (entered p frame) b =
    ([], (register_pending (request_key (request_id_from_frame frame)) p b).1)

-- The first frame on a channel.
unfoldable pub received : ℕ → List Delivery → Option (List ℕ)
received channel [] = none
received channel (to_channel c frame ∷ rest) =
    let later = received channel rest in if c == channel then some frame else later
received channel (to_session s frame ∷ rest) = received channel rest

-- The request's timer fires, or something else happens.
pub data Turn : Type 0 where
  timer : Turn
  meanwhile : Event → Turn

unfoldable pub response_or :
    Option (List ℕ) → SynapBridge → Option (List ℕ) × SynapBridge → Option (List ℕ) × SynapBridge
response_or (some response) b later = (some response, b)
response_or none b later = later

-- The `select`: `none` where nothing has come yet.
unfoldable pub awaited :
    Ranges → Process → ℕ → List ℕ → List Turn → SynapBridge → Option (List ℕ) × SynapBridge
awaited r process channel frame [] b = (none, b)
awaited r process channel frame (timer ∷ turns) b =
    let (answer, b') = time_out frame b in (some answer, b')
awaited r process channel frame (meanwhile event ∷ turns) b =
    let (deliveries, b') = happens r process event b in
    response_or (received channel deliveries) b' (awaited r process channel frame turns b')

unfoldable pub request :
    Ranges → Process → ℕ → List ℕ → List Turn → SynapBridge → Option (List ℕ) × SynapBridge
request r process channel frame turns b =
    let (refused, b') = begin_request process channel frame b in
    response_or refused b' (awaited r process channel frame turns b')
