-- ===== src/Bridge.antt =====
-- synap_bridge.go: the requests that wait for a response of the Synap node, and the WebSocket
-- sessions. The bridge's lock is held by each access to the two maps, not by a whole method: `Request`
-- and `DispatchToSession` take it to register and once more to remove, and the node processes the
-- frame in between. `submit` is such a method where nothing comes in between; register_pending and
-- remove_pending are also steps of their own, where others may.
pub mod Pending
pub mod Answers
pub mod Invariant
pub mod Timeout
pub mod Request
pub mod Abstract
use diarsaba_go.Prelude.{
  ℕ, List, [], ◌∷◌, Option, none, some, Bool, true, false, ◌==◌, lookup, delete, if◌then◌else◌,
}
use mathlib.Core.Bool.{not}
use diarsaba_go.Dispatch.{
  Ranges, normalize_id, error_result, request_timeout, duplicate_request, node_process_failed,
  request_id_from_frame, synap_opcode_from_frame, synap_response_id, is_synap_event,
}

-- `pendingRequest`: an HTTP request has a channel of its own, and a session is named by a number.
pub data PendingRequest : Type 0 where
  http_response : ℕ → PendingRequest
  session : ℕ → PendingRequest

-- The two maps: the keys are the bytes of an id.
pub record SynapBridge : Type 0 where
  pub pending : List (List ℕ × PendingRequest)
  pub sessions : List ℕ

abbrev pub new_synap_bridge : SynapBridge
new_synap_bridge = record { pending = []; sessions = [] }

-- `string(normalizeID(id))`
abbrev pub request_key : List ℕ → List ℕ
request_key id = normalize_id id

-- An entry that is found makes the registration fail.
unfoldable pub registered :
    Option PendingRequest → List ℕ → PendingRequest → SynapBridge → Bool × SynapBridge
registered (some other) key p b = (false, b)
registered none key p b = (true, record b { pending = (key, p) ∷ b.pending })

unfoldable pub register_pending : List ℕ → PendingRequest → SynapBridge → Bool × SynapBridge
register_pending key p b = registered (lookup key b.pending) key p b

unfoldable pub remove_pending : List ℕ → SynapBridge → SynapBridge
remove_pending key b = record b { pending = delete key b.pending }

unfoldable pub pop_pending : List ℕ → SynapBridge → Option PendingRequest × SynapBridge
pop_pending key b = (lookup key b.pending, record b { pending = delete key b.pending })

unfoldable pub has_session : ℕ → List ℕ → Bool
has_session s [] = false
has_session s (t ∷ rest) = let later = has_session s rest in if t == s then true else later

unfoldable pub without : ℕ → List ℕ → List ℕ
without s [] = []
without s (t ∷ rest) = let others = without s rest in if t == s then others else t ∷ others

unfoldable pub add_session : ℕ → SynapBridge → SynapBridge
add_session s b = if has_session s b.sessions then b else record b { sessions = s ∷ b.sessions }

-- `pending.session == session`
unfoldable pub is_of : ℕ → PendingRequest → Bool
is_of s (http_response channel) = false
is_of s (session t) = t == s

unfoldable pub drop_session : ℕ → List (List ℕ × PendingRequest) → List (List ℕ × PendingRequest)
drop_session s [] = []
drop_session s ((k, p) ∷ rest) =
    let others = drop_session s rest in if is_of s p then others else (k, p) ∷ others

unfoldable pub remove_session : ℕ → SynapBridge → SynapBridge
remove_session s b = record { pending = drop_session s b.pending; sessions = without s b.sessions }

-- What the program sends: a frame on a request's channel, or to a session.
pub data Delivery : Type 0 where
  to_channel : ℕ → List ℕ → Delivery
  to_session : ℕ → List ℕ → Delivery

-- To the sessions that the lock has shown: they are written to after it has been released.
unfoldable pub broadcast : List ℕ → List ℕ → List Delivery
broadcast frame [] = []
broadcast frame (s ∷ rest) = to_session s frame ∷ broadcast frame rest

unfoldable pub answer : List ℕ → Option PendingRequest → List Delivery
answer frame none = []
answer frame (some (http_response channel)) = to_channel channel frame ∷ []
answer frame (some (session s)) = to_session s frame ∷ []

-- An opcode of an event at the front.
unfoldable pub is_event : Ranges → Option ℕ → Bool
is_event r none = false
is_event r (some opcode) = is_synap_event r opcode

unfoldable pub route_response : Option (List ℕ) → List ℕ → SynapBridge → List Delivery × SynapBridge
route_response none frame b = ([], b)
route_response (some id) frame b =
    let (found, b') = pop_pending (request_key id) b in (answer frame found, b')

unfoldable pub route_frame : Ranges → List ℕ → SynapBridge → List Delivery × SynapBridge
route_frame r frame b =
    if is_event r (synap_opcode_from_frame r frame)
    then (broadcast frame b.sessions, b)
    else route_response (synap_response_id r frame) frame b

-- "synap.pending_duplicate" and "synap.response_timeout"
abbrev pub pending_duplicate_info : List ℕ
pending_duplicate_info =
    b's' ∷ b'y' ∷ b'n' ∷ b'a' ∷ b'p' ∷ b'.' ∷ b'p' ∷ b'e' ∷ b'n' ∷ b'd' ∷ b'i' ∷ b'n' ∷ b'g' ∷ b'_'
    ∷ b'd' ∷ b'u' ∷ b'p' ∷ b'l' ∷ b'i' ∷ b'c' ∷ b'a' ∷ b't' ∷ b'e' ∷ []

abbrev pub response_timeout_info : List ℕ
response_timeout_info =
    b's' ∷ b'y' ∷ b'n' ∷ b'a' ∷ b'p' ∷ b'.' ∷ b'r' ∷ b'e' ∷ b's' ∷ b'p' ∷ b'o' ∷ b'n' ∷ b's' ∷ b'e'
    ∷ b'_' ∷ b't' ∷ b'i' ∷ b'm' ∷ b'e' ∷ b'o' ∷ b'u' ∷ b't' ∷ []

-- `node.Process` either takes the frame or returns an error with a text: what it says of a frame is
-- fixed for a run.
abbrev pub Process : Type 0
Process = List ℕ → Option (List ℕ)

-- What follows the registration: an error frame, or nothing while the response is awaited.
unfoldable pub processed : Option (List ℕ) → List ℕ → SynapBridge → Option (List ℕ) × SynapBridge
processed none request_id b = (none, b)
processed (some text) request_id b = (
  some (error_result request_id node_process_failed text),
  remove_pending (request_key request_id) b,
)

unfoldable pub submitted :
    Process → List ℕ → List ℕ → Bool × SynapBridge → Option (List ℕ) × SynapBridge
submitted process frame request_id (false, b) =
    (some (error_result request_id duplicate_request pending_duplicate_info), b)
submitted process frame request_id (true, b) = processed (process frame) request_id b

-- `DispatchToSession`, and `Request` up to the point where it waits, at a stretch: they differ in who
-- waits.
unfoldable pub submit :
    Process → PendingRequest → List ℕ → SynapBridge → Option (List ℕ) × SynapBridge
submit process p frame b =
    let request_id = request_id_from_frame frame in
    submitted process frame request_id (register_pending (request_key request_id) p b)

abbrev pub dispatch_to_session : Process → ℕ → List ℕ → SynapBridge → Option (List ℕ) × SynapBridge
dispatch_to_session process s frame b = submit process (session s) frame b

abbrev pub begin_request : Process → ℕ → List ℕ → SynapBridge → Option (List ℕ) × SynapBridge
begin_request process channel frame b = submit process (http_response channel) frame b

-- The end of `Request` where the timer fires first.
unfoldable pub time_out : List ℕ → SynapBridge → List ℕ × SynapBridge
time_out frame b =
    let request_id = request_id_from_frame frame in
    (
      error_result request_id request_timeout response_timeout_info,
      remove_pending (request_key request_id) b,
    )
