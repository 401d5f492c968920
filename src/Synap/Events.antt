-- ===== src/Synap/Events.antt =====
-- cards/js/synap2p/event-pubsub.js, event-direct-msg.js and event-peer-found.js
use diarsaba_go.Prelude.{ℕ, List}
use diarsaba_go.Js.Result.{Result}
use diarsaba_go.Js.Entropy.{Entropy}
use diarsaba_go.Common.Value.{Value}
use diarsaba_go.Synap.Messages.{
  EventPubSub, EventDirectMsg, EventPeerFound, build_event_pub_sub, parse_event_pub_sub,
  build_event_direct_msg, parse_event_direct_msg, build_event_peer_found, parse_event_peer_found,
}

pub event_pub_sub_bytes : Value → Value → Entropy → Result (List ℕ × Entropy)
event_pub_sub_bytes id payload e = build_event_pub_sub id payload e

pub event_pub_sub : Value → Result EventPubSub
event_pub_sub message = parse_event_pub_sub message

pub event_direct_msg_bytes : Value → Value → Value → Entropy → Result (List ℕ × Entropy)
event_direct_msg_bytes id peer_id payload e = build_event_direct_msg id peer_id payload e

pub event_direct_msg : Value → Result EventDirectMsg
event_direct_msg message = parse_event_direct_msg message

pub event_peer_found_bytes : Value → Result (List ℕ)
event_peer_found_bytes peer_id = build_event_peer_found peer_id

pub event_peer_found : Value → Result EventPeerFound
event_peer_found message = parse_event_peer_found message
