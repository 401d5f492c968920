-- ===== src/Synap/Messages/Events.antt =====
-- The three events: the round trips.
use Prim.Native.String.{◌++◌ as label_joined}
use diarsaba_go.Prelude.{ℕ, ◌+◌, ◌%◌, ◌<◌, ◌≡◌, refl, List, [], ◌++◌, length, arith}
use diarsaba_go.Js.Result.{ok, ◌>>=◌}
use diarsaba_go.Js.Number.{be16}
use diarsaba_go.Js.Bytes.{contents-fresh, zeros}
use diarsaba_go.Js.Text.{decode}
use diarsaba_go.Js.Entropy.{Entropy}
use diarsaba_go.Common.Value.{Value, part, Converts, Converts-part, Converts-again, to_uint8_array}
use diarsaba_go.Common.Convert.{utf8_text}
use diarsaba_go.Common.Concat.Laws.{done, next, build_opcode_message-Parts}
use diarsaba_go.Common.Ids.{Identifies}
use diarsaba_go.Synap.Opcodes.{event_pubsub, event_direct_msg, event_peer_found, native_opcodes}
use diarsaba_go.Synap.Frames.{build_single_payload_request}
use diarsaba_go.Synap.Frames.Single.{
  word_read, id_read, build_single_payload_request-layout, parse_single_payload_request_accepts,
}
use diarsaba_go.Synap.Messages.{
  build_direct_msg_request, build_event_pub_sub, parse_event_pub_sub, build_event_direct_msg,
  parse_event_direct_msg, build_event_peer_found, parse_event_peer_found,
}
use diarsaba_go.Synap.Messages.Direct.{
  layout, long_enough, peer_length_read, peer_read, build_direct_msg_request-layout,
  parse_direct_msg_request_accepts, Converts-u16_size,
}

utf8_text-part : (xs : List ℕ) → utf8_text (part xs) ≡ ok (decode xs)
unfolding utf8_text to_uint8_array
utf8_text-part xs = rw (contents-fresh xs)

-- A publication is a request of one payload, and a direct message a direct message, under the
-- event's opcode.
event_pub_sub-request :
    (id payload : Value) (e : Entropy)
    → build_event_pub_sub id payload e
      ≡ build_single_payload_request (native_opcodes event_pubsub) payload id e
unfolding build_event_pub_sub build_single_payload_request
event_pub_sub-request id payload e = refl

event_direct_msg-request :
    (id peer_id payload : Value) (e : Entropy)
    → build_event_direct_msg id peer_id payload e
      ≡ build_direct_msg_request (native_opcodes event_direct_msg) peer_id payload id e
unfolding build_event_direct_msg build_direct_msg_request
event_direct_msg-request id peer_id payload e = refl

-- `parseEventPubSub` reads back the id and the data that `buildEventPubSub` wrote, under the
-- event's native opcode, and decodes the data as text. Each argument is one that `toUint8Array`
-- accepts, and the id one that `normalizeId` accepts.
pub parse-build_event_pub_sub :
    {id payload : Value} {raw payload' : List ℕ} {e e₁ : Entropy}
    → Identifies id e raw e₁
    → Converts payload payload'
    → (build_event_pub_sub id payload e >>= λ (frame, _). parse_event_pub_sub (part frame))
      ≡ ok (record {
        parsed = record { opcode = native_opcodes event_pubsub; id = raw; payload = payload' };
        payload_data = payload';
        text = decode payload';
      })
unfolding parse_event_pub_sub
parse-build_event_pub_sub {id} {payload} {raw} {payload'} {e} hi hp = rw (
  event_pub_sub-request id payload e,
  build_single_payload_request-layout (native_opcodes event_pubsub) (omega arith) hi hp,
  parse_single_payload_request_accepts (native_opcodes event_pubsub) raw payload' "EventPubSub"
      (Converts-part _) (omega arith) hi.sixteen,
  utf8_text-part payload',
)

-- `parseEventDirectMsg` reads back the id, the peer's id, if it is shorter than 65536 bytes, and
-- the data that `buildEventDirectMsg` wrote, under the event's native opcode, and decodes both.
-- Each argument is one that `toUint8Array` accepts, and the id one that `normalizeId` accepts.
pub parse-build_event_direct_msg :
    {id peer_id payload : Value} {raw peer payload' : List ℕ} {e e₁ : Entropy}
    → Converts peer_id peer
    → Converts payload payload'
    → Identifies id e raw e₁
    → length peer < 65536
    → (build_event_direct_msg id peer_id payload e >>= λ (frame, _).
        parse_event_direct_msg (part frame))
      ≡ ok (record {
        parsed = record {
          opcode = native_opcodes event_direct_msg;
          id = raw;
          peer_id = peer;
          payload = payload';
        };
        peer_text = decode peer;
        data_text = decode payload';
      })
unfolding parse_event_direct_msg
parse-build_event_direct_msg {id} {peer_id} {payload} {raw} {peer} {payload'} {e} hp hd hi k =
    let n : length peer % 65536 ≡ length peer = omega arith in
    rw (
      event_direct_msg-request id peer_id payload e,
      build_direct_msg_request-layout (native_opcodes event_direct_msg) (omega arith) hp hd hi
          (omega arith),
      n,
      parse_direct_msg_request_accepts (native_opcodes event_direct_msg) raw (length peer) peer
          payload' "EventDirectMsg" (Converts-part _) hi.sixteen refl (omega arith) k,
      utf8_text-part peer,
      utf8_text-part payload',
    )

build_event_peer_found-layout :
    {peer_id : Value} {peer : List ℕ}
    → Converts peer_id peer
    → length peer < 65536
    → build_event_peer_found peer_id
      ≡ ok (layout (native_opcodes event_peer_found) (zeros 16) (length peer) (peer ++ []))
unfolding build_event_peer_found
build_event_peer_found-layout {peer = peer} hp k =
    let n : length peer % 65536 ≡ length peer = omega arith in
    rw (
      hp.converted,
      build_opcode_message-Parts (native_opcodes event_peer_found)
          (next (Converts-part (zeros 16))
            (next (Converts-u16_size hp (omega arith)) (next (Converts-again hp) done)))
          (omega arith),
      n,
    )

-- `parseEventPeerFound` reads back the peer's id that `buildEventPeerFound` wrote, if it is
-- shorter than 65536 bytes, also as text, under the event's native opcode and an id of sixteen
-- zeros. The argument is one that `toUint8Array` accepts.
pub parse-build_event_peer_found :
    {peer_id : Value} {peer : List ℕ}
    → Converts peer_id peer
    → length peer < 65536
    → (build_event_peer_found peer_id >>= λ frame. parse_event_peer_found (part frame))
      ≡ ok (record {
        opcode = native_opcodes event_peer_found;
        id = zeros 16;
        peer_id = peer;
        peer_text = decode peer;
      })
unfolding parse_event_peer_found
parse-build_event_peer_found {peer = peer} hp k =
    let word = native_opcodes event_peer_found in
    let m = Converts-part (layout word (zeros 16) (length peer) (peer ++ [])) in
    rw (
      build_event_peer_found-layout hp k,
      m.converted,
      long_enough word (zeros 16) (length peer) peer [] m refl refl 22 "EventPeerFound"
          (omega arith),
      peer_length_read word (zeros 16) (length peer) peer [] m refl refl k,
      long_enough word (zeros 16) (length peer) peer [] m refl refl (22 + length peer)
          (label_joined "EventPeerFound" " peer") (omega arith),
      word_read word (zeros 16) (be16 (length peer) ++ (peer ++ [])) m (omega arith) refl,
      peer_read word (zeros 16) (length peer) peer [] m refl refl,
      id_read word (zeros 16) (be16 (length peer) ++ (peer ++ [])) m (omega arith) refl,
      utf8_text-part peer,
    )
