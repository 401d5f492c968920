-- ===== src/Page/Cards/Synap.antt =====
-- The frames of the thirteen Synap cards of cards/index.html are those that cards/js builds.
use diarsaba_go.Prelude.{
  ℕ, ◌%◌, ◌^◌, ◌≤◌, ◌<◌, ◌≡◌, refl, ◌∙◌, List, [], ◌∷◌, ◌++◌, length, none, some, true, append-nil,
  arith,
}
use diarsaba_go.Js.Result.{Result, ok}
use diarsaba_go.Js.Number.{be16, to_uint32-pos}
use diarsaba_go.Js.Text.{encode}
use diarsaba_go.Js.Entropy.{Entropy}
use diarsaba_go.Common.Value.{Value, text, Converts, Converts-part, Converts-text}
use diarsaba_go.Common.Ids.{Identifies}
use diarsaba_go.Synap.Frames.{build_single_payload_request}
use diarsaba_go.Synap.Frames.Single.{build_single_payload_request-layout}
use diarsaba_go.Synap.Messages.Direct.{build_direct_msg_request-layout}
use diarsaba_go.Synap.Publish.{pub_payload_bytes, pub_req_bytes}
use diarsaba_go.Synap.Peers.{peers_req_bytes}
use diarsaba_go.Synap.DirectMessage.{direct_msg_req_bytes}
use diarsaba_go.Synap.Relay.{relay_req_bytes}
use diarsaba_go.Synap.Dial.{dial_req_bytes}
use diarsaba_go.Synap.Sub.{sub_req_bytes}
use diarsaba_go.Synap.UseTopic.{use_req_bytes}
use diarsaba_go.Synap.Unsub.{unsub_req_bytes}
use diarsaba_go.Synap.Announce.{announce_req_bytes}
use diarsaba_go.Synap.Unannounce.{unannounce_req_bytes}
use diarsaba_go.Synap.FindProviders.{find_providers_req_bytes}
use diarsaba_go.Synap.Disconnect.{disconnect_req_bytes}
use diarsaba_go.Synap.GenerateCid.{generate_cid_req_bytes}
use diarsaba_go.Dispatch.{Ranges, synap, within, classify_frame, classify_opcode}
use diarsaba_go.Dispatch.Routing.{classified_by_opcode}
use diarsaba_go.Page.Op
use diarsaba_go.Page.Cards.{
  SynapCard, relay, dial, sub, use_topic, publish, peers, unsub, announce, unannounce,
  find_providers, direct_msg, disconnect, generate_cid, synap_opcode, synap_payload,
  build_request_frame, build_synap_frame,
}
use diarsaba_go.Page.Cards.Concat.{concat-joined, build_request_frame-append}

-- What cards/js builds of a card's fields and an id.
abbrev pub codec_frame : SynapCard → Value → Entropy → Result (List ℕ × Entropy)
codec_frame (relay addr) id e = relay_req_bytes (text addr) id e
codec_frame (dial addr) id e = dial_req_bytes (text addr) id e
codec_frame (sub topic) id e = sub_req_bytes (text topic) id e
codec_frame (use_topic topic) id e = use_req_bytes (text topic) id e
codec_frame (unsub topic) id e = unsub_req_bytes (text topic) id e
codec_frame (announce cid) id e = announce_req_bytes (text cid) id e
codec_frame (unannounce cid) id e = unannounce_req_bytes (text cid) id e
codec_frame (find_providers cid) id e = find_providers_req_bytes (text cid) id e
codec_frame (disconnect peer) id e = disconnect_req_bytes (text peer) id e
codec_frame (generate_cid data_text) id e = generate_cid_req_bytes (text data_text) id e
codec_frame (publish topic message) id e = pub_req_bytes topic (some message) id e
codec_frame (direct_msg peer data_text) id e =
    direct_msg_req_bytes (text peer) (text data_text) id e
codec_frame peers id e = peers_req_bytes id e

-- The UTF-8 of a peer's id is shorter than 2 ^ 32 bytes.
abbrev pub PeerFits : SynapCard → Type 0
PeerFits (direct_msg peer data_text) = length (encode peer) < 2 ^ 32
PeerFits card = Unit

single_payload :
    {id payload : Value} {raw payload' : List ℕ} {e e₁ : Entropy} (opcode : ℕ)
    → opcode < 256
    → Identifies id e raw e₁
    → Converts payload payload'
    → build_single_payload_request opcode payload id e
      ≡ ok (build_request_frame opcode raw payload', e₁)
single_payload {raw = raw} {payload' = payload'} opcode h hi hp =
    rw (build_request_frame-append opcode raw payload' (omega arith))
      (build_single_payload_request-layout opcode h hi hp)

be16-mod : (n : ℕ) → be16 (n % 65536) ≡ be16 n
unfolding be16
be16-mod n = ground arith

direct_frame :
    {id : Value} {raw : List ℕ} {e e₁ : Entropy} (peer data_text : List ℕ)
    → Identifies id e raw e₁
    → length (encode peer) < 2 ^ 32
    → direct_msg_req_bytes (text peer) (text data_text) id e
      ≡ ok (build_synap_frame (direct_msg peer data_text) raw, e₁)
unfolding build_synap_frame synap_payload synap_opcode direct_msg_req_bytes
direct_frame {raw = raw} peer data_text hi h =
    build_direct_msg_request-layout 0x0b (omega arith) (Converts-text peer)
      (Converts-text data_text) hi h
    ∙ rw
        (
          build_request_frame-append 0x0b raw _ (omega arith),
          concat-joined _,
          to_uint32-pos (length (encode peer)) h,
          append-nil (encode data_text),
          be16-mod (length (encode peer)),
        )
        refl

-- The frame that a Synap card sends is the one that the builder of the card's operation in cards/js
-- builds of the same fields and id. The id is one that `normalizeId` accepts, and for `direct msg`
-- the UTF-8 of the peer's id is shorter than 2 ^ 32 bytes.
pub build_synap_frame-codec_frame :
    {id : Value} {raw : List ℕ} {e e₁ : Entropy} (card : SynapCard)
    → Identifies id e raw e₁
    → PeerFits card
    → codec_frame card id e ≡ ok (build_synap_frame card raw, e₁)
unfolding build_synap_frame synap_payload synap_opcode pub_payload_bytes relay_req_bytes
    dial_req_bytes sub_req_bytes use_req_bytes unsub_req_bytes announce_req_bytes
    unannounce_req_bytes find_providers_req_bytes disconnect_req_bytes generate_cid_req_bytes
    pub_req_bytes peers_req_bytes
build_synap_frame-codec_frame (relay addr) hi h =
    single_payload 0x01 (omega arith) hi (Converts-text addr)
build_synap_frame-codec_frame (dial addr) hi h =
    single_payload 0x02 (omega arith) hi (Converts-text addr)
build_synap_frame-codec_frame (sub topic) hi h =
    single_payload 0x03 (omega arith) hi (Converts-text topic)
build_synap_frame-codec_frame (use_topic topic) hi h =
    single_payload 0x04 (omega arith) hi (Converts-text topic)
build_synap_frame-codec_frame (unsub topic) hi h =
    single_payload 0x07 (omega arith) hi (Converts-text topic)
build_synap_frame-codec_frame (announce cid) hi h =
    single_payload 0x08 (omega arith) hi (Converts-text cid)
build_synap_frame-codec_frame (unannounce cid) hi h =
    single_payload 0x09 (omega arith) hi (Converts-text cid)
build_synap_frame-codec_frame (find_providers cid) hi h =
    single_payload 0x0a (omega arith) hi (Converts-text cid)
build_synap_frame-codec_frame (disconnect peer) hi h =
    single_payload 0x0c (omega arith) hi (Converts-text peer)
build_synap_frame-codec_frame (generate_cid data_text) hi h =
    single_payload 0x0d (omega arith) hi (Converts-text data_text)
build_synap_frame-codec_frame (publish topic message) hi h =
    single_payload 0x05 (omega arith) hi (Converts-text (topic ++ (b'|' ∷ message)))
build_synap_frame-codec_frame {raw = raw} (direct_msg peer data_text) hi h =
    direct_frame peer data_text hi h
build_synap_frame-codec_frame peers hi h = single_payload 0x06 (omega arith) hi (Converts-part [])

pub opcode_small : (card : SynapCard) → synap_opcode card < 256
unfolding synap_opcode
opcode_small (relay addr) = omega arith
opcode_small (dial addr) = omega arith
opcode_small (sub topic) = omega arith
opcode_small (use_topic topic) = omega arith
opcode_small (unsub topic) = omega arith
opcode_small (announce cid) = omega arith
opcode_small (unannounce cid) = omega arith
opcode_small (find_providers cid) = omega arith
opcode_small (disconnect peer) = omega arith
opcode_small (generate_cid data_text) = omega arith
opcode_small (publish topic message) = omega arith
opcode_small (direct_msg peer data_text) = omega arith
opcode_small peers = omega arith

-- The opcode is one of a request.
pub opcode_is_request :
    (card : SynapCard) → (Op.relay ≤ synap_opcode card) × (synap_opcode card ≤ Op.generate_cid)
unfolding synap_opcode
opcode_is_request (relay addr) = (omega arith, omega arith)
opcode_is_request (dial addr) = (omega arith, omega arith)
opcode_is_request (sub topic) = (omega arith, omega arith)
opcode_is_request (use_topic topic) = (omega arith, omega arith)
opcode_is_request (unsub topic) = (omega arith, omega arith)
opcode_is_request (announce cid) = (omega arith, omega arith)
opcode_is_request (unannounce cid) = (omega arith, omega arith)
opcode_is_request (find_providers cid) = (omega arith, omega arith)
opcode_is_request (disconnect peer) = (omega arith, omega arith)
opcode_is_request (generate_cid data_text) = (omega arith, omega arith)
opcode_is_request (publish topic message) = (omega arith, omega arith)
opcode_is_request (direct_msg peer data_text) = (omega arith, omega arith)
opcode_is_request peers = (omega arith, omega arith)

-- The dispatcher sends the frame of a Synap card to Synap, with the card's opcode and the id, if the
-- opcode lies in the range of Synap's requests.
pub classify_frame-build_synap_frame :
    (r : Ranges) (card : SynapCard) (id : List ℕ)
    → length id ≡ 16
    → within r.request_min r.request_max (synap_opcode card) ≡ true
    → classify_frame r (build_synap_frame card id)
      ≡ record { target = synap; opcode = synap_opcode card; request_id = id; error_frame = none }
unfolding build_synap_frame
classify_frame-build_synap_frame r card id h w =
    let small = opcode_small card in
    rw
      (
        build_request_frame-append (synap_opcode card) id (synap_payload card)
            (omega (arith, small)),
        classified_by_opcode (synap_opcode card) small id (synap_payload card) h r,
      )
      (unfold classify_opcode in rw w refl)
