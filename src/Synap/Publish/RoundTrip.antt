-- ===== src/Synap/Publish/RoundTrip.antt =====
-- A publication is read back as it was written.
use diarsaba_go.Prelude.{ℕ, ◌≡◌, refl, List, [], ◌∷◌, ◌++◌, Option, none, some, arith}
use diarsaba_go.Js.Result.{ok, ◌>>=◌}
use diarsaba_go.Js.Text.{encode}
use diarsaba_go.Js.Strings.Laws.{Lacks}
use diarsaba_go.Js.Entropy.{Entropy}
use diarsaba_go.Common.Value.{Value, part, Converts-part, Converts-text}
use diarsaba_go.Common.Ids.{Identifies}
use diarsaba_go.Synap.Frames.Single.{
  build_single_payload_request-layout, parse_single_payload_request_accepts,
}
use diarsaba_go.Synap.Frames.Texts.{IsPlain, split_pub_payload-append}
use diarsaba_go.Synap.Publish.{native_opcode, pub_payload_bytes, pub_req_bytes, pub_req}

-- `message || ""`
abbrev pub message_text : Option (List ℕ) → List ℕ
message_text none = []
message_text (some message) = message

payload_text :
    (topic : List ℕ) (message : Option (List ℕ))
    → pub_payload_bytes topic message ≡ topic ++ (b'|' ∷ message_text message)
unfolding pub_payload_bytes
payload_text topic none = refl
payload_text topic (some message) = refl

-- `pubReq` reads back from what `pubReqBytes` built the id, the topic, if it holds no bar, and the
-- message, where the text of both survives the encoding. The id is one that `normalizeId` accepts.
pub pub_req-pub_req_bytes :
    {id : Value} {raw : List ℕ} {e e₁ : Entropy} (topic : List ℕ) (message : Option (List ℕ))
    → Identifies id e raw e₁
    → Lacks b'|' topic
    → IsPlain (topic ++ (b'|' ∷ message_text message))
    → (pub_req_bytes topic message id e >>= λ (frame, _). pub_req (part frame))
      ≡ ok (record {
        parsed = record {
          opcode = native_opcode;
          id = raw;
          payload = encode (topic ++ (b'|' ∷ message_text message));
        };
        topic = topic;
        message = message_text message;
      })
unfolding pub_req_bytes pub_req
pub_req-pub_req_bytes {raw = raw} topic message hi h t =
    let s = topic ++ (b'|' ∷ message_text message) in
    rw (
      payload_text topic message,
      build_single_payload_request-layout native_opcode (omega arith) hi (Converts-text s),
      parse_single_payload_request_accepts native_opcode raw (encode s) "PubReq" (Converts-part _)
          (omega arith) hi.sixteen,
      split_pub_payload-append topic (message_text message) h t (Converts-part (encode s)),
    )
