-- ===== src/Synap/Peers/RoundTrip.antt =====
-- A list of peers is read back as it was written.
use diarsaba_go.Prelude.{ℕ, ◌≡◌, ◌≢◌, refl, sym, ap, ◌∙◌, String, List, [], ◌∷◌, All, true, arith}
use diarsaba_go.Js.Result.{ok, ◌>>=◌}
use diarsaba_go.Js.Text.{encode, decode}
use diarsaba_go.Js.Strings.{join}
use diarsaba_go.Js.Strings.Laws.{join-nonempty}
use diarsaba_go.Js.Entropy.{Entropy}
use diarsaba_go.Common.Value.{Value, part, Converts-part, Converts-text}
use diarsaba_go.Common.Ids.{Identifies}
use diarsaba_go.Synap.Frames.{
  parse_success_data_response, parse_peers_csv, StatusResponse, DataResponse,
}
use diarsaba_go.Synap.Frames.Status.{
  layout, build_success_data_response-layout, parse_status_response_accepts,
  parse_success_data_response_accepts,
}
use diarsaba_go.Synap.Frames.Texts.{IsPeer, IsPlain, parse_peers_csv-join, decode-encode-IsPlain}
use diarsaba_go.Synap.Peers.{
  native_opcode, peers_data_bytes, peers_payload, strings, bare, with_peers, peers_or_bare,
  peers_result,
}

-- A response whose payload is not empty.
peers_or_bare-nonempty :
    {d : DataResponse} {peers : List (List ℕ)} (payload : List ℕ) (parsed : StatusResponse)
    (message : Value) (label : String)
    → payload ≢ []
    → parse_success_data_response message label ≡ ok d
    → parse_peers_csv (part d.payload_data) ≡ ok peers
    → peers_or_bare payload parsed message label ≡ ok (with_peers d peers)
unfolding peers_or_bare
peers_or_bare-nonempty [] parsed message label h e f = absurd (h refl)
peers_or_bare-nonempty (b ∷ payload) parsed message label h e f = rw (e, f)

-- A text that survives the encoding and is not empty has bytes.
encode-nonempty : (s : List ℕ) → IsPlain s → s ≢ [] → encode s ≢ []
encode-nonempty s t h e = h (sym (decode-encode-IsPlain t) ∙ (ap decode e ∙ unfold decode in refl))

-- `peersResult` reads back from what `peersDataBytes` built of a list of peers the id, the success
-- and the peers, where there is one at least, none is empty or holds a comma, and the joined text
-- survives the encoding. The id is one that `normalizeId` accepts.
pub peers_result-peers_data_bytes :
    {id : Value} {raw : List ℕ} {e e₁ : Entropy} (peer : List ℕ) (others : List (List ℕ))
    → Identifies id e raw e₁
    → All IsPeer (peer ∷ others)
    → IsPlain (join b',' (peer ∷ others))
    → (peers_data_bytes id (strings (peer ∷ others)) e >>= λ (frame, _). peers_result (part frame))
      ≡ ok (
          with_peers
            (record {
              response = record {
                opcode = native_opcode;
                id = raw;
                status = 0x01;
                is_ok = true;
                payload = encode (join b',' (peer ∷ others));
              };
              payload_data = encode (join b',' (peer ∷ others));
              text = join b',' (peer ∷ others);
            })
            (peer ∷ others))
unfolding peers_data_bytes peers_payload peers_result
peers_result-peers_data_bytes {raw = raw} peer others hi h t =
    let peers = peer ∷ others in
    let payload = encode (join b',' peers) in
    let m = Converts-part (layout native_opcode raw 0x01 payload) in
    rw
      (
        build_success_data_response-layout native_opcode (omega arith) hi
            (Converts-text (join b',' peers)),
        parse_status_response_accepts native_opcode raw 0x01 payload "PeersResult" m (omega arith)
            hi.sixteen,
      )
      (peers_or_bare-nonempty payload _ _ "PeersResultData"
        (encode-nonempty _ t (join-nonempty b',' peer others h.0.0))
        (parse_success_data_response_accepts native_opcode raw 0x01 payload "PeersResultData" m
            (omega arith) hi.sixteen
          ∙ ap (λ x. ok (record { response = received; payload_data = payload; text = x }))
              (decode-encode-IsPlain t))
        (parse_peers_csv-join peers h t (Converts-part payload)))
  where
    received : StatusResponse
    received = record {
      opcode = native_opcode;
      id = raw;
      status = 0x01;
      is_ok = true;
      payload = encode (join b',' (peer ∷ others));
    }

-- Without a peer the response has no payload, and `peersResult` adds no list.
pub peers_result_bare :
    {id : Value} {raw : List ℕ} {e e₁ : Entropy}
    → Identifies id e raw e₁
    → (peers_data_bytes id (strings []) e >>= λ (frame, _). peers_result (part frame))
      ≡ ok (
          bare (record {
            opcode = native_opcode;
            id = raw;
            status = 0x01;
            is_ok = true;
            payload = [];
          }))
unfolding peers_data_bytes peers_payload peers_result peers_or_bare join encode
peers_result_bare {raw = raw} hi = rw (
  build_success_data_response-layout native_opcode (omega arith) hi (Converts-text []),
  parse_status_response_accepts native_opcode raw 0x01 [] "PeersResult" (Converts-part _)
      (omega arith) hi.sixteen,
)
