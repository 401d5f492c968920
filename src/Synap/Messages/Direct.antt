-- ===== src/Synap/Messages/Direct.antt =====
-- Direct messages: what the parser accepts, and the round trip.
use Prim.Native.String.{◌++◌ as label_joined}
use diarsaba_go.Prelude.{
  ℕ, ◌+◌, ◌/◌, ◌%◌, ◌^◌, ◌≤◌, ◌<◌, String, ◌≡◌, sym, ap, ◌∙◌, List, [], ◌∷◌, ◌++◌, length,
  length-append, append-nil, append_assoc, length-take, take, drop, get_or, get_or-length_append,
  take-append-drop, take-of_le, drop-of_le, arith,
}
use diarsaba_go.Js.Result.{ok, ◌>>=◌}
use diarsaba_go.Js.Number.{pos, be32, be16, to_uint32-pos}
use diarsaba_go.Js.Bytes.{slice, slice_from}
use diarsaba_go.Js.Entropy.{Entropy}
use diarsaba_go.Common.Value.{
  Value, part, Converts, Converts-part, Converts-again, Converts-byte_length,
}
use diarsaba_go.Common.Convert.{ensure_min_length, u16_bytes, u16_bytes-be16}
use diarsaba_go.Common.Concat.Laws.{done, next, build_opcode_message-Parts}
use diarsaba_go.Common.Ids.{Identifies, Identifies-Converts}
use diarsaba_go.Common.Fixed.{ensure_min_length_reads, slice_reads, slice_from_reads}
use diarsaba_go.Synap.Frames.{low_byte}
use diarsaba_go.Synap.Frames.Single.{word_read, id_read}
use diarsaba_go.Synap.Messages.{build_direct_msg_request, peer_length, parse_direct_msg_request}

-- Four bytes of opcode, sixteen of id, the length of the peer's id in two bytes, and the rest.
abbrev pub layout : ℕ → List ℕ → ℕ → List ℕ → List ℕ
layout word raw size rest = be32 word ++ (raw ++ (be16 size ++ rest))

module _ {message : Value} (word : ℕ) (raw : List ℕ) (size : ℕ) (peer rest : List ℕ)
    (m : Converts message (layout word raw size (peer ++ rest))) (k : length raw ≡ 16)
    (l : length peer ≡ size) where
  pub peer_length_read : size < 65536 → peer_length m.view ≡ size
  unfolding peer_length be32 be16
  peer_length_read h =
      let hi = size / 2 ^ 8 % 256 in
      let lo = size % 256 in
      let second : get_or (raw ++ (hi ∷ lo ∷ (peer ++ rest))) 17 0 ≡ lo =
        ap (λ t. get_or t 17 0) (sym (append_assoc raw (hi ∷ []) (lo ∷ (peer ++ rest))))
        ∙ get_or-length_append 17 (raw ++ (hi ∷ [])) (peer ++ rest) lo 0
            (omega (arith, length-append raw (hi ∷ []))) in
      rw (m.elements, get_or-length_append 16 raw (lo ∷ (peer ++ rest)) hi 0 k, second)
        (omega arith)

  front : List ℕ
  front = be32 word ++ (raw ++ be16 size)

  length-front : length front ≡ 22
  unfolding front be32 be16
  length-front = omega (arith, length-append {0})

  front-append : layout word raw size (peer ++ rest) ≡ front ++ (peer ++ rest)
  unfolding front be32
  front-append = ap (λ t. be32 word ++ t) (sym (append_assoc raw (be16 size) (peer ++ rest)))

  pub peer_read : slice m.view 22 (22 + size) ≡ peer
  peer_read = slice_reads m 22 (22 + size) front peer rest front-append length-front (omega arith)

  pub payload_read : slice_from m.view (22 + size) ≡ rest
  payload_read =
      slice_from_reads m (front ++ peer) rest (front-append ∙ sym (append_assoc front peer rest))
        (omega (arith, length-append front peer, length-front))

  pub long_enough :
      (n : ℕ) (label : String) → n ≤ 22 + size → ensure_min_length m.view n label ≡ ok tt
  unfolding be32 be16
  long_enough n label h = ensure_min_length_reads m n label (omega (arith, length-append {0}))

pub parse_direct_msg_request_accepts :
    {message : Value} (word : ℕ) (raw : List ℕ) (size : ℕ) (peer payload : List ℕ) (label : String)
    → Converts message (layout word raw size (peer ++ payload))
    → length raw ≡ 16
    → length peer ≡ size
    → word < 2 ^ 32
    → size < 65536
    → parse_direct_msg_request message label
      ≡ ok (record { opcode = low_byte word; id = raw; peer_id = peer; payload = payload })
unfolding parse_direct_msg_request
parse_direct_msg_request_accepts word raw size peer payload label m k l fits h = rw (
  m.converted,
  long_enough word raw size peer payload m k l 22 label (omega arith),
  peer_length_read word raw size peer payload m k l h,
  long_enough word raw size peer payload m k l (22 + size) (label_joined label " peer")
      (omega arith),
  word_read word raw (be16 size ++ (peer ++ payload)) m fits k,
  id_read word raw (be16 size ++ (peer ++ payload)) m fits k,
  peer_read word raw size peer payload m k l,
  payload_read word raw size peer payload m k l,
)

-- The sixteen low bits of a length are all that two bytes hold.
be16-mod : (n : ℕ) → be16 n ≡ be16 (n % 65536)
unfolding be16
be16-mod n = ground arith

pub Converts-u16_size :
    {value : Value} {xs : List ℕ} (h : Converts value xs)
    → length xs < 2 ^ 32
    → Converts (part (u16_bytes (pos h.view.byte_length))) (be16 (length xs % 65536))
Converts-u16_size {xs = xs} h k =
    rw
      (
        Converts-byte_length h,
        u16_bytes-be16 (pos (length xs)),
        to_uint32-pos (length xs) k,
        be16-mod (length xs),
      )
      (Converts-part (be16 (length xs % 65536)))

pub build_direct_msg_request-layout :
    {peer_id payload id : Value} {peer payload' raw : List ℕ} {e e₁ : Entropy} (opcode : ℕ)
    → opcode < 256
    → Converts peer_id peer
    → Converts payload payload'
    → Identifies id e raw e₁
    → length peer < 2 ^ 32
    → build_direct_msg_request opcode peer_id payload id e
      ≡ ok (layout opcode raw (length peer % 65536) (peer ++ payload'), e₁)
unfolding build_direct_msg_request
build_direct_msg_request-layout opcode h hp hd hi k = rw (
  hp.converted,
  hd.converted,
  hi.normalized,
  build_opcode_message-Parts opcode
      (next (Identifies-Converts hi)
        (next (Converts-u16_size hp k) (next (Converts-again hp) (next (Converts-again hd) done))))
      (omega arith),
  append-nil,
)

-- What `parseDirectMsgRequest` makes of a message that `buildDirectMsgRequest` built, also where the
-- length of the peer's id does not fit in its two bytes: these hold its residue modulo 65536, and the
-- bytes of the peer's id beyond that residue come back in front of the data. The opcode is a byte,
-- the peer's id is shorter than 2 ^ 32 bytes, each argument is one that `toUint8Array` accepts, and
-- the message's id one that `normalizeId` accepts.
pub parse-build_direct_msg_request_any :
    {peer_id payload id : Value} {peer payload' raw : List ℕ} {e e₁ : Entropy} (opcode : ℕ)
    (label : String)
    → opcode < 256
    → Converts peer_id peer
    → Converts payload payload'
    → Identifies id e raw e₁
    → length peer < 2 ^ 32
    → (build_direct_msg_request opcode peer_id payload id e >>= λ (frame, _).
        parse_direct_msg_request (part frame) label)
      ≡ ok (record {
        opcode = opcode;
        id = raw;
        peer_id = take (length peer % 65536) peer;
        payload = drop (length peer % 65536) peer ++ payload';
      })
parse-build_direct_msg_request_any {peer = peer} {payload' = payload'} {raw = raw} opcode label h hp
      hd hi k =
    let n = length peer % 65536 in
    let cut : peer ++ payload' ≡ take n peer ++ (drop n peer ++ payload') =
      ap (λ t. t ++ payload') (sym (take-append-drop n peer))
      ∙ append_assoc (take n peer) (drop n peer) payload' in
    let e : opcode % 256 ≡ opcode = omega arith in
    let size : length (take n peer) ≡ n = omega (arith, length-take n peer) in
    rw (build_direct_msg_request-layout opcode h hp hd hi k) (
      ap (λ t. parse_direct_msg_request (part (layout opcode raw n t)) label) cut
      ∙ parse_direct_msg_request_accepts opcode raw n (take n peer) (drop n peer ++ payload') label
          (Converts-part _) hi.sixteen size (omega arith) (omega arith)
      ∙ ap
          (λ o. ok (record {
            opcode = o;
            id = raw;
            peer_id = take n peer;
            payload = drop n peer ++ payload';
          }))
          e)

-- `parseDirectMsgRequest` reads back the opcode, if it is a byte, the id, the peer's id, if it is
-- shorter than 65536 bytes, and the data that `buildDirectMsgRequest` wrote.
pub parse-build_direct_msg_request :
    {peer_id payload id : Value} {peer payload' raw : List ℕ} {e e₁ : Entropy} (opcode : ℕ)
    (label : String)
    → opcode < 256
    → Converts peer_id peer
    → Converts payload payload'
    → Identifies id e raw e₁
    → length peer < 65536
    → (build_direct_msg_request opcode peer_id payload id e >>= λ (frame, _).
        parse_direct_msg_request (part frame) label)
      ≡ ok (record { opcode = opcode; id = raw; peer_id = peer; payload = payload' })
parse-build_direct_msg_request {peer = peer} {payload' = payload'} {raw = raw} opcode label h hp hd
      hi k =
    let n : length peer % 65536 ≡ length peer = omega arith in
    parse-build_direct_msg_request_any opcode label h hp hd hi (omega arith)
    ∙ rw (
      n,
      take-of_le (length peer) peer (omega arith),
      drop-of_le (length peer) peer (omega arith),
    )
