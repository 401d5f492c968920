-- ===== src/Synap/Frames/Single.antt =====
-- Requests of one payload: what `parseSinglePayloadRequest` accepts, and the round trip.
use diarsaba_go.Prelude.{
  ℕ, ◌%◌, ◌^◌, ◌<◌, String, ◌≡◌, refl, ◌∙◌, List, [], ◌++◌, length, length-append, append-nil,
  arith,
}
use diarsaba_go.Js.Result.{ok, ◌>>=◌}
use diarsaba_go.Js.Number.{be32}
use diarsaba_go.Js.Bytes.{slice, slice_from}
use diarsaba_go.Js.Entropy.{Entropy}
use diarsaba_go.Common.Value.{Value, part, Converts, Converts-part, Converts-again}
use diarsaba_go.Common.Convert.{ensure_min_length, read_u32}
use diarsaba_go.Common.Concat.Laws.{done, next, build_opcode_message-Parts}
use diarsaba_go.Common.Ids.{Identifies, Identifies-Converts}
use diarsaba_go.Common.Fixed.{
  ensure_min_length_reads, read_u32_reads, slice_reads, slice_from_reads,
}
use diarsaba_go.Synap.Frames.{build_single_payload_request, parse_single_payload_request, low_byte}

-- A frame of four bytes of opcode, sixteen of id, and a rest.
module _ {message : Value} (word : ℕ) (raw rest : List ℕ)
    (m : Converts message (be32 word ++ (raw ++ rest))) (fits : word < 2 ^ 32)
    (k : length raw ≡ 16) where
  pub word_read : read_u32 m.view 0 ≡ ok word
  word_read = read_u32_reads m [] word (raw ++ rest) refl refl fits

  pub id_read : slice m.view 4 20 ≡ raw
  unfolding be32
  id_read = slice_reads m 4 20 (be32 word) raw rest refl refl k

  pub rest_read : slice_from m.view 20 ≡ rest
  unfolding be32
  rest_read =
      slice_from_reads m (be32 word ++ raw) rest refl (omega (arith, length-append (be32 word) raw))

  pub long_enough : (label : String) → ensure_min_length m.view 20 label ≡ ok tt
  unfolding be32
  long_enough label = ensure_min_length_reads m 20 label (omega (arith, length-append raw rest))

pub parse_single_payload_request_accepts :
    {message : Value} (word : ℕ) (raw payload : List ℕ) (label : String)
    → Converts message (be32 word ++ (raw ++ payload))
    → word < 2 ^ 32
    → length raw ≡ 16
    → parse_single_payload_request message label
      ≡ ok (record { opcode = low_byte word; id = raw; payload = payload })
unfolding parse_single_payload_request
parse_single_payload_request_accepts word raw payload label m fits k = rw (
  m.converted,
  long_enough word raw payload m fits k label,
  word_read word raw payload m fits k,
  id_read word raw payload m fits k,
  rest_read word raw payload m fits k,
)

pub build_single_payload_request-layout :
    {id payload : Value} {raw payload' : List ℕ} {e e₁ : Entropy} (opcode : ℕ)
    → opcode < 256
    → Identifies id e raw e₁
    → Converts payload payload'
    → build_single_payload_request opcode payload id e ≡ ok (be32 opcode ++ (raw ++ payload'), e₁)
unfolding build_single_payload_request
build_single_payload_request-layout opcode h hi hp = rw (
  hi.normalized,
  hp.converted,
  build_opcode_message-Parts opcode (next (Identifies-Converts hi) (next (Converts-again hp) done))
      (omega arith),
  append-nil,
)

-- `parseSinglePayloadRequest` reads back the opcode, if it is a byte, the id and the payload that
-- `buildSinglePayloadRequest` wrote. Each argument is one that `toUint8Array` accepts, and the id
-- one that `normalizeId` accepts.
pub parse-build_single_payload_request :
    {id payload : Value} {raw payload' : List ℕ} {e e₁ : Entropy} (opcode : ℕ) (label : String)
    → opcode < 256
    → Identifies id e raw e₁
    → Converts payload payload'
    → (build_single_payload_request opcode payload id e >>= λ (frame, _).
        parse_single_payload_request (part frame) label)
      ≡ ok (record { opcode = opcode; id = raw; payload = payload' })
parse-build_single_payload_request {raw} {payload'} opcode label h hi hp =
    let e : opcode % 256 ≡ opcode = omega arith in
    rw (build_single_payload_request-layout opcode h hi hp) (
      parse_single_payload_request_accepts opcode _ _ label (Converts-part _) (omega arith)
        hi.sixteen
      ∙ rw e)
