-- ===== src/Synap/Frames/Status.antt =====
-- Status responses: the round trip, with and without a payload.
use diarsaba_go.Prelude.{
  ℕ, ◌+◌, ◌%◌, ◌^◌, ◌≤◌, ◌<◌, String, Bool, true, false, ◌≡◌, refl, sym, ap, ◌∙◌, List, [], ◌∷◌,
  ◌++◌, length, length-append, length-replicate, append-nil, append_assoc, get_or-length_append,
  overwrite, overwrite-append, replicate-add, le→leb, ◌==◌, arith,
}
use diarsaba_go.Js.Result.{ok, ◌>>=◌}
use diarsaba_go.Js.Number.{be32}
use diarsaba_go.Js.Bytes.{contents-fresh, zeros, set, slice_from}
use diarsaba_go.Js.Entropy.{Entropy}
use diarsaba_go.Js.Text.{decode}
use diarsaba_go.Common.Value.{
  Value, part, Converts, Converts-part, Converts-byte_length, to_uint8_array,
}
use diarsaba_go.Common.Convert.{utf8_text}
use diarsaba_go.Common.Ids.{Identifies}
use diarsaba_go.Common.Fixed.{ensure_min_length_reads, slice_from_reads}
use diarsaba_go.Synap.Frames.{
  store, status_byte, low_byte, build_status_response, parse_status_response,
  build_success_data_response, parse_success_data_response,
}
use diarsaba_go.Synap.Frames.Single.{word_read, id_read}

-- Four bytes of opcode, sixteen of id, the status byte, and the payload.
abbrev pub layout : ℕ → List ℕ → ℕ → List ℕ → List ℕ
layout word raw status payload = be32 word ++ (raw ++ (status ∷ payload))

pub parse_status_response_accepts :
    {message : Value} (word : ℕ) (raw : List ℕ) (status : ℕ) (payload : List ℕ) (label : String)
    → Converts message (layout word raw status payload)
    → word < 2 ^ 32
    → length raw ≡ 16
    → parse_status_response message label
      ≡ ok (record {
        opcode = low_byte word;
        id = raw;
        status = status;
        is_ok = status == 0x01;
        payload = payload;
      })
unfolding parse_status_response be32
parse_status_response_accepts word raw status payload label m fits k = rw (
  m.converted,
  ensure_min_length_reads m 21 label (omega (arith, length-append raw (status ∷ payload))),
  word_read word raw (status ∷ payload) m fits k,
  id_read word raw (status ∷ payload) m fits k,
  m.elements,
  get_or-length_append 16 raw payload status 0 k,
  payload_read,
)
  where
    payload_read : slice_from m.view 21 ≡ payload
    payload_read =
        slice_from_reads m (be32 word ++ (raw ++ (status ∷ []))) payload
          (ap (λ t. be32 word ++ t) (sym (append_assoc raw (status ∷ []) payload)))
          (omega (arith, length-append raw (status ∷ [])))

-- `out[3] = opcode; out.set(id, 4)` on an array of 21 zeros and more.
id_stored :
    (opcode : ℕ) (raw : List ℕ) (n : ℕ)
    → length raw ≡ 16
    → set (store (zeros (21 + n)) 3 opcode) raw 4
      ≡ ok (0 ∷ 0 ∷ 0 ∷ (opcode % 256) ∷ (raw ++ (0 ∷ zeros n)))
unfolding set
id_stored opcode raw n k =
    let room : 4 + length raw ≤ length (store (zeros 21 ++ zeros n) 3 opcode) = omega arith in
    rw (replicate-add {A = ℕ} 21 n 0, le→leb _ _ room, k)

-- `out[20] = status`.
status_stored :
    (a b c d : ℕ) (raw rest : List ℕ) (status : ℕ)
    → length raw ≡ 16
    → store (a ∷ b ∷ c ∷ d ∷ (raw ++ (0 ∷ rest))) 20 status
      ≡ a ∷ b ∷ c ∷ d ∷ (raw ++ ((status % 256) ∷ rest))
status_stored a b c d raw rest status k =
    overwrite-append 20 (a ∷ b ∷ c ∷ d ∷ raw) (0 ∷ []) rest ((status % 256) ∷ []) (omega arith) refl

-- `out.set(payload, 21)` on the zeros behind the status.
payload_stored :
    (a b c d : ℕ) (raw payload : List ℕ) (status : ℕ)
    → length raw ≡ 16
    → set (a ∷ b ∷ c ∷ d ∷ (raw ++ (status ∷ zeros (length payload)))) payload 21
      ≡ ok (a ∷ b ∷ c ∷ d ∷ (raw ++ (status ∷ payload)))
unfolding set
payload_stored a b c d raw payload status k =
    let before : List ℕ = a ∷ b ∷ c ∷ d ∷ (raw ++ (status ∷ [])) in
    let tail : List ℕ = zeros (length payload) in
    let same : length payload ≡ length tail = sym (length-replicate (length payload) 0) in
    let room : 21 + length payload ≤ length (a ∷ b ∷ c ∷ d ∷ (raw ++ (status ∷ tail))) =
      omega (arith, length-append raw (status ∷ tail), same) in
    let joined : (xs : List ℕ) → raw ++ (status ∷ xs) ≡ (raw ++ (status ∷ [])) ++ xs =
      λ xs. sym (append_assoc raw (status ∷ []) xs) in
    rw (le→leb _ _ room) (
      ap ok (
        ap (λ t. overwrite (a ∷ b ∷ c ∷ d ∷ t) 21 payload)
          (joined tail ∙ ap (λ t. (raw ++ (status ∷ [])) ++ t) (sym (append-nil tail)))
        ∙ overwrite-append 21 before tail [] payload
            (omega (arith, length-append raw (status ∷ []))) same
        ∙ ap (λ t. a ∷ b ∷ c ∷ d ∷ t)
            (ap (λ t. (raw ++ (status ∷ [])) ++ t) (append-nil payload) ∙ sym (joined payload))))

be32-byte : (opcode : ℕ) → opcode < 256 → be32 opcode ≡ 0 ∷ 0 ∷ 0 ∷ (opcode % 256) ∷ []
unfolding be32
be32-byte opcode h = ground arith

status_byte-mod : (b : Bool) → status_byte b % 256 ≡ status_byte b
status_byte-mod true = refl
status_byte-mod false = refl

pub build_status_response-layout :
    {id : Value} {raw : List ℕ} {e e₁ : Entropy} (opcode : ℕ) (success : Bool)
    → opcode < 256
    → Identifies id e raw e₁
    → build_status_response opcode id success e
      ≡ ok (layout opcode raw (status_byte success) [], e₁)
unfolding build_status_response
build_status_response-layout {raw = raw} opcode success h hi =
    let stored : set (store (zeros 21) 3 opcode) raw 4
        ≡ ok (0 ∷ 0 ∷ 0 ∷ (opcode % 256) ∷ (raw ++ (0 ∷ []))) =
      id_stored opcode raw 0 hi.sixteen in
    rw (
      hi.normalized,
      hi.elements,
      stored,
      status_stored 0 0 0 (opcode % 256) raw [] (status_byte success) hi.sixteen,
      be32-byte opcode h,
      status_byte-mod success,
    )

pub build_success_data_response-layout :
    {id payload : Value} {raw payload' : List ℕ} {e e₁ : Entropy} (opcode : ℕ)
    → opcode < 256
    → Identifies id e raw e₁
    → Converts payload payload'
    → build_success_data_response opcode id payload e ≡ ok (layout opcode raw 0x01 payload', e₁)
unfolding build_success_data_response
build_success_data_response-layout {raw = raw} {payload' = payload'} opcode h hi hp = rw (
  hp.converted,
  hp.elements,
  Converts-byte_length hp,
  hi.normalized,
  hi.elements,
  id_stored opcode raw (length payload') hi.sixteen,
  status_stored 0 0 0 (opcode % 256) raw (zeros (length payload')) 0x01 hi.sixteen,
  payload_stored 0 0 0 (opcode % 256) raw payload' 0x01 hi.sixteen,
  be32-byte opcode h,
)

-- What a reader sees of the status byte.
status_byte-ok : (b : Bool) → (status_byte b == 0x01) ≡ b
status_byte-ok true = refl
status_byte-ok false = refl

-- `parseStatusResponse` reads back the opcode, if it is a byte, the id and the outcome that
-- `buildStatusResponse` wrote, with an empty payload. The id is one that `normalizeId` accepts.
pub parse-build_status_response :
    {id : Value} {raw : List ℕ} {e e₁ : Entropy} (opcode : ℕ) (success : Bool) (label : String)
    → opcode < 256
    → Identifies id e raw e₁
    → (build_status_response opcode id success e >>= λ (frame, _).
        parse_status_response (part frame) label)
      ≡ ok (record {
        opcode = opcode;
        id = raw;
        status = status_byte success;
        is_ok = success;
        payload = [];
      })
parse-build_status_response opcode success label h hi =
    let e : opcode % 256 ≡ opcode = omega arith in
    rw (build_status_response-layout opcode success h hi) (
      parse_status_response_accepts opcode _ _ [] label (Converts-part _) (omega arith) hi.sixteen
      ∙ rw (e, status_byte-ok success))

pub parse_success_data_response_accepts :
    {message : Value} (word : ℕ) (raw : List ℕ) (status : ℕ) (payload : List ℕ) (label : String)
    → Converts message (layout word raw status payload)
    → word < 2 ^ 32
    → length raw ≡ 16
    → parse_success_data_response message label
      ≡ ok (record {
        response = record {
          opcode = low_byte word;
          id = raw;
          status = status;
          is_ok = status == 0x01;
          payload = payload;
        };
        payload_data = payload;
        text = decode payload;
      })
unfolding parse_success_data_response utf8_text to_uint8_array
parse_success_data_response_accepts word raw status payload label m fits k =
    rw
      (parse_status_response_accepts word raw status payload label m fits k, contents-fresh payload)

-- `parseSuccessDataResponse` reads back the opcode, if it is a byte, the id, the success and the
-- payload that `buildSuccessDataResponse` wrote, the payload also as text. Each argument is one
-- that `toUint8Array` accepts, and the id one that `normalizeId` accepts.
pub parse-build_success_data_response :
    {id payload : Value} {raw payload' : List ℕ} {e e₁ : Entropy} (opcode : ℕ) (label : String)
    → opcode < 256
    → Identifies id e raw e₁
    → Converts payload payload'
    → (build_success_data_response opcode id payload e >>= λ (frame, _).
        parse_success_data_response (part frame) label)
      ≡ ok (record {
        response = record {
          opcode = opcode;
          id = raw;
          status = 0x01;
          is_ok = true;
          payload = payload';
        };
        payload_data = payload';
        text = decode payload';
      })
parse-build_success_data_response {raw = raw} {payload' = payload'} opcode label h hi hp =
    let e : opcode % 256 ≡ opcode = omega arith in
    rw (
      build_success_data_response-layout opcode h hi hp,
      parse_success_data_response_accepts opcode raw 0x01 payload' label (Converts-part _)
          (omega arith) hi.sixteen,
      e,
    )
