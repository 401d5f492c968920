-- ===== src/Page/Inspect.antt =====
-- What cards/index.html makes of the frames that the program and the protocols send it.
use diarsaba_go.Prelude.{
  ℕ, ◌+◌, ◌*◌, ◌/◌, ◌%◌, ◌^◌, ◌≤◌, ◌<◌, ◌≡◌, refl, ap, sym, ◌∙◌, List, [], ◌∷◌, ◌++◌, length, drop,
  get_or, some, true, false, All, ◌&&◌, ◌||◌, ◌==◌, ltb, leb, lookup, delete, drop-length_append,
  length-append, get_or-append, take-length_append, drop-length_append, append_assoc, arith,
}
use diarsaba_go.Js.Number.{IsByte, be32, word32, word32-be32}
use diarsaba_go.Js.Strings.Numerals.{decimal}
use diarsaba_go.Page.Op
use diarsaba_go.Page.{
  Pending, opcode_name, short_hex, read_u32, low_byte, frame_opcode, is_known, is_opcode_frame,
  extract_response_id, consume_pending,
}
use diarsaba_go.Page.Texts.{line}
use diarsaba_go.Page.Frames.{
  true_or_false, samsara_lines, result_lines, parse_samsara_result, word_or_zero, inspect_response,
  consume_response, inspect_opcode, inspect_incoming_frame,
}

read_u32-front :
    (a b c k : ℕ) (rest : List ℕ) → read_u32 (a ∷ b ∷ c ∷ k ∷ rest) 0 ≡ some (word32 a b c k)
unfolding read_u32
read_u32-front a b c k rest = ground arith

pub frame_opcode-front :
    (a b c k : ℕ) (rest : List ℕ) → IsByte k → frame_opcode (a ∷ b ∷ c ∷ k ∷ rest) ≡ some k
frame_opcode-front a b c k rest h =
    let low : (a * 2 ^ 24 + b * 2 ^ 16 + c * 2 ^ 8 + k) % 256 ≡ k = omega arith in
    unfold frame_opcode in
    unfold low_byte in rw (read_u32-front a b c k rest) (ap some (unfold word32 in low))

-- A word behind the bytes `before`.
pub read_u32-behind :
    (before rest : List ℕ) (w : ℕ) {n : ℕ}
    → length before ≡ n
    → w < 2 ^ 32
    → read_u32 (before ++ (be32 w ++ rest)) n ≡ some w
unfolding read_u32 be32
read_u32-behind before rest w {n} h k =
    let behind = before ++ (be32 w ++ rest) in
    let long : ltb (length behind) (n + 4) ≡ false =
      ground (arith, length-append before (be32 w ++ rest)) in
    let at_0 : get_or behind n 0 ≡ w / 2 ^ 24 % 256 =
      ap (λ i. get_or behind i 0) (let e : n ≡ n + 0 = omega arith in e)
      ∙ get_or-append n 0 before (be32 w ++ rest) 0 h in
    rw
      (
        long,
        at_0,
        get_or-append n 1 before (be32 w ++ rest) 0 h,
        get_or-append n 2 before (be32 w ++ rest) 0 h,
        get_or-append n 3 before (be32 w ++ rest) 0 h,
        word32-be32 w k,
      )
      refl

pub frame_opcode-id :
    (raw rest : List ℕ)
    → 4 ≤ length raw
    → All IsByte raw
    → frame_opcode (raw ++ rest) ≡ some (get_or raw 3 0)
frame_opcode-id [] rest h p = absurd (omega arith)
frame_opcode-id (a ∷ []) rest h p = absurd (omega arith)
frame_opcode-id (a ∷ b ∷ []) rest h p = absurd (omega arith)
frame_opcode-id (a ∷ b ∷ c ∷ []) rest h p = absurd (omega arith)
frame_opcode-id (a ∷ b ∷ c ∷ k ∷ ids) rest h p = frame_opcode-front a b c k (ids ++ rest) p.1.1.1.0

pub inspect_incoming_frame-opcode :
    (frame : List ℕ) (pending : Pending)
    → 0 < length frame
    → inspect_incoming_frame frame pending ≡ inspect_opcode frame (frame_opcode frame) pending
unfolding inspect_incoming_frame
inspect_incoming_frame-opcode [] pending h = absurd (omega arith)
inspect_incoming_frame-opcode (b ∷ rest) pending h = refl

-- A frame that starts with an id of sixteen bytes, the fourth of which is no opcode.
module _ (raw : List ℕ) (bytes : All IsByte raw) (sixteen : length raw ≡ 16)
    (unknown : is_known (some (get_or raw 3 0)) ≡ false) (tail : List ℕ)
    (four : 4 ≤ length tail) where
  id_in_front : extract_response_id (raw ++ tail) ≡ some raw
  unfolding extract_response_id is_opcode_frame
  id_in_front =
      let long : ltb (length (raw ++ tail)) 20 ≡ false = ground (arith, length-append raw tail) in
      rw
        (
          long,
          frame_opcode-id raw tail (omega arith) bytes,
          unknown,
          take-length_append 16 raw tail sixteen,
        )
        refl

  pub inspect_incoming_frame-id_first :
      (opcode : ℕ) (pending : Pending)
      → lookup (short_hex raw) pending ≡ some opcode
      → inspect_incoming_frame (raw ++ tail) pending
        ≡ (inspect_response (raw ++ tail) (some opcode), delete (short_hex raw) pending)
  inspect_incoming_frame-id_first opcode pending waits =
      let found : consume_response (extract_response_id (raw ++ tail)) pending
          ≡ (some opcode, delete (short_hex raw) pending) =
        ap (λ i. consume_response i pending) id_in_front
        ∙ (unfold consume_response consume_pending in rw waits refl) in
      inspect_incoming_frame-opcode (raw ++ tail) pending (omega (arith, length-append raw tail))
      ∙ (rw (frame_opcode-id raw tail (omega arith) bytes)
          (unfold inspect_opcode in rw (unknown, found) refl))

-- The lines that follow a Samsara response's status.
pub samsara_frame :
    (raw body : List ℕ) (opcode status : ℕ)
    → length raw ≡ 16
    → status < 2 ^ 32
    → parse_samsara_result (raw ++ (be32 status ++ body)) opcode
      ≡ samsara_lines (raw ++ (be32 status ++ body)) opcode status
unfolding parse_samsara_result
samsara_frame raw body opcode status h k =
    let long : ltb (length (raw ++ (be32 status ++ body))) 20 ≡ false =
      unfold be32 in ground (arith, length-append raw (be32 status ++ body)) in
    rw (long, read_u32-behind raw body status h k) (unfold word_or_zero in refl)

-- Behind the status.
pub drop-head :
    (raw body : List ℕ) (status : ℕ)
    → length raw ≡ 16
    → drop 20 (raw ++ (be32 status ++ body)) ≡ body
unfolding be32
drop-head raw body status h =
    ap (drop 20) (sym (append_assoc raw (be32 status) body))
    ∙ drop-length_append 20 (raw ++ be32 status) body
        (omega (arith, length-append raw (be32 status)))

pub inspected :
    (raw body : List ℕ) (status opcode : ℕ) (pending : Pending)
    → All IsByte raw
    → length raw ≡ 16
    → is_known (some (get_or raw 3 0)) ≡ false
    → lookup (short_hex raw) pending ≡ some opcode
    → status ≤ 1
    → (leb Op.create_db opcode && leb opcode Op.cruzar) ≡ true
    → inspect_incoming_frame (raw ++ (be32 status ++ body)) pending ≡ (
      record {
        title = opcode_name opcode;
        lines =
            line "opcode" (opcode_name opcode)
            ∷ line "id" (short_hex raw)
            ∷ line "status" (decimal status)
            ∷ line "ok" (true_or_false (status == 1))
            ∷ result_lines (raw ++ (be32 status ++ body)) opcode;
      },
      delete (short_hex raw) pending,
    )
inspected raw body status opcode pending bytes sixteen unknown waits low ranged =
    let frame = raw ++ (be32 status ++ body) in
    let done : (status == 0 || status == 1) ≡ true = ground arith in
    let four : 4 ≤ length (be32 status ++ body) = unfold be32 in omega arith in
    let parsed : parse_samsara_result frame opcode
        ≡ line "opcode" (opcode_name opcode)
          ∷ line "id" (short_hex raw)
          ∷ line "status" (decimal status)
          ∷ line "ok" (true_or_false (status == 1))
          ∷ result_lines frame opcode =
      samsara_frame raw body opcode status sixteen (omega arith)
      ∙ (unfold samsara_lines in
          rw (done, take-length_append 16 raw (be32 status ++ body) sixteen) refl) in
    rw
      (inspect_incoming_frame-id_first raw bytes sixteen unknown (be32 status ++ body) four opcode
        pending waits)
      (unfold inspect_response in rw (ranged, parsed) refl)
