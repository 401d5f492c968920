-- ===== src/Common/Concat/Laws.antt =====
-- `concatBytes` writes its parts one after the other.
use diarsaba_go.Prelude.{
  ℕ, zero, suc, ◌+◌, ◌-◌, ◌^◌, ◌≤◌, ◌<◌, ◌≡◌, refl, ap, ◌∙◌, List, [], ◌∷◌, ◌++◌, length,
  append_assoc, length-append, length-replicate, le→leb, take-length_append, drop-length_append,
  drop-drop, drop-replicate, arith,
}
use diarsaba_go.Js.Result.{ok}
use diarsaba_go.Js.Number.{ℤ, pos, be32, to_uint32, to_uint32-pos}
use diarsaba_go.Js.Bytes.{View, zeros, set}
use diarsaba_go.Common.Value.{Value, part, Converts, Converts-byte_length, Converts-part}
use diarsaba_go.Common.Convert.{u32_bytes, u32_bytes-be32}
use diarsaba_go.Common.Concat.{normalized, total_length, fill, concat_bytes, build_opcode_message}

-- The arguments of a call, each with the bytes that it stands for.
pub data Parts : List Value → List (List ℕ) → Type 0 where
  done : Parts [] []
  next :
      {p : Value} {ps : List Value} {x : List ℕ} {xs : List (List ℕ)}
      → Converts p x
      → Parts ps xs
      → Parts (p ∷ ps) (x ∷ xs)

abbrev pub joined : List (List ℕ) → List ℕ
joined [] = []
joined (x ∷ xs) = x ++ joined xs

views : {ps : List Value} {xs : List (List ℕ)} → Parts ps xs → List View
views done = []
views (next h t) = h.view ∷ views t

normalized-views :
    {ps : List Value} {xs : List (List ℕ)} (h : Parts ps xs) → normalized ps ≡ ok (views h)
unfolding normalized views
normalized-views done = refl
normalized-views (next h t) = rw (h.converted, normalized-views t)

total_length-views :
    {ps : List Value} {xs : List (List ℕ)} (sum : ℕ) (h : Parts ps xs)
    → total_length sum (views h) ≡ sum + length (joined xs)
unfolding total_length views
total_length-views sum done = omega arith
total_length-views sum (next {x = x} {xs = xs} h t) =
    total_length-views (sum + h.view.byte_length) t
    ∙ omega (arith, Converts-byte_length h, length-append x (joined xs))

-- A write at the end of what is written already.
set_at_end :
    (front src : List ℕ) (n : ℕ)
    → length src ≤ n
    → set (front ++ zeros n) src (length front) ≡ ok ((front ++ src) ++ zeros (n - length src))
unfolding set
set_at_end front src n h =
    let room : length front + length src ≤ length (front ++ zeros n) =
      omega (arith, length-append front (zeros n), length-replicate {A = ℕ} n 0) in
    rw (
      le→leb _ _ room,
      take-length_append (length front) front (zeros n) refl,
      ← drop-drop (length src) (length front) (front ++ zeros n),
      drop-length_append (length front) front (zeros n) refl,
      drop-replicate,
      append_assoc,
    )

fill-views :
    {ps : List Value} {xs : List (List ℕ)} (front : List ℕ) (n : ℕ) (h : Parts ps xs)
    → n ≡ length (joined xs)
    → fill (front ++ zeros n) (length front) (views h) ≡ ok (front ++ joined xs)
unfolding fill views
fill-views front zero done e = refl
fill-views front (suc n) done e = absurd (omega arith)
fill-views front n (next {x = x} {xs = xs} h t) e =
    let fits : length x ≤ n = omega (arith, length-append x (joined xs)) in
    rw (h.elements, set_at_end front x n fits, Converts-byte_length h, ← length-append front x)
      (fill-views (front ++ x) (n - length x) t (omega (arith, length-append x (joined xs)))
        ∙ ap ok (append_assoc front x (joined xs)))

-- `concatBytes` gives the bytes of its arguments in order, with nothing between them, where
-- `toUint8Array` accepts each; none of its writes is out of range.
pub concat_bytes-Parts :
    {ps : List Value} {xs : List (List ℕ)} → Parts ps xs → concat_bytes ps ≡ ok (joined xs)
unfolding concat_bytes
concat_bytes-Parts h =
    rw (normalized-views h) (fill-views [] _ h (total_length-views 0 h ∙ omega arith))

pub build_opcode_message-Parts :
    (opcode : ℕ) {ps : List Value} {xs : List (List ℕ)}
    → Parts ps xs
    → opcode < 2 ^ 32
    → build_opcode_message opcode ps ≡ ok (be32 opcode ++ joined xs)
unfolding build_opcode_message
build_opcode_message-Parts opcode h k =
    concat_bytes-Parts (next (Converts-part _) h) ∙ rw (u32_bytes-be32, to_uint32-pos opcode k)

-- A word among the parts, and a length that a word announces.
pub Converts-u32_bytes : (v : ℤ) → Converts (part (u32_bytes v)) (be32 (to_uint32 v))
Converts-u32_bytes v = rw (← u32_bytes-be32 v) (Converts-part (u32_bytes v))

pub Converts-size :
    {value : Value} {xs : List ℕ} (h : Converts value xs)
    → length xs < 2 ^ 32
    → Converts (part (u32_bytes (pos h.view.byte_length))) (be32 (length xs))
Converts-size {xs = xs} h k =
    rw (Converts-byte_length h)
      (rw (to_uint32-pos (length xs) k) at (Converts-u32_bytes (pos (length xs))))
