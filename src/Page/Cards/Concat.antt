-- ===== src/Page/Cards/Concat.antt =====
-- `concat` of cards/index.html writes its parts one after the other.
use diarsaba_go.Prelude.{
  ℕ, ◌+◌, ◌-◌, ◌^◌, ◌<◌, ◌≡◌, refl, ◌∙◌, List, [], ◌∷◌, ◌++◌, length, overwrite, append_assoc,
  append-nil, length-append, take-length_append, drop-length_append, drop-drop, drop-replicate,
  arith,
}
use diarsaba_go.Js.Number.{pos, be32, to_uint32-pos}
use diarsaba_go.Js.Bytes.{zeros}
use diarsaba_go.Common.Concat.Laws.{joined}
use diarsaba_go.Page.Cards.{total, placed, concat, u32, build_request_frame}

total-length : (sum : ℕ) (parts : List (List ℕ)) → total sum parts ≡ sum + length (joined parts)
unfolding total
total-length sum [] = omega arith
total-length sum (part ∷ parts) =
    total-length (sum + length part) parts ∙ omega (arith, length-append part (joined parts))

-- A write at the end of what is written already.
overwrite_at_end :
    (front part : List ℕ) (n : ℕ)
    → overwrite (front ++ zeros n) (length front) part ≡ (front ++ part) ++ zeros (n - length part)
overwrite_at_end front part n =
    rw
      (
        take-length_append (length front) front (zeros n) refl,
        ← drop-drop (length part) (length front) (front ++ zeros n),
        drop-length_append (length front) front (zeros n) refl,
        drop-replicate (length part) n (let z : ℕ = 0 in z),
        append_assoc front part (zeros (n - length part)),
      )
      refl

placed-joined :
    (front : List ℕ) (parts : List (List ℕ)) (n : ℕ)
    → length (joined parts) ≡ n
    → placed (front ++ zeros n) (length front) parts ≡ front ++ joined parts
unfolding placed
placed-joined front [] n h = let none_left : n ≡ 0 = omega arith in rw none_left refl
placed-joined front (part ∷ parts) n h =
    let left : length (joined parts) ≡ n - length part =
      omega (arith, length-append part (joined parts)) in
    rw (overwrite_at_end front part n, ← length-append front part)
      (placed-joined (front ++ part) parts (n - length part) left
        ∙ append_assoc front part (joined parts))

-- `concat` is the parts one after the other.
pub concat-joined : (parts : List (List ℕ)) → concat parts ≡ joined parts
unfolding concat
concat-joined parts =
    placed-joined [] parts (total 0 parts) (let e = total-length 0 parts in omega (arith, e))

pub build_request_frame-append :
    (opcode : ℕ) (id payload : List ℕ)
    → opcode < 2 ^ 32
    → build_request_frame opcode id payload ≡ be32 opcode ++ (id ++ payload)
unfolding build_request_frame
build_request_frame-append opcode id payload h =
    rw
      (
        concat-joined (u32 (pos opcode) ∷ id ∷ payload ∷ []),
        to_uint32-pos opcode h,
        append-nil payload,
      )
      refl
