-- ===== src/Go/Cuts.antt =====
-- Where strings.SplitN and strings.TrimPrefix, as server.go calls them, cut a text.
use diarsaba_go.Prelude.{
  ℕ, ◌+◌, ◌≡◌, ◌⊎◌, inl, inr, refl, ap, ◌∙◌, List, [], ◌∷◌, ◌++◌, length, take, drop, drop-drop,
  Option, none, some, ◌==◌, Bool-cases, ==_iff, take-length_append, drop-length_append,
}
use diarsaba_go.Js.Strings.{index_of}
use diarsaba_go.Js.Strings.Laws.{Lacks, index_of-append, index_of-inv}
use diarsaba_go.Go.{trim_prefix, cut_at, cut}

-- The first separator cuts a text.
pub cut-append : (c : ℕ) (s rest : List ℕ) → Lacks c s → cut c (s ++ (c ∷ rest)) ≡ some (s, rest)
unfolding cut
cut-append c s rest h =
    let behind : drop (length s + 1) (s ++ (c ∷ rest)) ≡ rest =
      ap (drop (length s + 1)) refl
      ∙ (rw (← drop-drop 1 (length s) (s ++ (c ∷ rest)))
          (ap (drop 1) (drop-length_append (length s) s (c ∷ rest) refl))) in
    rw (index_of-append c s rest h, take-length_append (length s) s (c ∷ rest) refl, behind) refl

cut_at-inv :
    (c : ℕ) (s before behind : List ℕ) (found : Option ℕ)
    → index_of c s ≡ found
    → cut_at s found ≡ some (before, behind)
    → Lacks c before × (s ≡ before ++ (c ∷ behind))
unfolding cut_at
cut_at-inv c s before behind none f e = cc
cut_at-inv c s before behind (some i) f e =
    let same : take i s ≡ before = cc in
    let same' : drop (i + 1) s ≡ behind = cc in rw (← same, ← same') (index_of-inv c s i f)

pub cut-inv :
    (c : ℕ) (s before behind : List ℕ)
    → cut c s ≡ some (before, behind)
    → Lacks c before × (s ≡ before ++ (c ∷ behind))
unfolding cut
cut-inv c s before behind e = cut_at-inv c s before behind (index_of c s) refl e

-- What is cut off in front is the character, or nothing.
pub trim_prefix-inv :
    (c : ℕ) (s : List ℕ)
    → (front : List ℕ) × ((front ≡ []) ⊎ (front ≡ c ∷ [])) × (s ≡ front ++ trim_prefix c s)
unfolding trim_prefix
trim_prefix-inv c [] = ([], inl refl, refl)
trim_prefix-inv c (b ∷ s) = elim (Bool-cases (b == c)) [
  | inl e ↦ let same : b ≡ c = (==_iff b c).0 e in rw e (c ∷ [], inr refl, ap (λ k. k ∷ s) same)
  | inr e ↦ rw e ([], inl refl, refl)
]
