-- ===== src/Js/Strings/Laws.antt =====
-- Splitting takes apart what joining put together.
use diarsaba_go.Prelude.{
  ℕ, zero, suc, ◌+◌, ◌≡◌, ◌≢◌, inl, inr, refl, ap, ◌∙◌, List, [], ◌∷◌, ◌++◌, length, take, drop,
  All, Option, none, some, false, ◌==◌, ==_iff, Bool-cases, arith,
}
use diarsaba_go.Js.Strings.{push_front, split, filter_nonempty, join, succ_index, index_of}

-- The character `c` does not occur in `s`.
abbrev pub Lacks : ℕ → List ℕ → Type 0
Lacks c s = All (λ u. u ≢ c) s

split-Lacks : (c : ℕ) (s : List ℕ) → Lacks c s → split c s ≡ s ∷ []
unfolding split push_front
split-Lacks c [] h = refl
split-Lacks c (u ∷ s) h = ground (arith, split-Lacks c s h.1)

split-append : (c : ℕ) (s rest : List ℕ) → Lacks c s → split c (s ++ (c ∷ rest)) ≡ s ∷ split c rest
unfolding split push_front
split-append c [] rest h = ground arith
split-append c (u ∷ s) rest h = ground (arith, split-append c s rest h.1)

-- The pieces that are joined come back, if there is one at least and none holds the separator.
pub split-join :
    (c : ℕ) (s : List ℕ) (rest : List (List ℕ))
    → All (Lacks c) (s ∷ rest)
    → split c (join c (s ∷ rest)) ≡ s ∷ rest
unfolding join
split-join c s [] h = split-Lacks c s h.0
split-join c s (t ∷ rest) h =
    split-append c s (join c (t ∷ rest)) h.0 ∙ ap (λ r. s ∷ r) (split-join c t rest h.1)

pub filter_nonempty-of_nonempty :
    (ss : List (List ℕ)) → All (λ s. s ≢ []) ss → filter_nonempty ss ≡ ss
unfolding filter_nonempty
filter_nonempty-of_nonempty [] h = refl
filter_nonempty-of_nonempty ([] ∷ rest) h = absurd (h.0 refl)
filter_nonempty-of_nonempty ((u ∷ s) ∷ rest) h =
    ap (λ r. (u ∷ s) ∷ r) (filter_nonempty-of_nonempty rest h.1)

pub index_of-append :
    (c : ℕ) (s rest : List ℕ) → Lacks c s → index_of c (s ++ (c ∷ rest)) ≡ some (length s)
unfolding index_of succ_index
index_of-append c [] rest h = ground arith
index_of-append c (u ∷ s) rest h = ground (arith, index_of-append c s rest h.1)

pub index_of-Lacks : (c : ℕ) (s : List ℕ) → Lacks c s → index_of c s ≡ none
unfolding index_of succ_index
index_of-Lacks c [] h = refl
index_of-Lacks c (u ∷ s) h = ground (arith, index_of-Lacks c s h.1)

pub join-nonempty : (c : ℕ) (s : List ℕ) (rest : List (List ℕ)) → s ≢ [] → join c (s ∷ rest) ≢ []
unfolding join
join-nonempty c s [] h = h
join-nonempty c [] (t ∷ rest) h = absurd (h refl)
join-nonempty c (u ∷ s) (t ∷ rest) h = λ e. cc

found-inv :
    (c b : ℕ) (s : List ℕ) (i : ℕ) (later : Option ℕ)
    → (b == c) ≡ false
    → ((j : ℕ) → later ≡ some j → Lacks c (take j s) × (s ≡ take j s ++ (c ∷ drop (j + 1) s)))
    → succ_index later ≡ some i
    → Lacks c (take i (b ∷ s)) × (b ∷ s ≡ take i (b ∷ s) ++ (c ∷ drop (i + 1) (b ∷ s)))
unfolding succ_index
found-inv c b s i none d h e = cc
found-inv c b s zero (some j) d h e = absurd (ground arith)
found-inv c b s (suc i) (some j) d h e =
    let same : j ≡ i = ground (arith, e) in
    let (lacks, joined) = h i (ap some same) in
    let next : suc i + 1 ≡ suc (i + 1) = omega arith in
    ((ground arith, lacks), rw next (ap (λ t. b ∷ t) joined))

-- The first index cuts the text into what holds no such character and what stands behind it.
pub index_of-inv :
    (c : ℕ) (s : List ℕ) (i : ℕ)
    → index_of c s ≡ some i
    → Lacks c (take i s) × (s ≡ take i s ++ (c ∷ drop (i + 1) s))
unfolding index_of
index_of-inv c [] i e = cc
index_of-inv c (b ∷ s) i e = elim (Bool-cases (b == c)) [
  | inl f ↦
      let start : some 0 ≡ some i = rw f at e in
      let same : i ≡ 0 = ground (arith, start) in rw same (tt, ap (λ k. k ∷ s) ((==_iff b c).0 f))
  | inr f ↦ found-inv c b s i (index_of c s) f (λ j k. index_of-inv c s j k) (rw f at e)
]
