-- ===== src/Prelude/Maps.antt =====
-- Maps whose keys are lists of numbers, as association lists, with `none` for a missing key.
use Prim.Native.Nat.{ℕ}
use mathlib.Core.Path.{◌≡◌, ◌∙◌, refl, ap, sym}
use mathlib.Core.Logic.{inl, inr}
use mathlib.Core.Bool.{Bool, true, false, ◌&&◌}
use mathlib.Core.Option.{Option, none, some}
use mathlib.Core.List.{List, [], ◌∷◌}
use native.Mathlib.Omega.{arith}
use diarsaba_go.Prelude.Tests.{◌==◌, if◌then◌else◌, Bool-cases}

unfoldable pub same_key : List ℕ → List ℕ → Bool
same_key [] [] = true
same_key [] (b ∷ ys) = false
same_key (a ∷ xs) [] = false
same_key (a ∷ xs) (b ∷ ys) = a == b && same_key xs ys

unfoldable pub lookup {ℓ} : {V : Type ℓ} → List ℕ → List (List ℕ × V) → Option V
lookup key [] = none
lookup key ((k, v) ∷ rest) = let later = lookup key rest in if same_key k key then some v else later

unfoldable pub delete {ℓ} : {V : Type ℓ} → List ℕ → List (List ℕ × V) → List (List ℕ × V)
delete key [] = []
delete key ((k, v) ∷ rest) =
    let others = delete key rest in if same_key k key then others else (k, v) ∷ others

-- A new value takes the place of an old one.
unfoldable pub put {ℓ} : {V : Type ℓ} → List ℕ → V → List (List ℕ × V) → List (List ℕ × V)
unfolding delete
put key v map = (key, v) ∷ delete key map

pub same_key_refl : (key : List ℕ) → same_key key key ≡ true
unfolding same_key
same_key_refl [] = refl
same_key_refl (a ∷ xs) = ground (arith, same_key_refl xs)

pub same_key→eq : (j k : List ℕ) → same_key j k ≡ true → j ≡ k
unfolding same_key
same_key→eq [] [] h = refl
same_key→eq [] (b ∷ ys) h = cc
same_key→eq (a ∷ xs) [] h = cc
same_key→eq (a ∷ xs) (b ∷ ys) h = ground (arith, same_key→eq xs ys)

pub lookup-front {ℓ} :
    {V : Type ℓ} (key : List ℕ) (v : V) (map : List (List ℕ × V))
    → lookup key ((key, v) ∷ map) ≡ some v
unfolding lookup
lookup-front key v map = rw (same_key_refl key) refl

pub lookup-behind {ℓ} :
    {V : Type ℓ} (j key : List ℕ) (v : V) (map : List (List ℕ × V))
    → same_key j key ≡ false
    → lookup key ((j, v) ∷ map) ≡ lookup key map
unfolding lookup
lookup-behind j key v map h = rw h refl

module _ {ℓ} {V : Type ℓ} where
  pub lookup-delete : (key : List ℕ) (l : List (List ℕ × V)) → lookup key (delete key l) ≡ none
  unfolding lookup delete
  lookup-delete key [] = refl
  lookup-delete key ((k, p) ∷ rest) = elim (Bool-cases (same_key k key)) [
    | inl e ↦ rw e (lookup-delete key rest)
    | inr e ↦ rw (e, e) (lookup-delete key rest)
  ]

  pub lookup-delete_other :
      (j key : List ℕ) (l : List (List ℕ × V))
      → same_key j key ≡ false
      → lookup key (delete j l) ≡ lookup key l
  unfolding lookup delete
  lookup-delete_other j key [] h = refl
  lookup-delete_other j key ((k, p) ∷ rest) h = elim (Bool-cases (same_key k j)) [
    | inl e ↦
        let differs : same_key k key ≡ false = ap (λ i. same_key i key) (same_key→eq k j e) ∙ h in
        rw (e, differs) (lookup-delete_other j key rest h)
    | inr e ↦ elim (Bool-cases (same_key k key)) [
      | inl f ↦ rw (e, f) refl
      | inr f ↦ rw (e, f) (lookup-delete_other j key rest h)
    ]
  ]

  -- Where no entry is found, a deletion leaves it so.
  pub lookup-delete-none :
      (j key : List ℕ) (l : List (List ℕ × V))
      → lookup key l ≡ none
      → lookup key (delete j l) ≡ none
  lookup-delete-none j key l h = elim (Bool-cases (same_key j key)) [
    | inl e ↦ ap (λ i. lookup i (delete j l)) (sym (same_key→eq j key e)) ∙ lookup-delete j l
    | inr e ↦ lookup-delete_other j key l e ∙ h
  ]

  pub lookup-put :
      (key : List ℕ) (v : V) (map : List (List ℕ × V)) → lookup key (put key v map) ≡ some v
  unfolding put
  lookup-put key v map = lookup-front key v (delete key map)

  pub lookup-put_other :
      (j key : List ℕ) (v : V) (map : List (List ℕ × V))
      → same_key j key ≡ false
      → lookup key (put j v map) ≡ lookup key map
  unfolding put
  lookup-put_other j key v map h =
      lookup-behind j key v (delete j map) h ∙ lookup-delete_other j key map h
