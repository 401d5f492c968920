-- ===== src/Prelude/Lists.antt =====
-- Lists measured and indexed by native numbers, under the library's names.
use Prim.Native.Nat.{ℕ, zero, suc, ◌+◌, ◌-◌, ◌≤◌, min}
use mathlib.Core.Path.{◌≡◌, refl, ap, sym, ◌∙◌}
use mathlib.Core.List.{List, [], ◌∷◌, ◌++◌}
use native.Mathlib.Omega.{arith}

module _ {ℓ} {A : Type ℓ} where
  abbrev pub length : List A → ℕ
  length [] = 0
  length (x ∷ xs) = suc (length xs)

  abbrev pub get_or : List A → ℕ → A → A
  get_or [] i d = d
  get_or (x ∷ xs) zero d = x
  get_or (x ∷ xs) (suc i) d = get_or xs i d

  abbrev pub take : ℕ → List A → List A
  take zero xs = []
  take (suc n) [] = []
  take (suc n) (x ∷ xs) = x ∷ take n xs

  abbrev pub drop : ℕ → List A → List A
  drop zero xs = xs
  drop (suc n) [] = []
  drop (suc n) (x ∷ xs) = drop n xs

  abbrev pub replicate : ℕ → A → List A
  replicate zero a = []
  replicate (suc n) a = a ∷ replicate n a

  abbrev pub All {κ} : (A → Type κ) → List A → Type κ
  All P [] = Unit {κ}
  All P (x ∷ xs) = P x × All P xs

  -- `out` with `src` written over it from `i` on.
  abbrev pub overwrite : List A → ℕ → List A → List A
  overwrite out i src = take i out ++ (src ++ drop (i + length src) out)

module _ {ℓ} {A : Type ℓ} where
  pub length-append : (xs ys : List A) → length (xs ++ ys) ≡ length xs + length ys
  length-append [] ys = omega arith
  length-append (x ∷ xs) ys = omega (arith, length-append xs ys)

  pub length-take : (n : ℕ) (xs : List A) → length (take n xs) ≡ min n (length xs)
  length-take zero xs = omega arith
  length-take (suc n) [] = omega arith
  length-take (suc n) (x ∷ xs) = omega (arith, length-take n xs)

  pub length-drop : (n : ℕ) (xs : List A) → length (drop n xs) ≡ length xs - n
  length-drop zero xs = omega arith
  length-drop (suc n) [] = omega arith
  length-drop (suc n) (x ∷ xs) = omega (arith, length-drop n xs)

  pub length-replicate : (n : ℕ) (a : A) → length (replicate n a) ≡ n
  length-replicate zero a = refl
  length-replicate (suc n) a = ap suc (length-replicate n a)

  pub drop-replicate : (k n : ℕ) (a : A) → drop k (replicate n a) ≡ replicate (n - k) a
  drop-replicate zero n a = ap (λ m. replicate m a) (let e : n ≡ n - 0 = omega arith in e)
  drop-replicate (suc k) zero a = ap (λ m. replicate m a) (let e : 0 ≡ 0 - suc k = omega arith in e)
  drop-replicate (suc k) (suc n) a =
      drop-replicate k n a
      ∙ ap (λ m. replicate m a) (let e : n - k ≡ suc n - suc k = omega arith in e)

  pub replicate-add : (m n : ℕ) (a : A) → replicate (m + n) a ≡ replicate m a ++ replicate n a
  replicate-add zero n a = ap (λ k. replicate k a) (let e : 0 + n ≡ n = omega arith in e)
  replicate-add (suc m) n a =
      ap (λ k. replicate k a) (let e : suc m + n ≡ suc (m + n) = omega arith in e)
      ∙ ap (λ t. a ∷ t) (replicate-add m n a)

  pub take-append-drop : (n : ℕ) (xs : List A) → take n xs ++ drop n xs ≡ xs
  take-append-drop zero xs = refl
  take-append-drop (suc n) [] = refl
  take-append-drop (suc n) (x ∷ xs) = rw (take-append-drop n xs)

  -- The same piece of a list, by its length.
  pub take-length_append : (n : ℕ) (xs ys : List A) → length xs ≡ n → take n (xs ++ ys) ≡ xs
  take-length_append zero [] ys h = refl
  take-length_append zero (x ∷ xs) ys h = absurd (omega arith)
  take-length_append (suc n) [] ys h = absurd (omega arith)
  take-length_append (suc n) (x ∷ xs) ys h =
      ap (λ t. x ∷ t) (take-length_append n xs ys (omega arith))

  pub drop-length_append : (n : ℕ) (xs ys : List A) → length xs ≡ n → drop n (xs ++ ys) ≡ ys
  drop-length_append zero [] ys h = refl
  drop-length_append zero (x ∷ xs) ys h = absurd (omega arith)
  drop-length_append (suc n) [] ys h = absurd (omega arith)
  drop-length_append (suc n) (x ∷ xs) ys h = drop-length_append n xs ys (omega arith)

  pub get_or-length_append :
      (n : ℕ) (xs ys : List A) (x d : A) → length xs ≡ n → get_or (xs ++ (x ∷ ys)) n d ≡ x
  get_or-length_append zero [] ys x d h = refl
  get_or-length_append zero (z ∷ xs) ys x d h = absurd (omega arith)
  get_or-length_append (suc n) [] ys x d h = absurd (omega arith)
  get_or-length_append (suc n) (z ∷ xs) ys x d h = get_or-length_append n xs ys x d (omega arith)

  pub get_or-append :
      (n i : ℕ) (xs ys : List A) (d : A)
      → length xs ≡ n
      → get_or (xs ++ ys) (n + i) d ≡ get_or ys i d
  get_or-append zero i [] ys d h = ap (λ k. get_or ys k d) (let e : 0 + i ≡ i = omega arith in e)
  get_or-append zero i (x ∷ xs) ys d h = absurd (omega arith)
  get_or-append (suc n) i [] ys d h = absurd (omega arith)
  get_or-append (suc n) i (x ∷ xs) ys d h =
      ap (λ k. get_or (x ∷ (xs ++ ys)) k d) (let e : suc n + i ≡ suc (n + i) = omega arith in e)
      ∙ get_or-append n i xs ys d (omega arith)

  pub take-of_le : (n : ℕ) (xs : List A) → length xs ≤ n → take n xs ≡ xs
  take-of_le zero [] h = refl
  take-of_le zero (x ∷ xs) h = absurd (omega arith)
  take-of_le (suc n) [] h = refl
  take-of_le (suc n) (x ∷ xs) h = ap (λ t. x ∷ t) (take-of_le n xs (omega arith))

  pub drop-of_le : (n : ℕ) (xs : List A) → length xs ≤ n → drop n xs ≡ []
  drop-of_le zero [] h = refl
  drop-of_le zero (x ∷ xs) h = absurd (omega arith)
  drop-of_le (suc n) [] h = refl
  drop-of_le (suc n) (x ∷ xs) h = drop-of_le n xs (omega arith)

  pub drop-drop : (m n : ℕ) (xs : List A) → drop m (drop n xs) ≡ drop (n + m) xs
  drop-drop m zero xs = ap (λ k. drop k xs) (omega arith)
  drop-drop zero (suc n) [] = sym (drop-of_le (suc n + 0) [] (omega arith))
  drop-drop (suc m) (suc n) [] = sym (drop-of_le (suc n + suc m) [] (omega arith))
  drop-drop m (suc n) (x ∷ xs) =
      drop-drop m n xs
      ∙ ap (λ k. drop k (x ∷ xs)) (let e : suc (n + m) ≡ suc n + m = omega arith in e)

  -- A write over a piece of the same length.
  pub overwrite-append :
      (n : ℕ) (before old after src : List A)
      → length before ≡ n
      → length src ≡ length old
      → overwrite (before ++ (old ++ after)) n src ≡ before ++ (src ++ after)
  overwrite-append n before old after src k l = rw (
    take-length_append n before (old ++ after) k,
    ← drop-drop (length src) n (before ++ (old ++ after)),
    drop-length_append n before (old ++ after) k,
    drop-length_append (length src) old after (sym l),
  )

  pub take-drop-take :
      (k m n : ℕ) (xs : List A) → m + k ≤ n → take k (drop m (take n xs)) ≡ take k (drop m xs)
  take-drop-take zero m n xs h = refl
  take-drop-take (suc k) m zero xs h = absurd (omega arith)
  take-drop-take (suc k) zero (suc n) [] h = refl
  take-drop-take (suc k) (suc m) (suc n) [] h = refl
  take-drop-take (suc k) zero (suc n) (x ∷ xs) h =
      ap (λ t. x ∷ t) (take-drop-take k 0 n xs (omega arith))
  take-drop-take (suc k) (suc m) (suc n) (x ∷ xs) h = take-drop-take (suc k) m n xs (omega arith)

module _ {ℓ κ} {A : Type ℓ} (P : A → Type κ) where
  pub All-append : (xs ys : List A) → All P xs → All P ys → All P (xs ++ ys)
  All-append [] ys h k = k
  All-append (x ∷ xs) ys h k = (h.0, All-append xs ys h.1 k)

  pub All-take : (n : ℕ) (xs : List A) → All P xs → All P (take n xs)
  All-take zero xs h = tt
  All-take (suc n) [] h = h
  All-take (suc n) (x ∷ xs) h = (h.0, All-take n xs h.1)

  pub All-drop : (n : ℕ) (xs : List A) → All P xs → All P (drop n xs)
  All-drop zero xs h = h
  All-drop (suc n) [] h = h
  All-drop (suc n) (x ∷ xs) h = All-drop n xs h.1
