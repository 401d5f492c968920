-- ===== src/Go/Escapes.antt =====
-- What url.PathUnescape makes of an escaped text, and of one that is not.
use diarsaba_go.Prelude.{
  ℕ, ◌+◌, ◌*◌, ◌/◌, ◌%◌, ◌<◌, ◌≡◌, ◌≢◌, refl, List, [], ◌∷◌, ◌++◌, All, true, false, none, some,
  ◌==◌, ◌&&◌, Bool-cases, inl, inr, if◌then◌else◌, ltb, arith,
}
use diarsaba_go.Js.Number.{IsByte}
use diarsaba_go.Go.{is_hex, unhex, prepend, path_unescape}

abbrev pub hex_digit : ℕ → ℕ
hex_digit n = if ltb n 10 then n + 48 else n + 55

-- Every byte as a percent sign and two digits.
pub escaped : List ℕ → List ℕ
escaped [] = []
escaped (b ∷ rest) = b'%' ∷ hex_digit (b / 16) ∷ hex_digit (b % 16) ∷ escaped rest

digit_IsHex : (n : ℕ) → n < 16 → is_hex (hex_digit n) ≡ true
unfolding is_hex
digit_IsHex n h = ground arith

unhex-hex_digit : (n : ℕ) → n < 16 → unhex (hex_digit n) ≡ n
unfolding unhex
unhex-hex_digit n h = ground arith

pub path_unescape-escaped : (s : List ℕ) → All IsByte s → path_unescape (escaped s) ≡ some s
unfolding path_unescape escaped
path_unescape-escaped [] h = refl
path_unescape-escaped (b ∷ rest) (h, t) =
    let high : b / 16 < 16 = omega arith in
    let low : b % 16 < 16 = omega arith in
    let same : (b / 16) * 16 + b % 16 ≡ b = omega arith in
    rw
      (
        digit_IsHex (b / 16) high,
        digit_IsHex (b % 16) low,
        unhex-hex_digit (b / 16) high,
        unhex-hex_digit (b % 16) low,
        path_unescape-escaped rest t,
        same,
      )
      (unfold prepend in refl)

none-prepend : (c : ℕ) → prepend c none ≡ none
unfolding prepend
none-prepend c = refl

-- A percent sign at the end is an error, whatever stands before it.
pub path_unescape-percent : (s : List ℕ) → path_unescape (s ++ (b'%' ∷ [])) ≡ none
unfolding path_unescape
path_unescape-percent [] = refl
path_unescape-percent (c ∷ []) = elim (Bool-cases (c == b'%')) [
  | inl e ↦ rw e refl
  | inr e ↦ rw e (none-prepend c)
]
path_unescape-percent (c ∷ d ∷ []) = elim (Bool-cases (c == b'%')) [
  | inl e ↦
      let no_digit : is_hex b'%' ≡ false = unfold is_hex in refl in
      elim (Bool-cases (is_hex d)) [ inl f ↦ rw (e, f, no_digit) refl | inr f ↦ rw (e, f) refl ]
  | inr e ↦ rw (e, path_unescape-percent (d ∷ [])) (none-prepend c)
]
path_unescape-percent (c ∷ d ∷ e ∷ rest) = elim (Bool-cases (c == b'%')) [
  | inl h ↦ elim (Bool-cases (is_hex d && is_hex e)) [
    | inl k ↦ rw (h, k, path_unescape-percent rest) (none-prepend _)
    | inr k ↦ rw (h, k) refl
  ]
  | inr h ↦ rw (h, path_unescape-percent (d ∷ e ∷ rest)) (none-prepend c)
]

digit_not_slash : (n : ℕ) → n < 16 → hex_digit n ≢ b'/'
digit_not_slash n h e = absurd (ground arith)

-- An escaped text holds no slash.
pub escaped-Lacks : (s : List ℕ) → All IsByte s → All (λ b. b ≢ b'/') (escaped s)
unfolding escaped
escaped-Lacks [] h = tt
escaped-Lacks (b ∷ rest) (h, t) = (
  λ e. absurd (omega arith),
  (
    digit_not_slash (b / 16) (omega arith),
    (digit_not_slash (b % 16) (omega arith), escaped-Lacks rest t),
  ),
)
