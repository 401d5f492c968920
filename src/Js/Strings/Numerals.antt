-- ===== src/Js/Strings/Numerals.antt =====
-- Numbers as texts: `String(n)`, `n.toString(2)`, `n.toString(16)` and `padStart`.
use diarsaba_go.Prelude.{
  ℕ, zero, suc, ◌+◌, ◌-◌, ◌/◌, ◌%◌, List, [], ◌∷◌, ◌++◌, length, replicate, ltb, if◌then◌else◌,
}

-- A digit's character.
abbrev pub digit : ℕ → ℕ
digit n = if ltb n 10 then b'0' + n else 87 + n

-- The digits of a number to a base, of `fuel` digits at most.
unfoldable pub to_base : ℕ → ℕ → ℕ → List ℕ
to_base zero base n = []
to_base (suc fuel) base n =
    let higher = to_base fuel base (n / base) in
    if ltb n base then digit n ∷ [] else higher ++ (digit (n % base) ∷ [])

-- A word of 32 bits has at most ten decimal and 32 binary digits, and a byte two hexadecimal ones.
abbrev pub decimal : ℕ → List ℕ
decimal n = to_base 10 10 n

abbrev pub binary : ℕ → List ℕ
binary n = to_base 32 2 n

abbrev pub hexadecimal : ℕ → List ℕ
hexadecimal n = to_base 2 16 n

-- `text.padStart(size, "0")`
unfoldable pub pad_start : ℕ → List ℕ → List ℕ
pad_start size s = replicate (size - length s) b'0' ++ s
