-- ===== src/Js/Number.antt =====
-- JavaScript's conversions of an integral number to an unsigned word, and its big-endian bytes.
use diarsaba_go.Prelude.{ℕ, ◌+◌, ◌-◌, ◌*◌, ◌/◌, ◌%◌, ◌^◌, ◌<◌, ◌≡◌, List, [], ◌∷◌, All, arith}

-- An integral number: `negsuc n` is -(n + 1).
pub data ℤ : Type 0 where
  pos : ℕ → ℤ
  negsuc : ℕ → ℤ

-- `value >>> 0`: the residue modulo 2 ^ 32.
unfoldable pub to_uint32 : ℤ → ℕ
to_uint32 (pos n) = n % 2 ^ 32
to_uint32 (negsuc n) = 2 ^ 32 - 1 - n % 2 ^ 32

-- What a Uint8Array stores of a number: the residue modulo 2 ^ 8.
unfoldable pub to_uint8 : ℤ → ℕ
to_uint8 (pos n) = n % 2 ^ 8
to_uint8 (negsuc n) = 2 ^ 8 - 1 - n % 2 ^ 8

abbrev pub IsByte : ℕ → Type 0
IsByte b = b < 256

-- The big-endian bytes of a 32-bit and of a 16-bit word.
unfoldable pub be32 : ℕ → List ℕ
be32 w = (w / 2 ^ 24 % 256) ∷ (w / 2 ^ 16 % 256) ∷ (w / 2 ^ 8 % 256) ∷ (w % 256) ∷ []

unfoldable pub be16 : ℕ → List ℕ
be16 w = (w / 2 ^ 8 % 256) ∷ (w % 256) ∷ []

-- The word that four big-endian bytes stand for.
unfoldable pub word32 : ℕ → ℕ → ℕ → ℕ → ℕ
word32 a b c d = a * 2 ^ 24 + b * 2 ^ 16 + c * 2 ^ 8 + d

pub to_uint32-lt : (v : ℤ) → to_uint32 v < 2 ^ 32
unfolding to_uint32
to_uint32-lt (pos n) = omega arith
to_uint32-lt (negsuc n) = omega arith

pub to_uint8-IsByte : (v : ℤ) → IsByte (to_uint8 v)
unfolding to_uint8
to_uint8-IsByte (pos n) = omega arith
to_uint8-IsByte (negsuc n) = omega arith

pub to_uint32-pos : (n : ℕ) → n < 2 ^ 32 → to_uint32 (pos n) ≡ n
unfolding to_uint32
to_uint32-pos n h = omega arith

pub to_uint8-pos : (n : ℕ) → IsByte n → to_uint8 (pos n) ≡ n
unfolding to_uint8
to_uint8-pos n h = omega arith

pub be32-IsByte : (w : ℕ) → All IsByte (be32 w)
unfolding be32
be32-IsByte w = omega arith

pub be16-IsByte : (w : ℕ) → All IsByte (be16 w)
unfolding be16
be16-IsByte w = omega arith

pub word32-be32 :
    (w : ℕ)
    → w < 2 ^ 32
    → word32 (w / 2 ^ 24 % 256) (w / 2 ^ 16 % 256) (w / 2 ^ 8 % 256) (w % 256) ≡ w
unfolding word32
word32-be32 w h = omega arith

pub word32-lt : (a b c d : ℕ) → IsByte a → IsByte b → IsByte c → IsByte d → word32 a b c d < 2 ^ 32
unfolding word32
word32-lt a b c d ha hb hc hd = omega arith

pub be32-word32 :
    (a b c d : ℕ)
    → IsByte a
    → IsByte b
    → IsByte c
    → IsByte d
    → be32 (word32 a b c d) ≡ a ∷ b ∷ c ∷ d ∷ []
unfolding be32 word32
be32-word32 a b c d ha hb hc hd = ground arith
