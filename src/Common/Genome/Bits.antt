-- ===== src/Common/Genome/Bits.antt =====
-- Masks of one bit: what `bit_and` and `bit_or` make of them.
use Prim.Native.Nat.{
  ℕ, zero, suc, ◌+◌, ◌*◌, ◌/◌, ◌%◌, ◌^◌, ◌≤◌, ◌<◌, min, max, bit_and, bit_or, digits,
  bit_and-bitwise, bit_or-bitwise,
}
use diarsaba_go.Prelude.{◌≡◌, refl, sym, ap, ◌∙◌, arith}
use native.Mathlib.Nat.{pow-suc, div-div-eq-div-mul}

-- A count of rounds that covers the first number is as good as any other.
module _ (last : ℕ → ℕ) (join : ℕ → ℕ → ℕ) where
  enough_rounds : (x y i j : ℕ) → x ≤ j → x ≤ i → digits last join j x y ≡ digits last join i x y
  enough_rounds zero y zero zero hj hi = refl
  enough_rounds zero y zero (suc j) hj hi = refl
  enough_rounds zero y (suc i) zero hj hi = refl
  enough_rounds zero y (suc i) (suc j) hj hi = refl
  enough_rounds (suc x) y zero j hj hi = absurd (omega arith)
  enough_rounds (suc x) y (suc i) zero hj hi = absurd (omega arith)
  enough_rounds (suc x) y (suc i) (suc j) hj hi =
      let half = enough_rounds (suc x / 2) (y / 2) i j (omega arith) (omega arith) in
      ap (λ (t : ℕ). t * 2 + join (suc x % 2) (y % 2)) half

-- What `bit_and` and `bit_or` make of the lowest digits.
bit_and-halves : (x y : ℕ) → bit_and x y ≡ min (x % 2) (y % 2) + 2 * bit_and (x / 2) (y / 2)
bit_and-halves zero y = omega (arith, bit_and-bitwise 0 y, bit_and-bitwise 0 (y / 2))
bit_and-halves (suc x) y =
    let half = suc x / 2 in
    let same = enough_rounds (λ b. zero) min half (y / 2) half x (omega arith) (omega arith) in
    omega (arith, same, bit_and-bitwise half (y / 2), bit_and-bitwise (suc x) y)

bit_or-halves : (x y : ℕ) → bit_or x y ≡ max (x % 2) (y % 2) + 2 * bit_or (x / 2) (y / 2)
bit_or-halves zero y = omega (arith, bit_or-bitwise 0 y, bit_or-bitwise 0 (y / 2))
bit_or-halves (suc x) y =
    let half = suc x / 2 in
    let same = enough_rounds (λ b. b) max half (y / 2) half x (omega arith) (omega arith) in
    omega (arith, same, bit_or-bitwise half (y / 2), bit_or-bitwise (suc x) y)

no_common_digit : (rounds x : ℕ) → digits (λ b. zero) min rounds x 0 ≡ 0
no_common_digit zero x = refl
no_common_digit (suc rounds) zero = refl
no_common_digit (suc rounds) (suc x) = omega (arith, no_common_digit rounds (suc x / 2))

pub two_pow_suc : (k : ℕ) → 2 ^ suc k ≡ 2 * 2 ^ k
two_pow_suc k = omega (arith, pow-suc 2 k)

-- One bit of a number, by its mask.
pub bit_and-two_pow : (k a : ℕ) → bit_and a (2 ^ k) ≡ a / 2 ^ k % 2 * 2 ^ k
bit_and-two_pow zero a =
    omega (arith, bit_and-halves a 1, bit_and-bitwise (a / 2) 0, no_common_digit (a / 2) (a / 2))
bit_and-two_pow (suc k) a =
    let p = 2 ^ k in
    let q : a / 2 ^ suc k ≡ a / 2 / p =
      ap (λ t. a / t) (two_pow_suc k) ∙ sym (div-div-eq-div-mul a 2 p) in
    omega (
      arith,
      ap (bit_and a) (two_pow_suc k),
      bit_and-halves a (2 * p),
      ap (bit_and (a / 2)) (let e : 2 * p / 2 ≡ p = omega arith in e),
      bit_and-two_pow k (a / 2),
      ap (λ (t : ℕ). t % 2 * 2 ^ suc k) q,
      ap (λ (t : ℕ). a / 2 / p % 2 * t) (two_pow_suc k),
    )

-- A bit above all others is added.
pub bit_or-two_pow : (k a : ℕ) → a < 2 ^ k → bit_or a (2 ^ k) ≡ a + 2 ^ k
bit_or-two_pow zero a h = let e : a ≡ 0 = omega arith in rw e
bit_or-two_pow (suc k) a h =
    let p = 2 ^ k in
    omega (
      arith,
      two_pow_suc k,
      ap (bit_or a) (two_pow_suc k),
      bit_or-halves a (2 * p),
      ap (bit_or (a / 2)) (let e : 2 * p / 2 ≡ p = omega arith in e),
      bit_or-two_pow k (a / 2) (omega (arith, two_pow_suc k)),
    )
