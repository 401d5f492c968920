-- ===== src/Common/Genome/RoundTrip.antt =====
-- A genome as a number and as a detail object.
use diarsaba_go.Prelude.{
  ℕ, zero, suc, length, ◌+◌, ◌*◌, ◌/◌, ◌%◌, ◌^◌, ◌≤◌, ◌<◌, String, ◌≡◌, refl, ap, ◌∙◌, Bool, true,
  false, List, [], ◌∷◌, some, All, arith,
}
use native.Mathlib.Nat.{div-add-mod, div-div-eq-div-mul}
use diarsaba_go.Common.Genome.{
  genome_flags, truthy, flag_set, entries, genome_detail_from_uint32, add_flag, collect, reads,
  genome_uint32_from_detail,
}
use diarsaba_go.Common.Genome.Bits.{bit_and-two_pow, bit_or-two_pow, two_pow_suc}

-- The number of a truth value.
abbrev bit_value : Bool → ℕ
bit_value true = 1
bit_value false = 0

flag_value : (g k : ℕ) → 0 < 2 ^ k → bit_value (flag_set g k) ≡ g / 2 ^ k % 2
unfolding flag_set
flag_value g k h = ground (arith, bit_and-two_pow k g)

add_flag-value : (acc k : ℕ) (b : Bool) → acc < 2 ^ k → add_flag acc k b ≡ acc + bit_value b * 2 ^ k
unfolding add_flag
add_flag-value acc k true h = omega (arith, bit_or-two_pow k acc h)
add_flag-value acc k false h = omega arith

bit_value-le : (b : Bool) → bit_value b ≤ 1
bit_value-le true = omega arith
bit_value-le false = omega arith

-- The flags stand in the order of their bits, from `k` on.
abbrev Consecutive : ℕ → List (String × ℕ) → Type 0
Consecutive k [] = Unit {0}
Consecutive k ((name, bit) ∷ flags) = (bit ≡ k) × Consecutive (suc k) flags

-- The sum that truth values make from the bit `k` on.
abbrev weighted : (String → Bool) → ℕ → List (String × ℕ) → ℕ
weighted d k [] = 0
weighted d k ((name, bit) ∷ flags) = bit_value (d name) * 2 ^ k + weighted d (suc k) flags

room_for_bit : (acc k : ℕ) (b : Bool) → acc < 2 ^ k → acc + bit_value b * 2 ^ k < 2 ^ suc k
room_for_bit acc k true h = omega (arith, two_pow_suc k)
room_for_bit acc k false h = omega (arith, two_pow_suc k)

collect-weighted :
    (d : String → Bool) (k acc : ℕ) (flags : List (String × ℕ))
    → Consecutive k flags
    → acc < 2 ^ k
    → collect acc flags d ≡ acc + weighted d k flags
unfolding collect
collect-weighted d k acc [] c h = omega arith
collect-weighted d k acc ((name, bit) ∷ flags) (e, c) h =
    ap (λ b. collect (add_flag acc b (d name)) flags d) e
    ∙ ap (λ a. collect a flags d) (add_flag-value acc k (d name) h)
    ∙ collect-weighted d (suc k) _ flags c (room_for_bit acc k (d name) h)
    ∙ omega arith

two_pow_pos : (k : ℕ) → 0 < 2 ^ k
two_pow_pos zero = omega arith
two_pow_pos (suc k) = omega (arith, two_pow_suc k, two_pow_pos k)

-- One bit more of a number.
low_bits_suc : (g k : ℕ) → g % 2 ^ suc k ≡ g % 2 ^ k + g / 2 ^ k % 2 * 2 ^ k
low_bits_suc g k =
    let p = 2 ^ k in
    let q = g / p in
    omega (
      arith,
      div-add-mod g p,
      div-add-mod g (p * 2),
      ap (λ (t : ℕ). p * 2 * t) (div-div-eq-div-mul g p 2),
      ap (λ (t : ℕ). t * p) (div-add-mod q 2),
      ap (λ (t : ℕ). g % t) (let e : 2 ^ suc k ≡ p * 2 = omega (arith, two_pow_suc k) in e),
    )

-- The truth values of a number's bits make the number again, up to the last flag.
weighted-digits :
    (g k : ℕ) (d : String → Bool) (flags : List (String × ℕ))
    → Consecutive k flags
    → All (λ f. d f.0 ≡ flag_set g f.1) flags
    → g % 2 ^ k + weighted d k flags ≡ g % 2 ^ (k + length flags)
weighted-digits g k d [] c r =
    omega (arith, ap (λ (t : ℕ). g % 2 ^ t) (let e : k ≡ k + 0 = omega arith in e))
weighted-digits g k d ((name, bit) ∷ flags) (e, c) (r, rs) =
    let digit : bit_value (d name) ≡ g / 2 ^ k % 2 =
      ap bit_value (r ∙ ap (flag_set g) e) ∙ flag_value g k (two_pow_pos k) in
    omega (
      arith,
      low_bits_suc g k,
      ap (λ (t : ℕ). t * 2 ^ k) digit,
      weighted-digits g (suc k) d flags c rs,
      ap (λ (t : ℕ). g % 2 ^ t)
          (let s : suc k + length flags ≡ k + suc (length flags) = omega arith in s),
    )

flags-Consecutive : Consecutive 0 genome_flags
flags-Consecutive =
    (refl, (refl, (refl, (refl, (refl, (refl, (refl, (refl, (refl, (refl, (refl, tt)))))))))))

flags_read :
    (g : ℕ)
    → All (λ f. reads (some (genome_detail_from_uint32 g)) f.0 ≡ flag_set g f.1) genome_flags
unfolding genome_detail_from_uint32 entries truthy
flags_read g =
    (refl, (refl, (refl, (refl, (refl, (refl, (refl, (refl, (refl, (refl, (refl, tt)))))))))))

-- `genomeUint32FromDetail` gives back the eleven low bits of the number of which
-- `genomeDetailFromUint32` made the detail object.
pub genome_uint32_from_detail-genome_detail_from_uint32 :
    (g : ℕ) → genome_uint32_from_detail (some (genome_detail_from_uint32 g)) ≡ g % 2 ^ 11
unfolding genome_uint32_from_detail genome_detail_from_uint32 truthy
genome_uint32_from_detail-genome_detail_from_uint32 g = omega (
  arith,
  collect-weighted (reads (some (genome_detail_from_uint32 g))) 0 0 genome_flags flags-Consecutive
      (omega arith),
  weighted-digits g 0 (reads (some (genome_detail_from_uint32 g))) genome_flags flags-Consecutive
      (flags_read g),
)
