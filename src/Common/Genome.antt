-- ===== src/Common/Genome.antt =====
-- `genomeDetailFromUint32` and `genomeUint32FromDetail` of cards/js/common.js.
mod Bits
pub mod RoundTrip
use Prim.Native.Nat.{bit_and, bit_or}
use text.Mathlib.Text.{◌==◌ as str_eq}
use diarsaba_go.Prelude.{
  ℕ, ◌^◌, ◌%◌, String, Bool, true, false, List, [], ◌∷◌, Option, none, some, ◌==◌, if◌then◌else◌,
}
use mathlib.Core.Bool.{not}

abbrev pub genome_flags : List (String × ℕ)
genome_flags =
    ("readSelf", 0)
    ∷ ("readNeighbors", 1)
    ∷ ("writeSelf", 2)
    ∷ ("writeNeighbors", 3)
    ∷ ("deleteSelf", 4)
    ∷ ("deleteNeighbors", 5)
    ∷ ("diferirSelf", 6)
    ∷ ("cruzarSelf", 7)
    ∷ ("dominanceSelf", 8)
    ∷ ("freeRead", 9)
    ∷ ("isMigrated", 10)
    ∷ []

-- A detail object: its entries, each with the truth of its value. A missing entry is not true.
abbrev pub Detail : Type 0
Detail = List (String × Bool)

unfoldable pub truthy : Detail → String → Bool
truthy [] name = false
truthy ((key, value) ∷ detail) name = if str_eq key name then value else truthy detail name

-- `1 << bit`, of a bit below 31.
abbrev pub mask : ℕ → ℕ
mask bit = 2 ^ bit

-- `(genome & (1 << bit)) !== 0`
unfoldable pub flag_set : ℕ → ℕ → Bool
flag_set genome bit = not (bit_and genome (mask bit) == 0)

entries : ℕ → List (String × ℕ) → Detail
entries genome [] = []
entries genome ((name, bit) ∷ flags) = (name, flag_set genome bit) ∷ entries genome flags

unfoldable pub genome_detail_from_uint32 : ℕ → Detail
unfolding entries
genome_detail_from_uint32 genome = entries genome genome_flags

-- The loop `if (detail && detail[name]) genome |= 1 << bit`.
add_flag : ℕ → ℕ → Bool → ℕ
add_flag genome bit true = bit_or genome (mask bit)
add_flag genome bit false = genome

collect : ℕ → List (String × ℕ) → (String → Bool) → ℕ
unfolding add_flag
collect genome [] detail = genome
collect genome ((name, bit) ∷ flags) detail =
    collect (add_flag genome bit (detail name)) flags detail

-- `detail && detail[name]`, where the argument may be null.
abbrev pub reads : Option Detail → String → Bool
reads none name = false
reads (some detail) name = truthy detail name

-- The numbers stay below 2 ^ 11, so that `>>> 0` changes nothing; it is written out all the same.
unfoldable pub genome_uint32_from_detail : Option Detail → ℕ
unfolding collect
genome_uint32_from_detail detail = collect 0 genome_flags (reads detail) % 2 ^ 32
