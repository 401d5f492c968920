-- ===== src/Js/Text/RoundTrip.antt =====
-- Decoding what was encoded gives a well-formed string back.
use diarsaba_go.Prelude.{
  ℕ, ◌+◌, ◌-◌, ◌*◌, ◌/◌, ◌%◌, ◌≤◌, ◌<◌, ◌≡◌, refl, ap, ◌∙◌, List, [], ◌∷◌, ◌++◌, append-nil, lt→ltb,
  ◌==◌, if◌then◌else◌, ◌⊎◌, arith,
}
use diarsaba_go.Js.Text.{
  is_high, is_low, pair_value, lone_value, utf8, encode, Decoder, idle, units, begin, step, run,
  strip_bom, decode,
}

-- One, two, three and four bytes.
run_one : (c : ℕ) (rest : List ℕ) → c < 0x80 → run idle (c ∷ rest) ≡ c ∷ run idle rest
unfolding run step begin
run_one c rest h = rw (lt→ltb c 0x80 h)

run_two :
    (c : ℕ) (rest : List ℕ)
    → 0x80 ≤ c
    → c < 0x800
    → run idle ((0xc0 + c / 0x40) ∷ (0x80 + c % 0x40) ∷ rest) ≡ c ∷ run idle rest
unfolding run step begin units
run_two c rest h k = ground arith

run_three :
    (c : ℕ) (rest : List ℕ)
    → 0x800 ≤ c
    → c < 0x10000
    → (c < 0xd800) ⊎ (0xe000 ≤ c)
    → run idle ((0xe0 + c / 0x1000) ∷ (0x80 + c / 0x40 % 0x40) ∷ (0x80 + c % 0x40) ∷ rest)
      ≡ c ∷ run idle rest
unfolding run step begin units
run_three c rest h k s = ground arith

-- A decoder in the middle of a code point.
abbrev within : ℕ → ℕ → ℕ → ℕ → Decoder
within c n lo hi = record { code_point = c; needed = n; lower = lo; upper = hi }

begin_four :
    (b : ℕ) (rest : List ℕ)
    → 0xf0 ≤ b
    → b ≤ 0xf4
    → run idle (b ∷ rest)
      ≡ run
          (within
            (b - 0xf0)
            3
            (if b == 0xf0 then 0x90 else 0x80)
            (if b == 0xf4 then 0x8f else 0xbf))
          rest
unfolding run step begin
begin_four b rest h k = ground arith

more_three :
    (c lo hi b : ℕ) (rest : List ℕ)
    → lo ≤ b
    → b ≤ hi
    → run (within c 3 lo hi) (b ∷ rest) ≡ run (within (c * 0x40 + b % 0x40) 2 0x80 0xbf) rest
unfolding run step
more_three c lo hi b rest h k = ground arith

more_two :
    (c b : ℕ) (rest : List ℕ)
    → 0x80 ≤ b
    → b ≤ 0xbf
    → run (within c 2 0x80 0xbf) (b ∷ rest) ≡ run (within (c * 0x40 + b % 0x40) 1 0x80 0xbf) rest
unfolding run step
more_two c b rest h k = ground arith

more_one :
    (c b : ℕ) (rest : List ℕ)
    → 0x80 ≤ b
    → b ≤ 0xbf
    → run (within c 1 0x80 0xbf) (b ∷ rest) ≡ units (c * 0x40 + b % 0x40) ++ run idle rest
unfolding run step
more_one c b rest h k = ground arith

-- The second byte lies in the range that the first one sets.
second_low :
    (c : ℕ)
    → 0x10000 ≤ c
    → (if (0xf0 + c / 0x40000) == 0xf0 then 0x90 else 0x80) ≤ 0x80 + c / 0x1000 % 0x40
second_low c h = ground arith

second_high :
    (c : ℕ)
    → c < 0x110000
    → 0x80 + c / 0x1000 % 0x40 ≤ (if (0xf0 + c / 0x40000) == 0xf4 then 0x8f else 0xbf)
second_high c h = ground arith

-- The four groups of bits make the code point again.
regrouped :
    (c : ℕ)
    → (((0xf0 + c / 0x40000 - 0xf0) * 0x40 + (0x80 + c / 0x1000 % 0x40) % 0x40) * 0x40
            + (0x80 + c / 0x40 % 0x40) % 0x40)
          * 0x40
        + (0x80 + c % 0x40) % 0x40
      ≡ c
regrouped c = omega arith

run_four :
    (c : ℕ) (rest : List ℕ)
    → 0x10000 ≤ c
    → c < 0x110000
    → run idle (
        (0xf0 + c / 0x40000)
        ∷ (0x80 + c / 0x1000 % 0x40)
        ∷ (0x80 + c / 0x40 % 0x40)
        ∷ (0x80 + c % 0x40)
        ∷ rest)
      ≡ units c ++ run idle rest
run_four c rest h k =
    begin_four (0xf0 + c / 0x40000) _ (omega arith) (omega arith)
    ∙ more_three _ _ _ (0x80 + c / 0x1000 % 0x40) _ (second_low c h) (second_high c k)
    ∙ more_two _ (0x80 + c / 0x40 % 0x40) _ (omega arith) (omega arith)
    ∙ more_one _ (0x80 + c % 0x40) rest (omega arith) (omega arith)
    ∙ ap (λ t. units t ++ run idle rest) (regrouped c)

-- A code point of the basic plane that is no surrogate, and a pair of surrogates.
abbrev pub IsUnit : ℕ → Type 0
IsUnit u = (u < 0x10000) × ((u < 0xd800) ⊎ (0xe000 ≤ u))

abbrev pub IsPair : ℕ → ℕ → Type 0
IsPair h l = (0xd800 ≤ h) × (h ≤ 0xdbff) × (0xdc00 ≤ l) × (l ≤ 0xdfff)

-- Every surrogate of the string stands in a pair.
pub data IsWellFormed : List ℕ → Type 0 where
  nil : IsWellFormed []
  single : {u : ℕ} {s : List ℕ} → IsUnit u → IsWellFormed s → IsWellFormed (u ∷ s)
  pair : {h l : ℕ} {s : List ℕ} → IsPair h l → IsWellFormed s → IsWellFormed (h ∷ l ∷ s)

encode-single : (u : ℕ) (s : List ℕ) → IsUnit u → encode (u ∷ s) ≡ utf8 u ++ encode s
unfolding encode is_high is_low lone_value
encode-single u [] h = rw append-nil (ground arith)
encode-single u (v ∷ s) h = ground arith

encode-pair :
    (h l : ℕ) (s : List ℕ) → IsPair h l → encode (h ∷ l ∷ s) ≡ utf8 (pair_value h l) ++ encode s
unfolding encode is_high is_low
encode-pair h l s p = ground arith

run-single : (u : ℕ) (rest : List ℕ) → IsUnit u → run idle (utf8 u ++ rest) ≡ u ∷ run idle rest
unfolding utf8
run-single u rest h = ground (arith, run_one u rest, run_two u rest, run_three u rest)

pair_range : (h l : ℕ) → IsPair h l → (0x10000 ≤ pair_value h l) × (pair_value h l < 0x110000)
unfolding pair_value
pair_range h l p = omega arith

units-pair : (h l : ℕ) → IsPair h l → units (pair_value h l) ≡ h ∷ l ∷ []
unfolding units pair_value
units-pair h l p = ground arith

utf8-four :
    (c : ℕ)
    → 0x10000 ≤ c
    → utf8 c
      ≡ (0xf0 + c / 0x40000)
        ∷ (0x80 + c / 0x1000 % 0x40)
        ∷ (0x80 + c / 0x40 % 0x40)
        ∷ (0x80 + c % 0x40)
        ∷ []
unfolding utf8
utf8-four c h = ground arith

run-pair :
    (h l : ℕ) (rest : List ℕ)
    → IsPair h l
    → run idle (utf8 (pair_value h l) ++ rest) ≡ h ∷ l ∷ run idle rest
run-pair h l rest p =
    let (lo, hi) = pair_range h l p in
    rw (utf8-four (pair_value h l) lo) (run_four (pair_value h l) rest lo hi)
    ∙ ap (λ t. t ++ run idle rest) (units-pair h l p)

pub run-encode : {s : List ℕ} → IsWellFormed s → run idle (encode s) ≡ s
run-encode nil = unfold encode run in refl
run-encode (single {u = u} {s = s} h t) =
    rw (encode-single u s h) (run-single u (encode s) h ∙ ap (λ r. u ∷ r) (run-encode t))
run-encode (pair {h = h} {l = l} {s = s} p t) =
    rw (encode-pair h l s p) (run-pair h l (encode s) p ∙ ap (λ r. h ∷ l ∷ r) (run-encode t))

-- The decoder gives back a well-formed string, less a byte order mark at its front.
pub decode-encode : {s : List ℕ} → IsWellFormed s → decode (encode s) ≡ strip_bom s
unfolding decode
decode-encode h = ap strip_bom (run-encode h)
