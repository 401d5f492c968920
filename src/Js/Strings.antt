-- ===== src/Js/Strings.antt =====
-- The methods of strings that the cards call, on code units.
pub mod Laws
pub mod Numerals
pub mod Quote
use Prim.Native.Char.{code}
use Prim.Native.String
use diarsaba_go.Prelude.{
  ℕ, suc, String, List, [], ◌∷◌, ◌++◌, Option, none, some, ◌==◌, if◌then◌else◌,
}

-- The code units of a text of the source, which is ASCII.
abbrev pub literal : String → List ℕ
literal String.[] = []
literal (String.◌∷◌ c s) = code c ∷ literal s

push_front : ℕ → List (List ℕ) → List (List ℕ)
push_front u [] = (u ∷ []) ∷ []
push_front u (s ∷ rest) = (u ∷ s) ∷ rest

-- `text.split(c)` for a one-character separator.
unfoldable pub split : ℕ → List ℕ → List (List ℕ)
unfolding push_front
split c [] = [] ∷ []
split c (u ∷ s) = let rest = split c s in if u == c then [] ∷ rest else push_front u rest

-- `.filter(Boolean)` on an array of strings.
unfoldable pub filter_nonempty : List (List ℕ) → List (List ℕ)
filter_nonempty [] = []
filter_nonempty ([] ∷ rest) = filter_nonempty rest
filter_nonempty ((u ∷ s) ∷ rest) = (u ∷ s) ∷ filter_nonempty rest

-- `strings.join(c)`
unfoldable pub join : ℕ → List (List ℕ) → List ℕ
join c [] = []
join c (s ∷ []) = s
join c (s ∷ t ∷ rest) = s ++ (c ∷ join c (t ∷ rest))

succ_index : Option ℕ → Option ℕ
succ_index none = none
succ_index (some i) = some (suc i)

-- `text.indexOf(c)`, with `none` for -1.
unfoldable pub index_of : ℕ → List ℕ → Option ℕ
unfolding succ_index
index_of c [] = none
index_of c (u ∷ s) = let later = succ_index (index_of c s) in if u == c then some 0 else later
