-- ===== src/Page/Texts.antt =====
-- The texts of cards/index.html's log: decoding, quoting, and the lines for a piece of payload.
use diarsaba_go.Prelude.{
  ℕ, String, List, [], ◌∷◌, ◌++◌, Bool, Option, none, some, length, leb, ltb, ◌==◌, ◌&&◌, ◌||◌,
  if◌then◌else◌,
}
use diarsaba_go.Js.Text.{Decoder, idle, step, strip_bom}
use diarsaba_go.Js.Strings.{literal}
use diarsaba_go.Js.Strings.Numerals.{decimal}
use diarsaba_go.Js.Strings.Quote.{quote_text}
use diarsaba_go.Common.Genome.{genome_flags, flag_set}
use diarsaba_go.Page.{short_hex}

-- A byte that may stand at the start of a code point.
unfoldable pub may_begin : ℕ → Bool
may_begin b =
    ltb b 0x80
    || ((leb 0xc2 b && leb b 0xdf) || ((leb 0xe0 b && leb b 0xef) || (leb 0xf0 b && leb b 0xf4)))

-- A byte on which the strict decoder does not throw.
unfoldable pub accepts : Decoder → ℕ → Bool
accepts d b = if d.needed == 0 then may_begin b else leb d.lower b && leb b d.upper

unfoldable pub prepended : List ℕ → Option (List ℕ) → Option (List ℕ)
prepended units none = none
prepended units (some rest) = some (units ++ rest)

-- The decoder with `fatal: true`: where the other one would write a replacement, it throws.
unfoldable pub run_strict : Decoder → List ℕ → Option (List ℕ)
run_strict d [] = if d.needed == 0 then some [] else none
run_strict d (b ∷ rest) =
    let later = prepended (step d b).0 (run_strict (step d b).1 rest) in
    if accepts d b then later else none

unfoldable pub without_bom : Option (List ℕ) → Option (List ℕ)
without_bom none = none
without_bom (some s) = some (strip_bom s)

-- `tryDecodeText`, with `none` for null.
unfoldable pub try_decode_text : List ℕ → Option (List ℕ)
try_decode_text [] = some []
try_decode_text (b ∷ bytes) = without_bom (run_strict idle (b ∷ bytes))

-- A line of the log: `label + "=" + value`.
abbrev pub line : String → List ℕ → List ℕ
line label value = literal label ++ (b'=' ∷ value)

unfoldable pub text_line : List ℕ → Option (List ℕ) → List (List ℕ)
text_line label none = []
text_line label (some text) = (label ++ (literal "_text=" ++ quote_text text)) ∷ []

unfoldable pub payload_text_lines : String → List ℕ → List (List ℕ)
payload_text_lines label bytes =
    (literal label ++ (literal "_bytes=" ++ decimal (length bytes)))
    ∷ text_line (literal label) (try_decode_text bytes)

-- `text !== null ? text : shortHex(bytes)`
unfoldable pub text_or_hex : Option (List ℕ) → List ℕ → List ℕ
text_or_hex (some text) bytes = text
text_or_hex none bytes = short_hex bytes

unfoldable pub flag_names : ℕ → List (String × ℕ) → List (List ℕ)
flag_names value [] = []
flag_names value ((name, bit) ∷ flags) =
    let later = flag_names value flags in if flag_set value bit then literal name ∷ later else later

unfoldable pub parse_genome_flags : ℕ → List (List ℕ)
parse_genome_flags value = flag_names value genome_flags

-- `names.join(", ")`
unfoldable pub join_names : List (List ℕ) → List ℕ
join_names [] = []
join_names (name ∷ []) = name
join_names (name ∷ next ∷ rest) = name ++ (b',' ∷ b' ' ∷ join_names (next ∷ rest))
