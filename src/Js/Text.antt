-- ===== src/Js/Text.antt =====
-- TextEncoder and TextDecoder, after the Encoding standard. A JavaScript string is the list of its
-- UTF-16 code units; the bytes are UTF-8.
pub mod RoundTrip
use diarsaba_go.Prelude.{
  ℕ, ◌+◌, ◌-◌, ◌*◌, ◌/◌, ◌%◌, List, [], ◌∷◌, ◌++◌, Bool, ◌&&◌, ltb, leb, ◌==◌, if◌then◌else◌,
}

abbrev pub replacement : ℕ
replacement = 0xfffd

unfoldable pub is_high : ℕ → Bool
is_high u = leb 0xd800 u && leb u 0xdbff

unfoldable pub is_low : ℕ → Bool
is_low u = leb 0xdc00 u && leb u 0xdfff

-- The code point of a surrogate pair, and the unit that stands for itself.
unfoldable pub pair_value : ℕ → ℕ → ℕ
pair_value h l = 0x10000 + (h - 0xd800) * 0x400 + (l - 0xdc00)

unfoldable pub lone_value : ℕ → ℕ
unfolding is_high is_low
lone_value u = if is_high u then replacement else if is_low u then replacement else u

-- The UTF-8 bytes of a code point.
unfoldable pub utf8 : ℕ → List ℕ
utf8 c =
    if ltb c 0x80
    then c ∷ []
    else if ltb c 0x800
    then (0xc0 + c / 0x40) ∷ (0x80 + c % 0x40) ∷ []
    else if ltb c 0x10000
    then (0xe0 + c / 0x1000) ∷ (0x80 + c / 0x40 % 0x40) ∷ (0x80 + c % 0x40) ∷ []
    else (0xf0 + c / 0x40000)
      ∷ (0x80 + c / 0x1000 % 0x40)
      ∷ (0x80 + c / 0x40 % 0x40)
      ∷ (0x80 + c % 0x40)
      ∷ []

-- `new TextEncoder().encode(text)`
unfoldable pub encode : List ℕ → List ℕ
unfolding is_high is_low pair_value lone_value utf8
encode [] = []
encode (u ∷ []) = utf8 (lone_value u)
encode (h ∷ l ∷ rest) =
    let paired = utf8 (pair_value h l) ++ encode rest in
    let alone = utf8 (lone_value h) ++ encode (l ∷ rest) in
    if is_high h && is_low l then paired else alone

-- The decoder's state: the code point so far, the bytes that it still needs, and the range that
-- the next one has to lie in.
pub record Decoder : Type 0 where
  pub code_point : ℕ
  pub needed : ℕ
  pub lower : ℕ
  pub upper : ℕ

abbrev pub idle : Decoder
idle = record { code_point = 0; needed = 0; lower = 0x80; upper = 0xbf }

-- The UTF-16 code units of a code point.
unfoldable pub units : ℕ → List ℕ
units c =
    if ltb c 0x10000
    then c ∷ []
    else (0xd800 + (c - 0x10000) / 0x400) ∷ (0xdc00 + (c - 0x10000) % 0x400) ∷ []

-- A byte between two code points.
unfoldable pub begin : ℕ → List ℕ × Decoder
begin b =
    if ltb b 0x80
    then (b ∷ [], idle)
    else if leb 0xc2 b && leb b 0xdf
    then ([], record idle { code_point = b - 0xc0; needed = 1 })
    else if leb 0xe0 b && leb b 0xef
    then (
      [],
      record {
        code_point = b - 0xe0;
        needed = 2;
        lower = if b == 0xe0 then 0xa0 else 0x80;
        upper = if b == 0xed then 0x9f else 0xbf;
      },
    )
    else if leb 0xf0 b && leb b 0xf4
    then (
      [],
      record {
        code_point = b - 0xf0;
        needed = 3;
        lower = if b == 0xf0 then 0x90 else 0x80;
        upper = if b == 0xf4 then 0x8f else 0xbf;
      },
    )
    else (replacement ∷ [], idle)

-- One byte: the units that it completes, and the next state. A byte outside the range ends the
-- code point as a replacement, and is read again.
unfoldable pub step : Decoder → ℕ → List ℕ × Decoder
unfolding begin units
step d b =
    if d.needed == 0
    then begin b
    else if leb d.lower b && leb b d.upper
    then (if d.needed == 1 then (units (d.code_point * 0x40 + b % 0x40), idle) else (
      [],
      record idle { code_point = d.code_point * 0x40 + b % 0x40; needed = d.needed - 1 },
    ))
    else (replacement ∷ (begin b).0, (begin b).1)

unfoldable pub run : Decoder → List ℕ → List ℕ
unfolding step
run d [] = if d.needed == 0 then [] else replacement ∷ []
run d (b ∷ rest) = (step d b).0 ++ run (step d b).1 rest

-- The decoder drops one byte order mark at the front.
unfoldable pub strip_bom : List ℕ → List ℕ
strip_bom [] = []
strip_bom (u ∷ rest) = if u == 0xfeff then rest else u ∷ rest

-- `new TextDecoder().decode(bytes)`
unfoldable pub decode : List ℕ → List ℕ
unfolding run strip_bom
decode bytes = strip_bom (run idle bytes)
