-- ===== src/Js/Strings/Quote.antt =====
-- `JSON.stringify` of a string.
use diarsaba_go.Prelude.{ℕ, ◌/◌, ◌%◌, List, [], ◌∷◌, ◌++◌, ◌&&◌, ltb, ◌==◌, if◌then◌else◌}
use diarsaba_go.Js.Text.{is_high, is_low}
use diarsaba_go.Js.Strings.Numerals.{digit}

-- `\u` and four digits.
abbrev pub unicode_escape : ℕ → List ℕ
unicode_escape u =
    b'\\'
    ∷ b'u'
    ∷ digit (u / 0x1000)
    ∷ digit (u / 0x100 % 16)
    ∷ digit (u / 16 % 16)
    ∷ digit (u % 16)
    ∷ []

-- A unit that is no part of a surrogate pair.
unfoldable pub quote_unit : ℕ → List ℕ
quote_unit u =
    if u == 8
    then b'\\' ∷ b'b' ∷ []
    else if u == 9
    then b'\\' ∷ b't' ∷ []
    else if u == 10
    then b'\\' ∷ b'n' ∷ []
    else if u == 12
    then b'\\' ∷ b'f' ∷ []
    else if u == 13
    then b'\\' ∷ b'r' ∷ []
    else if u == 34
    then b'\\' ∷ 34 ∷ []
    else if u == 92
    then b'\\' ∷ b'\\' ∷ []
    else if ltb u 32
    then unicode_escape u
    else if is_high u
    then unicode_escape u
    else if is_low u
    then unicode_escape u
    else u ∷ []

unfoldable pub quote_units : List ℕ → List ℕ
quote_units [] = []
quote_units (u ∷ []) = quote_unit u
quote_units (h ∷ l ∷ rest) =
    let paired = h ∷ l ∷ quote_units rest in
    let alone = quote_unit h ++ quote_units (l ∷ rest) in
    if is_high h && is_low l then paired else alone

unfoldable pub quote_text : List ℕ → List ℕ
quote_text s = 34 ∷ (quote_units s ++ (34 ∷ []))
