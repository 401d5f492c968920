-- ===== src/Common/Convert.antt =====
-- The conversions of cards/js/common.js between texts, numbers and bytes.
use Prim.Native.String.{◌++◌ as joined}
use diarsaba_go.Prelude.{
  ℕ, ◌+◌, ◌/◌, ◌%◌, String, ◌≡◌, refl, List, [], ◌∷◌, ◌++◌, Option, none, some, ltb, leb,
  if◌then◌else◌,
}
use diarsaba_go.Js.Result.{Result, ok, error, ◌>>=◌, ◌>>◌, guard}
use diarsaba_go.Js.Number.{ℤ, to_uint32, be32, be16}
use diarsaba_go.Js.Bytes.{View, contents, zeros, data_view, get_uint32, set_uint32, set_uint16}
use diarsaba_go.Js.Text.{encode, decode}
use diarsaba_go.Common.Value.{Value, to_uint8_array}

-- `Uint8Array.from` makes a copy.
unfoldable pub clone_bytes : Value → Result (List ℕ)
unfolding to_uint8_array
clone_bytes bytes = do v ← to_uint8_array bytes; ok (contents v)

-- `encoder.encode(value || "")`, of a string or nothing.
unfoldable pub utf8_bytes : Option (List ℕ) → List ℕ
utf8_bytes none = encode []
utf8_bytes (some s) = encode s

unfoldable pub utf8_text : Value → Result (List ℕ)
unfolding to_uint8_array
utf8_text bytes = do v ← to_uint8_array bytes; ok (decode (contents v))

-- `digit` is a hexadecimal digit's character, `to_string16` is `byte.toString(16)` of a byte, and
-- `pad_start2` is `padStart(2, "0")`.
digit : ℕ → ℕ
digit n = if ltb n 10 then b'0' + n else 87 + n

to_string16 : ℕ → List ℕ
unfolding digit
to_string16 b = if ltb b 16 then digit b ∷ [] else digit (b / 16) ∷ digit (b % 16) ∷ []

pad_start2 : List ℕ → List ℕ
pad_start2 [] = b'0' ∷ b'0' ∷ []
pad_start2 (c ∷ []) = b'0' ∷ c ∷ []
pad_start2 (c ∷ d ∷ rest) = c ∷ d ∷ rest

-- `Array.from(bytes, …).join("")`
unfoldable pub hex_digits : List ℕ → List ℕ
unfolding to_string16 pad_start2
hex_digits [] = []
hex_digits (b ∷ rest) = pad_start2 (to_string16 b) ++ hex_digits rest

unfoldable pub hex : Value → Result (List ℕ)
unfolding to_uint8_array hex_digits
hex bytes = do v ← to_uint8_array bytes; ok (hex_digits (contents v))

-- The message of `ensureMinLength`.
abbrev pub too_short : String → String
too_short label = joined label ": mensaje demasiado corto"

unfoldable pub ensure_min_length : View → ℕ → String → Result (Unit {0})
ensure_min_length bytes min_length label =
    guard (leb min_length bytes.byte_length) (error (too_short label))

-- `setUint16` keeps the low 16 bits of the number.
unfoldable pub u16_bytes : ℤ → List ℕ
u16_bytes value = set_uint16 (zeros 2) (to_uint32 value)

unfoldable pub u32_bytes : ℤ → List ℕ
u32_bytes value = set_uint32 (zeros 4) (to_uint32 value)

-- `new DataView(bytes.buffer, bytes.byteOffset + offset, 4).getUint32(0, false)`
unfoldable pub word_at : View → ℕ → Result ℕ
word_at bytes offset = do
  window ← data_view bytes.buffer (bytes.byte_offset + offset) 4
  get_uint32 window

unfoldable pub read_u32 : View → ℕ → Result ℕ
unfolding ensure_min_length word_at
read_u32 bytes offset = do ensure_min_length bytes (offset + 4) "readU32"; word_at bytes offset

pub u32_bytes-be32 : (v : ℤ) → u32_bytes v ≡ be32 (to_uint32 v)
unfolding u32_bytes set_uint32 be32
u32_bytes-be32 v = refl

pub u16_bytes-be16 : (v : ℤ) → u16_bytes v ≡ be16 (to_uint32 v)
unfolding u16_bytes set_uint16 be16
u16_bytes-be16 v = refl
