-- ===== src/Tests/Fixtures.antt =====
-- Arguments of the concrete runs.
use diarsaba_go.Prelude.{ℕ, ◌+◌, ◌<◌, List, [], ◌∷◌, All, ltb, ◌≡◌, Bool, true, ◌&&◌, refl, arith}
use diarsaba_go.Js.Number.{IsByte}
use diarsaba_go.Js.Bytes.{View, contents}
use diarsaba_go.Js.Entropy.{Entropy, get_random_values}
use diarsaba_go.Js.Text.{encode}
use diarsaba_go.Common.Value.{uint8_array, text, nullish, Converts, Converts-text}
use diarsaba_go.Common.Ids.{Identifies, Identifies-uint8_array, Identifies-nullish}

-- The id is a window on a larger buffer.
abbrev pub id_bytes : List ℕ
id_bytes = 1 ∷ 2 ∷ 3 ∷ 4 ∷ 5 ∷ 6 ∷ 7 ∷ 8 ∷ 9 ∷ 10 ∷ 11 ∷ 12 ∷ 13 ∷ 14 ∷ 15 ∷ 16 ∷ []

abbrev pub id_view : View
id_view = record {
  buffer = 0 ∷ 0 ∷ 1 ∷ 2 ∷ 3 ∷ 4 ∷ 5 ∷ 6 ∷ 7 ∷ 8 ∷ 9 ∷ 10 ∷ 11 ∷ 12 ∷ 13 ∷ 14 ∷ 15 ∷ 16 ∷ 0 ∷ [];
  byte_offset = 2;
  byte_length = 16;
}

abbrev pub entropy : Entropy
entropy = record { source = λ n. n + 250; used = 0 }

abbrev pub entropy_after : Entropy
entropy_after = record { source = λ n. n + 250; used = 16 }

abbrev pub drawn_bytes : List ℕ
drawn_bytes = 250 ∷ 251 ∷ 252 ∷ 253 ∷ 254 ∷ 255 ∷ 0 ∷ 1 ∷ 2 ∷ 3 ∷ 4 ∷ 5 ∷ 6 ∷ 7 ∷ 8 ∷ 9 ∷ []

pub id_given : Identifies (uint8_array id_view) entropy id_bytes entropy
unfolding contents
id_given = Identifies-uint8_array id_view entropy (record { fits = omega arith }) refl

pub id_drawn : Identifies nullish entropy drawn_bytes entropy_after
unfolding get_random_values
id_drawn = Identifies-nullish entropy

-- "ñu", as code units and as bytes.
abbrev pub name_units : List ℕ
name_units = 241 ∷ 117 ∷ []

abbrev pub name_bytes : List ℕ
name_bytes = 195 ∷ 177 ∷ 117 ∷ []

pub name_text : Converts (text name_units) name_bytes
unfolding encode
name_text = Converts-text name_units

abbrev pub key_bytes : List ℕ
key_bytes = 107 ∷ 49 ∷ []

abbrev pub value_bytes : List ℕ
value_bytes = 0 ∷ 255 ∷ 7 ∷ 0 ∷ []

abbrev pub secret_bytes : List ℕ
secret_bytes = 115 ∷ []

-- A test of a list for bytes.
abbrev pub all_bytes : List ℕ → Bool
all_bytes [] = true
all_bytes (b ∷ bs) = ltb b 256 && all_bytes bs

first_is_byte : (b : ℕ) (others : Bool) → (ltb b 256 && others) ≡ true → b < 256
first_is_byte b others h = ground arith

others_are_bytes : (b : ℕ) (others : Bool) → (ltb b 256 && others) ≡ true → others ≡ true
others_are_bytes b others h = ground arith

pub all_bytes-IsByte : (bs : List ℕ) → all_bytes bs ≡ true → All IsByte bs
all_bytes-IsByte [] h = tt
all_bytes-IsByte (b ∷ bs) h =
    (first_is_byte b (all_bytes bs) h, all_bytes-IsByte bs (others_are_bytes b (all_bytes bs) h))
