-- ===== src/Common/Value.antt =====
-- The JavaScript values that the cards turn into bytes, and `toUint8Array` of cards/js/common.js.
use diarsaba_go.Prelude.{ℕ, ◌≡◌, refl, List, [], length, map}
use diarsaba_go.Js.Result.{Result, ok, err, type_error}
use diarsaba_go.Js.Number.{ℤ, to_uint8}
use diarsaba_go.Js.Bytes.{
  View, InBounds, contents, fresh, contents-fresh, fresh-InBounds, length-contents,
}
use diarsaba_go.Js.Text.{encode}

-- `array_view` is a view that is no Uint8Array (a DataView, another typed array), given by its
-- buffer and its extent in bytes. `array` is an Array of integral numbers. `nullish` is null or
-- undefined, and `other` any value of another kind.
pub data Value : Type 0 where
  uint8_array : View → Value
  array_view : View → Value
  array_buffer : List ℕ → Value
  text : List ℕ → Value
  array : List ℤ → Value
  nullish : Value
  other : Value

-- The conversion copies nothing where the value has a buffer already.
unfoldable pub to_uint8_array : Value → Result View
unfolding fresh
to_uint8_array (uint8_array v) = ok v
to_uint8_array (array_view v) = ok v
to_uint8_array (array_buffer buffer) = ok (fresh buffer)
to_uint8_array (text s) = ok (fresh (encode s))
to_uint8_array (array xs) = ok (fresh (map to_uint8 xs))
to_uint8_array nullish = ok (fresh [])
to_uint8_array other = err (type_error "expected Uint8Array, ArrayBuffer, array or string")

-- An array that the code has just made, as an argument.
abbrev pub part : List ℕ → Value
part xs = uint8_array (fresh xs)

-- `value` is turned into an array whose elements are `xs`.
pub record Converts (value : Value) (xs : List ℕ) : Type 0 where
  pub view : View
  pub converted : to_uint8_array value ≡ ok view
  pub in_bounds : InBounds view
  pub elements : contents view ≡ xs

module _ {value : Value} {xs : List ℕ} (h : Converts value xs) where
  pub Converts-byte_length : h.view.byte_length ≡ length xs
  Converts-byte_length = rw (← h.elements, length-contents h.view h.in_bounds)

pub Converts-view : (v : View) → InBounds v → Converts (uint8_array v) (contents v)
unfolding to_uint8_array
Converts-view v h = record { view = v; converted = refl; in_bounds = h; elements = refl }

pub Converts-part : (xs : List ℕ) → Converts (part xs) xs
unfolding to_uint8_array
Converts-part xs = record {
  view = fresh xs;
  converted = refl;
  in_bounds = fresh-InBounds xs;
  elements = contents-fresh xs;
}

pub Converts-text : (s : List ℕ) → Converts (text s) (encode s)
unfolding to_uint8_array
Converts-text s = record {
  view = fresh (encode s);
  converted = refl;
  in_bounds = fresh-InBounds (encode s);
  elements = contents-fresh (encode s);
}

-- The array that a conversion gave, as an argument of a later call.
pub Converts-again :
    {value : Value} {xs : List ℕ} (h : Converts value xs) → Converts (uint8_array h.view) xs
unfolding to_uint8_array
Converts-again h = record {
  view = h.view;
  converted = refl;
  in_bounds = h.in_bounds;
  elements = h.elements;
}
