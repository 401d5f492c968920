-- ===== src/Common/Ids.antt =====
-- `randomBytes`, `normalizeId` and `buildResultMessage` of cards/js/common.js.
use diarsaba_go.Prelude.{ℕ, ◌≡◌, refl, ◌∙◌, List, ◌∷◌, ◌++◌, length, leb, ◌==◌, false}
use diarsaba_go.Js.Result.{Result, ok, err, error, quota_exceeded, ◌>>=◌, ◌>>◌, guard}
use diarsaba_go.Js.Bytes.{
  View, InBounds, contents, fresh, length-contents, contents-fresh, fresh-InBounds,
}
use diarsaba_go.Js.Entropy.{Entropy, get_random_values, length-get_random_values}
use diarsaba_go.Common.Value.{Value, uint8_array, nullish, to_uint8_array, Converts}
use diarsaba_go.Common.Concat.{concat_bytes}
use diarsaba_go.Common.Concat.Laws.{Parts, next, joined, concat_bytes-Parts}

-- `crypto.getRandomValues` refuses more than 65536 bytes.
unfoldable pub random_bytes : ℕ → Entropy → Result (View × Entropy)
random_bytes size e = do
  guard (leb size 65536) quota_exceeded
  let (out, e') = get_random_values size e
  ok (fresh out, e')

-- `id == null ? randomBytes(16) : toUint8Array(id)`
unfoldable pub raw_id : Value → Entropy → Result (View × Entropy)
unfolding random_bytes to_uint8_array
raw_id nullish e = random_bytes 16 e
raw_id id e = do raw ← to_uint8_array id; ok (raw, e)

unfoldable pub normalize_id : Value → Entropy → Result (View × Entropy)
unfolding raw_id
normalize_id id e = do
  (raw, e') ← raw_id id e
  guard (raw.byte_length == 16) (error "id debe tener 16 bytes")
  ok (raw, e')

unfoldable pub build_result_message : Value → List Value → Entropy → Result (List ℕ × Entropy)
build_result_message id parts e = do
  (raw, e') ← normalize_id id e
  out ← concat_bytes (uint8_array raw ∷ parts)
  ok (out, e')

-- `normalizeId(id)` returns the sixteen bytes `raw`, and leaves the random source at `after`.
pub record Identifies (id : Value) (before : Entropy) (raw : List ℕ) (after : Entropy)
    : Type 0 where
  pub view : View
  pub normalized : normalize_id id before ≡ ok (view, after)
  pub in_bounds : InBounds view
  pub elements : contents view ≡ raw
  pub sixteen : length raw ≡ 16

pub Identifies-Converts :
    {id : Value} {e e' : Entropy} {raw : List ℕ}
    → (h : Identifies id e raw e') → Converts (uint8_array h.view) raw
unfolding to_uint8_array
Identifies-Converts h = record {
  view = h.view;
  converted = refl;
  in_bounds = h.in_bounds;
  elements = h.elements;
}

-- Without an id, sixteen bytes are drawn.
pub Identifies-nullish :
    (e : Entropy) → Identifies nullish e (get_random_values 16 e).0 (get_random_values 16 e).1
unfolding normalize_id
Identifies-nullish e = record {
  view = fresh (get_random_values 16 e).0;
  normalized = rw (length-get_random_values 16 e);
  in_bounds = fresh-InBounds (get_random_values 16 e).0;
  elements = contents-fresh (get_random_values 16 e).0;
  sixteen = length-get_random_values 16 e;
}

-- An array of sixteen bytes is its own id.
pub Identifies-uint8_array :
    (v : View) (e : Entropy)
    → InBounds v
    → v.byte_length ≡ 16
    → Identifies (uint8_array v) e (contents v) e
unfolding normalize_id
Identifies-uint8_array v e h k = record {
  view = v;
  normalized = rw k;
  in_bounds = h;
  elements = refl;
  sixteen = length-contents v h ∙ k;
}

-- An array of any other length is refused.
pub normalize_id_refuses :
    (v : View) (e : Entropy)
    → (v.byte_length == 16) ≡ false
    → normalize_id (uint8_array v) e ≡ err (error "id debe tener 16 bytes")
unfolding normalize_id
normalize_id_refuses v e h = rw h

pub build_result_message-Parts :
    {id : Value} {e e' : Entropy} {raw : List ℕ} {ps : List Value} {xs : List (List ℕ)}
    → Identifies id e raw e'
    → Parts ps xs
    → build_result_message id ps e ≡ ok (raw ++ joined xs, e')
unfolding build_result_message
build_result_message-Parts h t =
    rw (h.normalized, concat_bytes-Parts (next (Identifies-Converts h) t))
