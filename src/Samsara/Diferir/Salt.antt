-- ===== src/Samsara/Diferir/Salt.antt =====
-- The child's salt is found as an id is.
use diarsaba_go.Prelude.{ℕ, ◌≡◌, refl, List}
use diarsaba_go.Js.Result.{ok}
use diarsaba_go.Js.Bytes.{fresh}
use diarsaba_go.Js.Entropy.{Entropy, length-get_random_values}
use diarsaba_go.Common.Value.{Value, uint8_array, nullish}
use diarsaba_go.Common.Ids.{normalize_id, random_bytes, Identifies}
use diarsaba_go.Samsara.Diferir.{salt_bytes}

salt_bytes-normalize_id :
    (child_salt : Value) (e : Entropy) → salt_bytes child_salt e ≡ normalize_id child_salt e
unfolding salt_bytes normalize_id random_bytes fresh
salt_bytes-normalize_id nullish e = rw (length-get_random_values 16 e)
salt_bytes-normalize_id (uint8_array v) e = refl
salt_bytes-normalize_id _ e = refl

pub salt_bytes-Identifies :
    {child_salt : Value} {e e₁ : Entropy} {raw : List ℕ}
    → (h : Identifies child_salt e raw e₁) → salt_bytes child_salt e ≡ ok (h.view, e₁)
salt_bytes-Identifies {child_salt} {e} h = rw (salt_bytes-normalize_id child_salt e, h.normalized)
