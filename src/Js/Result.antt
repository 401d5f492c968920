-- ===== src/Js/Result.antt =====
-- A JavaScript call returns a value or throws. An error keeps its class and its message.
use diarsaba_go.Prelude.{String, ◌≡◌, refl, Bool, true, false}

pub data Error : Type 0 where
  error : String → Error
  type_error : String → Error
  range_error : Error
  quota_exceeded : Error

pub data Result {ℓ} (A : Type ℓ) : Type ℓ where
  err : Error → Result A
  ok : A → Result A

-- `if (!test) throw e`
abbrev pub guard : Bool → Error → Result (Unit {0})
guard false e = err e
guard true e = ok tt

-- One call after another; where the first throws, the second does not run.
infixl 5 ◌>>◌ ◌>>=◌
abbrev pub ◌>>=◌ {κ ℓ} : {B : Type κ} {A : Type ℓ} → Result B → (B → Result A) → Result A
err e >>= call = err e
ok value >>= call = call value

abbrev pub ◌>>◌ {ℓ} : {A : Type ℓ} → Result (Unit {0}) → Result A → Result A
test >> call = test >>= λ u. call

-- Of two calls, neither of which threw: what each returned.
pub returned {κ ℓ} :
    {B : Type κ} {A : Type ℓ} {r : A} (call : B → Result A) (first : Result B)
    → (first >>= call) ≡ ok r
    → (value : B) × (call value ≡ ok r) × (first ≡ ok value)
returned call (err e) both = cc
returned call (ok value) both = (value, both, refl)

pub ok-injective {ℓ} : {A : Type ℓ} {a b : A} → ok a ≡ ok b → a ≡ b
ok-injective e = cc
