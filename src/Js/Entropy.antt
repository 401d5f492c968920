-- ===== src/Js/Entropy.antt =====
-- `crypto.getRandomValues`: a source of bytes, of which each call takes the next ones.
use diarsaba_go.Prelude.{ℕ, zero, suc, ◌+◌, ◌%◌, ◌≡◌, refl, ap, List, [], ◌∷◌, length, All, arith}
use diarsaba_go.Js.Number.{IsByte}

pub record Entropy : Type 0 where
  pub source : ℕ → ℕ
  pub used : ℕ

draw : (ℕ → ℕ) → ℕ → ℕ → List ℕ
draw source zero at = []
draw source (suc n) at = (source at % 256) ∷ draw source n (at + 1)

-- `crypto.getRandomValues(new Uint8Array(n))`
unfoldable pub get_random_values : ℕ → Entropy → List ℕ × Entropy
unfolding draw
get_random_values n e = (draw e.source n e.used, record e { used = e.used + n })

length-draw : (source : ℕ → ℕ) (n at : ℕ) → length (draw source n at) ≡ n
unfolding draw
length-draw source zero at = refl
length-draw source (suc n) at = ap suc (length-draw source n (at + 1))

draw-IsByte : (source : ℕ → ℕ) (n at : ℕ) → All IsByte (draw source n at)
unfolding draw
draw-IsByte source zero at = tt
draw-IsByte source (suc n) at = (omega arith, draw-IsByte source n (at + 1))

pub length-get_random_values : (n : ℕ) (e : Entropy) → length (get_random_values n e).0 ≡ n
unfolding get_random_values
length-get_random_values n e = length-draw e.source n e.used

pub get_random_values-IsByte : (n : ℕ) (e : Entropy) → All IsByte (get_random_values n e).0
unfolding get_random_values
get_random_values-IsByte n e = draw-IsByte e.source n e.used
