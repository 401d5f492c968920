-- ===== src/Bridge/Pending.antt =====
-- The map of pending requests.
use diarsaba_go.Prelude.{
  ℕ, ◌≡◌, ◌≢◌, refl, List, [], ◌∷◌, none, some, same_key, lookup, Bool-cases, inl, inr,
}
use diarsaba_go.Bridge.{PendingRequest, drop_session, is_of}

some-none : (p : PendingRequest) → some p ≢ none
some-none p e = cc

pub lookup-drop_session-none :
    (s : ℕ) (key : List ℕ) (l : List (List ℕ × PendingRequest))
    → lookup key l ≡ none
    → lookup key (drop_session s l) ≡ none
unfolding lookup drop_session
lookup-drop_session-none s key [] h = refl
lookup-drop_session-none s key ((k, p) ∷ rest) h = elim (Bool-cases (same_key k key)) [
  | inl e ↦ absurd (some-none p (rw e at h))
  | inr e ↦ elim (Bool-cases (is_of s p)) [
    | inl f ↦ rw f (lookup-drop_session-none s key rest (rw e at h))
    | inr f ↦ rw (f, e) (lookup-drop_session-none s key rest (rw e at h))
  ]
]
