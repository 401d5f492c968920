-- ===== src/Common/Cursor/Errors.antt =====
-- What a cursor method can throw: only the error that a message is too short.
use diarsaba_go.Prelude.{
  ℕ, ◌+◌, ◌≤◌, String, ◌≡◌, refl, List, ◌++◌, length, take, drop, All, All-drop, leb, leb→le,
  Bool-cases, inl, inr, arith,
}
use mathlib.Core.Path.{subst}
use diarsaba_go.Js.Result.{error, Result, ok, err, ◌>>=◌}
use diarsaba_go.Js.Number.{IsByte, be32}
use diarsaba_go.Js.Bytes.{View}
use diarsaba_go.Common.Value.{Value, Converts}
use diarsaba_go.Common.Convert.{too_short, ensure_min_length}
use diarsaba_go.Common.Cursor.{Cursor, make_cursor, skip, u32, bytes_slice}
use diarsaba_go.Common.Cursor.Inversion.{four_bytes, split}
use diarsaba_go.Common.Cursor.Reading.{
  At, At-length, At-advance, advance, skip_reads, bytes_slice_reads, u32_reads,
}

-- A call returns, or throws the error of `ensureMinLength` with some label.
abbrev pub ThrowsShort {ℓ} : {A : Type ℓ} → Result A → Type 0
ThrowsShort (ok value) = Unit {0}
ThrowsShort (err e) = (label : String) × (e ≡ error (too_short label))

pub ensure_min_length-ThrowsShort {ℓ} :
    {A : Type ℓ} (v : View) (n : ℕ) (label : String) (f : Unit {0} → Result A)
    → (n ≤ v.byte_length → ThrowsShort (f tt))
    → ThrowsShort (ensure_min_length v n label >>= f)
unfolding ensure_min_length
ensure_min_length-ThrowsShort v n label f go = elim (Bool-cases (leb n v.byte_length)) [
  | inl e ↦ rw e (go (leb→le n v.byte_length e))
  | inr e ↦ rw e (label, refl)
]

module _ {ℓ} {A : Type ℓ} {c : Cursor} (label : String) {xs : List ℕ} (h : At c xs)
    (p : All IsByte xs) where
  pub u32-ThrowsShort :
      (f : ℕ × Cursor → Result A)
      → ((w : ℕ) (ys : List ℕ) (c' : Cursor) → At c' ys → All IsByte ys → ThrowsShort (f (w, c')))
      → ThrowsShort (u32 label c >>= f)
  u32-ThrowsShort f go = elim (Bool-cases (leb (c.offset + 4) c.bytes.byte_length)) [
    | inl e ↦
        let room = leb→le (c.offset + 4) c.bytes.byte_length e in
        let (w, ys, fits, same, q) = four_bytes xs (omega (arith, At-length h, room)) p in
        let h' : At c (be32 w ++ ys) = rw same at h in
        rw (u32_reads w ys label fits h')
          (go w ys (advance 4 c) (unfold be32 in At-advance (be32 w) ys h') q)
    | inr e ↦ (unfold u32 in unfold ensure_min_length in rw e (label, refl))
  ]

  pub bytes_slice-ThrowsShort :
      (n : ℕ) (f : List ℕ × Cursor → Result A)
      → ((s ys : List ℕ) (c' : Cursor) → At c' ys → All IsByte ys → ThrowsShort (f (s, c')))
      → ThrowsShort (bytes_slice n label c >>= f)
  bytes_slice-ThrowsShort n f go = elim (Bool-cases (leb (c.offset + n) c.bytes.byte_length)) [
    | inl e ↦
        let s = take n xs in
        let ys = drop n xs in
        let (k, same) = split n h (leb→le (c.offset + n) c.bytes.byte_length e) in
        let h' : At c (s ++ ys) = subst (At c) same h in
        rw (← k, bytes_slice_reads s ys h' label)
          (go s ys (advance (length s) c) (At-advance s ys h') (All-drop IsByte n xs p))
    | inr e ↦ (unfold bytes_slice in unfold ensure_min_length in rw e (label, refl))
  ]

  pub skip-ThrowsShort :
      (n : ℕ) (f : Cursor → Result A)
      → ((ys : List ℕ) (c' : Cursor) → At c' ys → All IsByte ys → ThrowsShort (f c'))
      → ThrowsShort (skip n label c >>= f)
  skip-ThrowsShort n f go = elim (Bool-cases (leb (c.offset + n) c.bytes.byte_length)) [
    | inl e ↦
        let s = take n xs in
        let ys = drop n xs in
        let (k, same) = split n h (leb→le (c.offset + n) c.bytes.byte_length e) in
        let h' : At c (s ++ ys) = subst (At c) same h in
        rw (← k, skip_reads s ys h' label)
          (go ys (advance (length s) c) (At-advance s ys h') (All-drop IsByte n xs p))
    | inr e ↦ (unfold skip in unfold ensure_min_length in rw e (label, refl))
  ]

pub make_cursor-ThrowsShort {ℓ} :
    {A : Type ℓ} {input : Value} {xs : List ℕ} (f : Cursor → Result A)
    → Converts input xs
    → ((c' : Cursor) → At c' xs → ThrowsShort (f c'))
    → ThrowsShort (make_cursor input >>= f)
unfolding make_cursor
make_cursor-ThrowsShort f h go = rw h.converted (
    go (record { bytes = h.view; offset = 0 })
      (record { in_bounds = h.in_bounds; within = omega arith; unread = h.elements }))
