-- ===== src/Common/Cursor/Inversion.antt =====
-- What a cursor method that did not throw says of the bytes.
use diarsaba_go.Prelude.{
  ℕ, ◌+◌, ◌^◌, ◌≤◌, ◌<◌, String, ◌≡◌, sym, ap, List, [], ◌∷◌, ◌++◌, length, take, drop, length-take,
  take-append-drop, All, All-drop, arith,
}
use mathlib.Core.Path.{subst}
use diarsaba_go.Js.Result.{Result, ok, ◌>>=◌, returned}
use diarsaba_go.Js.Number.{IsByte, be32, word32, word32-lt, be32-word32}
use diarsaba_go.Js.Bytes.{View}
use diarsaba_go.Common.Value.{Value, Converts}
use diarsaba_go.Common.Convert.{ensure_min_length}
use diarsaba_go.Common.Cursor.{Cursor, make_cursor, skip, u32, bytes_slice}
use diarsaba_go.Common.Cursor.Reading.{
  At, At-length, At-advance, advance, skip_reads, bytes_slice_reads, u32_reads,
}

-- The first four bytes are the big-endian bytes of some word.
pub four_bytes :
    (xs : List ℕ)
    → 4 ≤ length xs
    → All IsByte xs
    → (w : ℕ) × (ys : List ℕ) × (w < 2 ^ 32) × (xs ≡ be32 w ++ ys) × All IsByte ys
four_bytes (a ∷ b ∷ c ∷ d ∷ ys) h (ha, (hb, (hc, (hd, hys)))) = (
  word32 a b c d,
  ys,
  word32-lt a b c d ha hb hc hd,
  ap (λ t. t ++ ys) (sym (be32-word32 a b c d ha hb hc hd)),
  hys,
)
four_bytes [] h p = absurd (omega arith)
four_bytes (a ∷ []) h p = absurd (omega arith)
four_bytes (a ∷ b ∷ []) h p = absurd (omega arith)
four_bytes (a ∷ b ∷ c ∷ []) h p = absurd (omega arith)

-- A test at the front of a method that did not throw has passed.
ensure_min_length-ok :
    (v : View) (n : ℕ) (label : String) {u : Unit {0}}
    → ensure_min_length v n label ≡ ok u
    → n ≤ v.byte_length
unfolding ensure_min_length
ensure_min_length-ok v n label h = ground arith

test_passed {ℓ} :
    {A : Type ℓ} (v : View) (n : ℕ) (label : String) (f : Unit {0} → Result A) {r : A}
    → (ensure_min_length v n label >>= f) ≡ ok r
    → n ≤ v.byte_length
test_passed v n label f h =
    let (u, _, passed) = returned f (ensure_min_length v n label) h in
    ensure_min_length-ok v n label passed

module _ (c : Cursor) (label : String) where
  skip_fits : (n : ℕ) {c' : Cursor} → skip n label c ≡ ok c' → c.offset + n ≤ c.bytes.byte_length
  unfolding skip
  skip_fits n e = test_passed c.bytes (c.offset + n) label _ e

  bytes_slice_fits :
      (n : ℕ) {p : List ℕ × Cursor}
      → bytes_slice n label c ≡ ok p
      → c.offset + n ≤ c.bytes.byte_length
  unfolding bytes_slice
  bytes_slice_fits n e = test_passed c.bytes (c.offset + n) label _ e

  u32_fits : {p : ℕ × Cursor} → u32 label c ≡ ok p → c.offset + 4 ≤ c.bytes.byte_length
  unfolding u32
  u32_fits e = test_passed c.bytes (c.offset + 4) label _ e

-- `n` bytes that are there can be split off.
pub split :
    {c : Cursor} {xs : List ℕ} (n : ℕ)
    → At c xs
    → c.offset + n ≤ c.bytes.byte_length
    → (length (take n xs) ≡ n) × (xs ≡ take n xs ++ drop n xs)
split {xs = xs} n h k = (omega (arith, length-take n xs, At-length h), sym (take-append-drop n xs))

-- A method that did not throw has read the bytes in front, and the call has gone on behind them.
-- The rest of a proof is a function of what was read.
module _ {ℓ κ} {A : Type ℓ} {c : Cursor} (label : String) {r : A} {xs : List ℕ} (h : At c xs)
    (p : All IsByte xs) where
  pub u32-inv :
      (f : ℕ × Cursor → Result A) {P : Type κ}
      → (u32 label c >>= f) ≡ ok r
      → ((w : ℕ) (ys : List ℕ) (c' : Cursor)
          → w < 2 ^ 32
          → xs ≡ be32 w ++ ys
          → All IsByte ys
          → At c' ys
          → f (w, c') ≡ ok r
          → P)
      → P
  unfolding be32
  u32-inv f run go =
      let (_, _, read) = returned f (u32 label c) run in
      let (w, ys, fits, e, q) =
        four_bytes xs (omega (arith, At-length h, u32_fits c label read)) p in
      let h' : At c (be32 w ++ ys) = rw e at h in
      go w ys (advance 4 c) fits e q (At-advance (be32 w) ys h')
        (rw (u32_reads w ys label fits h') at run)

  pub bytes_slice-inv :
      (n : ℕ) (f : List ℕ × Cursor → Result A) {P : Type κ}
      → (bytes_slice n label c >>= f) ≡ ok r
      → ((s ys : List ℕ) (c' : Cursor)
          → length s ≡ n
          → xs ≡ s ++ ys
          → All IsByte ys
          → At c' ys
          → f (s, c') ≡ ok r
          → P)
      → P
  bytes_slice-inv n f run go =
      let (_, _, read) = returned f (bytes_slice n label c) run in
      let s = take n xs in
      let ys = drop n xs in
      let (k, e) = split n h (bytes_slice_fits c label n read) in
      let h' : At c (s ++ ys) = subst (At c) e h in
      go s ys (advance (length s) c) k e (All-drop IsByte n xs p) (At-advance s ys h')
        (rw (← k, bytes_slice_reads s ys h' label) at run)

  pub skip-inv :
      (n : ℕ) (f : Cursor → Result A) {P : Type κ}
      → (skip n label c >>= f) ≡ ok r
      → ((s ys : List ℕ) (c' : Cursor)
          → length s ≡ n
          → xs ≡ s ++ ys
          → All IsByte ys
          → At c' ys
          → f c' ≡ ok r
          → P)
      → P
  skip-inv n f run go =
      let (_, _, read) = returned f (skip n label c) run in
      let s = take n xs in
      let ys = drop n xs in
      let (k, e) = split n h (skip_fits c label n read) in
      let h' : At c (s ++ ys) = subst (At c) e h in
      go s ys (advance (length s) c) k e (All-drop IsByte n xs p) (At-advance s ys h')
        (rw (← k, skip_reads s ys h' label) at run)

pub ensure_min_length-inv {ℓ κ} :
    {A : Type ℓ} {P : Type κ} (v : View) (n : ℕ) (label : String) (f : Unit {0} → Result A) {r : A}
    → (ensure_min_length v n label >>= f) ≡ ok r
    → (f tt ≡ ok r → P)
    → P
ensure_min_length-inv v n label f run go =
    let (_, after, _) = returned f (ensure_min_length v n label) run in go after

pub make_cursor-inv {ℓ κ} :
    {A : Type ℓ} {P : Type κ} {input : Value} {xs : List ℕ} {r : A} (f : Cursor → Result A)
    → Converts input xs
    → (make_cursor input >>= f) ≡ ok r
    → ((c' : Cursor) → At c' xs → f c' ≡ ok r → P)
    → P
unfolding make_cursor
make_cursor-inv f h run go =
    go (record { bytes = h.view; offset = 0 })
      (record { in_bounds = h.in_bounds; within = omega arith; unread = h.elements })
      (rw h.converted at run)
