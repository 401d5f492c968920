-- ===== src/Common/Fixed.antt =====
-- Reads at fixed offsets of an array, by the bytes that stand in front.
use diarsaba_go.Prelude.{
  ℕ, ◌+◌, ◌-◌, ◌^◌, ◌≤◌, ◌<◌, String, ◌≡◌, ap, List, ◌++◌, length, le→leb, length-append,
  take-length_append, drop-length_append, arith,
}
use diarsaba_go.Js.Result.{ok}
use diarsaba_go.Js.Number.{be32, word32-be32}
use diarsaba_go.Js.Bytes.{slice, slice_from, get_uint32}
use diarsaba_go.Common.Value.{Value, Converts, Converts-byte_length}
use diarsaba_go.Common.Convert.{ensure_min_length, word_at, read_u32}
use diarsaba_go.Common.Cursor.Reading.{At, window_at}

module _ {message : Value} {xs : List ℕ} (m : Converts message xs) where
  pub ensure_min_length_reads :
      (n : ℕ) (label : String) → n ≤ length xs → ensure_min_length m.view n label ≡ ok tt
  unfolding ensure_min_length
  ensure_min_length_reads n label k =
      let enough : n ≤ m.view.byte_length = omega (arith, Converts-byte_length m) in
      rw (le→leb _ _ enough)

  -- A cursor that stands behind the bytes `before`.
  behind :
      (before ys : List ℕ) {n : ℕ}
      → xs ≡ before ++ ys
      → length before ≡ n
      → At (record { bytes = m.view; offset = n }) ys
  behind before ys {n} e k = record {
    in_bounds = m.in_bounds;
    within = omega (arith, Converts-byte_length m, length-append before ys, ap length e);
    unread = rw (m.elements, e, drop-length_append n before ys k);
  }

  pub word_at_reads :
      (before : List ℕ) (w : ℕ) (ys : List ℕ) {n : ℕ}
      → xs ≡ before ++ (be32 w ++ ys)
      → length before ≡ n
      → w < 2 ^ 32
      → word_at m.view n ≡ ok w
  unfolding word_at be32 get_uint32
  word_at_reads before w ys e k fits =
      rw (window_at (be32 w) ys (behind before (be32 w ++ ys) e k), word32-be32 w fits)

  pub read_u32_reads :
      (before : List ℕ) (w : ℕ) (ys : List ℕ) {n : ℕ}
      → xs ≡ before ++ (be32 w ++ ys)
      → length before ≡ n
      → w < 2 ^ 32
      → read_u32 m.view n ≡ ok w
  unfolding read_u32
  read_u32_reads before w ys {n} e k fits =
      let enough : n + 4 ≤ length xs =
        unfold be32 in omega (arith, ap length e, length-append before (be32 w ++ ys)) in
      rw (ensure_min_length_reads (n + 4) "readU32" enough) (word_at_reads before w ys e k fits)

  pub slice_reads :
      (start end : ℕ) (before s ys : List ℕ)
      → xs ≡ before ++ (s ++ ys)
      → length before ≡ start
      → length s ≡ end - start
      → slice m.view start end ≡ s
  unfolding slice
  slice_reads start end before s ys e k l =
      rw (
        m.elements,
        e,
        drop-length_append start before _ k,
        take-length_append (end - start) s ys l,
      )

  pub slice_from_reads :
      (before ys : List ℕ) {n : ℕ}
      → xs ≡ before ++ ys
      → length before ≡ n
      → slice_from m.view n ≡ ys
  unfolding slice_from
  slice_from_reads before ys {n} e k = rw (m.elements, e, drop-length_append n before ys k)
