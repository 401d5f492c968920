-- ===== src/Common/Cursor/Reading.antt =====
-- A cursor reads the elements of its window that stand at its offset, in order, and never a byte
-- of the buffer outside the window.
use diarsaba_go.Prelude.{
  ℕ, ◌+◌, ◌-◌, ◌^◌, ◌≤◌, ◌<◌, String, ◌≡◌, refl, sym, ap, ◌∙◌, List, ◌++◌, length, take, drop,
  length-append, length-drop, le→leb, take-length_append, drop-length_append, drop-drop,
  take-drop-take, arith,
}
use diarsaba_go.Js.Result.{Result, ok, ◌>>=◌}
use diarsaba_go.Js.Number.{be32, word32-be32}
use diarsaba_go.Js.Bytes.{InBounds, contents, slice, data_view, get_uint32, length-contents}
use diarsaba_go.Common.Value.{Value, Converts}
use diarsaba_go.Common.Convert.{ensure_min_length, word_at}
use diarsaba_go.Common.Cursor.{Cursor, make_cursor, skip, u32, bytes_slice}

-- `xs` is what the cursor has not read yet.
pub record At (c : Cursor) (xs : List ℕ) : Type 0 where
  pub in_bounds : InBounds c.bytes
  pub within : c.offset ≤ c.bytes.byte_length
  pub unread : drop c.offset (contents c.bytes) ≡ xs

pub At-length : {c : Cursor} {xs : List ℕ} → At c xs → c.offset + length xs ≡ c.bytes.byte_length
At-length {c} {xs} h = rw (← h.unread) (
    omega (
      arith,
      h.within,
      length-drop c.offset (contents c.bytes),
      length-contents c.bytes h.in_bounds,
    ))

-- The position after `n` elements.
pub advance : ℕ → Cursor → Cursor
advance n c = record c { offset = c.offset + n }

module _ {c : Cursor} (xs ys : List ℕ) (h : At c (xs ++ ys)) where
  room : c.offset + length xs ≤ c.bytes.byte_length
  room = omega (arith, At-length h, length-append xs ys)

  pub At-advance : At (advance (length xs) c) ys
  unfolding advance
  At-advance = record {
    in_bounds = h.in_bounds;
    within = room;
    unread =
        sym (drop-drop (length xs) c.offset (contents c.bytes))
        ∙ rw (h.unread, drop-length_append (length xs) xs ys refl);
  }

  long_enough : (label : String) → ensure_min_length c.bytes (c.offset + length xs) label ≡ ok tt
  unfolding ensure_min_length
  long_enough label = rw (le→leb _ _ room)

  -- The piece that a slice or a window at the offset holds.
  piece : take (length xs) (drop c.offset (contents c.bytes)) ≡ xs
  piece = rw (h.unread, take-length_append (length xs) xs ys refl)

  pub window_at : data_view c.bytes.buffer (c.bytes.byte_offset + c.offset) (length xs) ≡ ok xs
  unfolding data_view contents
  window_at =
      let fits : c.bytes.byte_offset + c.offset + length xs ≤ length c.bytes.buffer =
        omega (arith, room, h.in_bounds.fits) in
      rw
        (
          le→leb _ _ fits,
          ← drop-drop c.offset c.bytes.byte_offset c.bytes.buffer,
          ← take-drop-take (length xs) c.offset c.bytes.byte_length
              (drop c.bytes.byte_offset c.bytes.buffer) room,
        )
        (ap ok piece)

  pub skip_reads : (label : String) → skip (length xs) label c ≡ ok (advance (length xs) c)
  unfolding skip advance
  skip_reads label = rw (long_enough label)

  pub bytes_slice_reads :
      (label : String) → bytes_slice (length xs) label c ≡ ok (xs, advance (length xs) c)
  unfolding bytes_slice slice advance
  bytes_slice_reads label =
      let e : c.offset + length xs - c.offset ≡ length xs = omega arith in
      rw (long_enough label, e, piece)

pub u32_reads :
    {c : Cursor} (w : ℕ) (ys : List ℕ) (label : String)
    → w < 2 ^ 32
    → At c (be32 w ++ ys)
    → u32 label c ≡ ok (w, advance 4 c)
unfolding u32 word_at be32 get_uint32 advance
u32_reads w ys label fits h =
    rw (long_enough (be32 w) ys h label, window_at (be32 w) ys h, word32-be32 w fits)

-- How a call goes on after each method, where the bytes are there.
module _ {ℓ} {A : Type ℓ} {c : Cursor} (label : String) {r : Result A} where
  pub skip-bind :
      (n : ℕ) (xs ys : List ℕ) (f : Cursor → Result A)
      → length xs ≡ n
      → At c (xs ++ ys)
      → ((c' : Cursor) → At c' ys → f c' ≡ r)
      → (skip n label c >>= f) ≡ r
  skip-bind n xs ys f k h go = rw (← k, skip_reads xs ys h label) (go _ (At-advance xs ys h))

  pub bytes_slice-bind :
      (n : ℕ) (xs ys : List ℕ) (f : List ℕ × Cursor → Result A)
      → length xs ≡ n
      → At c (xs ++ ys)
      → ((c' : Cursor) → At c' ys → f (xs, c') ≡ r)
      → (bytes_slice n label c >>= f) ≡ r
  bytes_slice-bind n xs ys f k h go =
      rw (← k, bytes_slice_reads xs ys h label) (go _ (At-advance xs ys h))

  pub u32-bind :
      (w : ℕ) (ys : List ℕ) (f : ℕ × Cursor → Result A)
      → w < 2 ^ 32
      → At c (be32 w ++ ys)
      → ((c' : Cursor) → At c' ys → f (w, c') ≡ r)
      → (u32 label c >>= f) ≡ r
  unfolding be32
  u32-bind w ys f k h go = rw (u32_reads w ys label k h) (go _ (At-advance (be32 w) ys h))

  -- The length test at the front of each parser.
  pub ensure_min_length-bind :
      (n : ℕ) (xs : List ℕ) (f : Unit {0} → Result A)
      → At c xs
      → c.offset ≡ 0
      → n ≤ length xs
      → f tt ≡ r
      → (ensure_min_length c.bytes n label >>= f) ≡ r
  unfolding ensure_min_length
  ensure_min_length-bind n xs f h z k go =
      let enough : n ≤ c.bytes.byte_length = omega (arith, At-length h) in rw (le→leb _ _ enough) go

pub make_cursor-bind {ℓ} :
    {A : Type ℓ} {input : Value} {xs : List ℕ} {r : Result A} (f : Cursor → Result A)
    → Converts input xs
    → ((c' : Cursor) → At c' xs → c'.offset ≡ 0 → f c' ≡ r)
    → (make_cursor input >>= f) ≡ r
unfolding make_cursor
make_cursor-bind f h go =
    rw h.converted
      (go _ (record { in_bounds = h.in_bounds; within = omega arith; unread = h.elements }) refl)
