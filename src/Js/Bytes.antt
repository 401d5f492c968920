-- ===== src/Js/Bytes.antt =====
-- Typed arrays and DataView. An array that the code makes itself is the list of its bytes. One
-- that a caller hands in may be a window on a larger buffer, and is a `View`.
use diarsaba_go.Prelude.{
  ℕ, ◌+◌, ◌-◌, ◌≤◌, ◌≡◌, List, ◌∷◌, length, take, drop, replicate, overwrite, All, leb, arith,
  length-take, length-drop, take-of_le, All-take, All-drop,
}
use diarsaba_go.Js.Result.{Result, ok, err, range_error, ◌>>◌, guard}
use diarsaba_go.Js.Number.{IsByte, be32, be16, word32}

pub record View : Type 0 where
  pub buffer : List ℕ
  pub byte_offset : ℕ
  pub byte_length : ℕ

-- What JavaScript guarantees of every typed array: its window lies in its buffer.
pub record InBounds (v : View) : Type 0 where
  pub fits : v.byte_offset + v.byte_length ≤ length v.buffer

-- The elements of the window.
unfoldable pub contents : View → List ℕ
contents v = take v.byte_length (drop v.byte_offset v.buffer)

-- An array over a buffer of its own.
unfoldable pub fresh : List ℕ → View
fresh xs = record { buffer = xs; byte_offset = 0; byte_length = length xs }

-- `new Uint8Array(n)`
abbrev pub zeros : ℕ → List ℕ
zeros n = replicate n 0

-- `bytes.slice(start, end)` and `bytes.slice(start)`: a copy, cut at the end of the window.
unfoldable pub slice : View → ℕ → ℕ → List ℕ
unfolding contents
slice v start end = take (end - start) (drop start (contents v))

unfoldable pub slice_from : View → ℕ → List ℕ
unfolding contents
slice_from v start = drop start (contents v)

-- `out.set(src, offset)` throws where `src` does not fit.
unfoldable pub set : List ℕ → List ℕ → ℕ → Result (List ℕ)
set out src offset = do
  guard (leb (offset + length src) (length out)) range_error
  ok (overwrite out offset src)

-- `new DataView(buffer, offset, length)`: the window that it opens.
unfoldable pub data_view : List ℕ → ℕ → ℕ → Result (List ℕ)
data_view buffer offset size = do
  guard (leb (offset + size) (length buffer)) range_error
  ok (take size (drop offset buffer))

-- `view.getUint32(0, false)`
unfoldable pub get_uint32 : List ℕ → Result ℕ
get_uint32 (a ∷ b ∷ c ∷ d ∷ rest) = ok (word32 a b c d)
get_uint32 _ = err range_error

-- `view.setUint32(0, w, false)` and `view.setUint16(0, w, false)` on a view of an array that is at
-- least as long as the word.
unfoldable pub set_uint32 : List ℕ → ℕ → List ℕ
set_uint32 out w = overwrite out 0 (be32 w)

unfoldable pub set_uint16 : List ℕ → ℕ → List ℕ
set_uint16 out w = overwrite out 0 (be16 w)

pub contents-fresh : (xs : List ℕ) → contents (fresh xs) ≡ xs
unfolding contents fresh
contents-fresh xs = take-of_le (length xs) xs (omega arith)

pub fresh-InBounds : (xs : List ℕ) → InBounds (fresh xs)
unfolding fresh
fresh-InBounds xs = record { fits = omega arith }

pub contents-IsByte : (v : View) → All IsByte v.buffer → All IsByte (contents v)
unfolding contents
contents-IsByte v h = All-take IsByte v.byte_length _ (All-drop IsByte v.byte_offset v.buffer h)

pub length-contents : (v : View) → InBounds v → length (contents v) ≡ v.byte_length
unfolding contents
length-contents v h = omega (
  arith,
  h.fits,
  length-take v.byte_length (drop v.byte_offset v.buffer),
  length-drop v.byte_offset v.buffer,
)
