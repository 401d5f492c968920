-- ===== src/Common/Cursor.antt =====
-- `makeCursor` of cards/js/common.js: a reading position in an array. Each method of the cursor
-- object returns the object after the call.
pub mod Reading
pub mod Inversion
pub mod Errors
use diarsaba_go.Prelude.{ℕ, ◌+◌, String, List}
use diarsaba_go.Js.Result.{Result, ok, err, ◌>>=◌, ◌>>◌}
use diarsaba_go.Js.Bytes.{View, slice, slice_from}
use diarsaba_go.Common.Value.{Value, to_uint8_array}
use diarsaba_go.Common.Convert.{ensure_min_length, word_at}

pub record Cursor : Type 0 where
  pub bytes : View
  pub offset : ℕ

unfoldable pub make_cursor : Value → Result Cursor
unfolding to_uint8_array
make_cursor input = do bytes ← to_uint8_array input; ok (record { bytes = bytes; offset = 0 })

unfoldable pub skip : ℕ → String → Cursor → Result Cursor
unfolding ensure_min_length
skip size label c = do
  ensure_min_length c.bytes (c.offset + size) label
  ok (record c { offset = c.offset + size })

unfoldable pub u32 : String → Cursor → Result (ℕ × Cursor)
unfolding ensure_min_length word_at
u32 label c = do
  ensure_min_length c.bytes (c.offset + 4) label
  value ← word_at c.bytes c.offset
  ok (value, record c { offset = c.offset + 4 })

unfoldable pub bytes_slice : ℕ → String → Cursor → Result (List ℕ × Cursor)
unfolding ensure_min_length slice
bytes_slice size label c = do
  ensure_min_length c.bytes (c.offset + size) label
  ok (slice c.bytes c.offset (c.offset + size), record c { offset = c.offset + size })

unfoldable pub rest : Cursor → List ℕ
unfolding slice_from
rest c = slice_from c.bytes c.offset
