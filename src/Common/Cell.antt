-- ===== src/Common/Cell.antt =====
-- `cellBytes` and `cellFromBytes` of cards/js/common.js.
pub mod RoundTrip
use diarsaba_go.Prelude.{ℕ, List, [], ◌∷◌, Option, none, some}
use diarsaba_go.Js.Result.{Result, ok, ◌>>=◌, ◌>>◌}
use diarsaba_go.Js.Number.{ℤ, pos}
use diarsaba_go.Common.Value.{Value, part, to_uint8_array}
use diarsaba_go.Common.Convert.{ensure_min_length, u32_bytes, read_u32}
use diarsaba_go.Common.Concat.{concat_bytes}

-- A cell object that a caller gives: each field under its lower-case name, or under the name that
-- the Go side has for it (`Genoma`, `X`, `Y`, `Z`).
pub record CellInput : Type 0 where
  pub genome : Option ℤ
  pub go_genoma : Option ℤ
  pub x : Option ℤ
  pub go_x : Option ℤ
  pub y : Option ℤ
  pub go_y : Option ℤ
  pub z : Option ℤ
  pub go_z : Option ℤ

-- An object without any of these fields.
abbrev pub no_fields : CellInput
no_fields = record {
  genome = none;
  go_genoma = none;
  x = none;
  go_x = none;
  y = none;
  go_y = none;
  z = none;
  go_z = none;
}

-- `a ?? b ?? 0`
abbrev pub first_of_two : Option ℤ → Option ℤ → ℤ
first_of_two (some a) b = a
first_of_two none (some b) = b
first_of_two none none = pos 0

unfoldable pub cell_bytes : CellInput → Result (List ℕ)
cell_bytes cell = concat_bytes (
    part (u32_bytes (first_of_two cell.genome cell.go_genoma))
    ∷ part (u32_bytes (first_of_two cell.x cell.go_x))
    ∷ part (u32_bytes (first_of_two cell.y cell.go_y))
    ∷ part (u32_bytes (first_of_two cell.z cell.go_z))
    ∷ [])

pub record Cell : Type 0 where
  pub genome : ℕ
  pub x : ℕ
  pub y : ℕ
  pub z : ℕ

unfoldable pub cell_from_bytes : Value → Result Cell
cell_from_bytes bytes = do
  raw ← to_uint8_array bytes
  ensure_min_length raw 16 "cellFromBytes"
  genome ← read_u32 raw 0
  x ← read_u32 raw 4
  y ← read_u32 raw 8
  z ← read_u32 raw 12
  ok (record { genome = genome; x = x; y = y; z = z })
