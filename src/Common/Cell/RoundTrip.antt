-- ===== src/Common/Cell/RoundTrip.antt =====
-- `cellFromBytes` reads back what `cellBytes` wrote.
use diarsaba_go.Prelude.{ℕ, ◌^◌, ◌<◌, ◌≡◌, refl, List, [], ◌++◌, arith}
use diarsaba_go.Js.Result.{ok, ◌>>=◌}
use diarsaba_go.Js.Number.{be32, to_uint32, to_uint32-lt}
use diarsaba_go.Common.Value.{Value, part, Converts, Converts-part}
use diarsaba_go.Common.Concat.Laws.{done, next, concat_bytes-Parts, Converts-u32_bytes}
use diarsaba_go.Common.Fixed.{ensure_min_length_reads, read_u32_reads}
use diarsaba_go.Common.Cell.{Cell, CellInput, first_of_two, cell_bytes, cell_from_bytes}

pub record InRange (c : Cell) : Type 0 where
  pub genome : c.genome < 2 ^ 32
  pub x : c.x < 2 ^ 32
  pub y : c.y < 2 ^ 32
  pub z : c.z < 2 ^ 32

-- Sixteen bytes, and whatever follows them.
abbrev pub layout : Cell → List ℕ → List ℕ
layout c trailing = be32 c.genome ++ (be32 c.x ++ (be32 c.y ++ (be32 c.z ++ trailing)))

pub cell_from_bytes_accepts :
    {bytes : Value} (c : Cell) (trailing : List ℕ)
    → InRange c
    → Converts bytes (layout c trailing)
    → cell_from_bytes bytes ≡ ok c
unfolding cell_from_bytes be32
cell_from_bytes_accepts c trailing i m = rw (
  m.converted,
  ensure_min_length_reads m 16 "cellFromBytes" (omega arith),
  read_u32_reads m [] c.genome _ refl refl i.genome,
  read_u32_reads m (be32 c.genome) c.x _ refl refl i.x,
  read_u32_reads m (be32 c.genome ++ be32 c.x) c.y _ refl refl i.y,
  read_u32_reads m (be32 c.genome ++ (be32 c.x ++ be32 c.y)) c.z trailing refl refl i.z,
)

-- The cell that a cell object stands for.
abbrev pub cell_of_input : CellInput → Cell
cell_of_input c = record {
  genome = to_uint32 (first_of_two c.genome c.go_genoma);
  x = to_uint32 (first_of_two c.x c.go_x);
  y = to_uint32 (first_of_two c.y c.go_y);
  z = to_uint32 (first_of_two c.z c.go_z);
}

pub cell_of_input-InRange : (c : CellInput) → InRange (cell_of_input c)
cell_of_input-InRange c = record {
  genome = to_uint32-lt _;
  x = to_uint32-lt _;
  y = to_uint32-lt _;
  z = to_uint32-lt _;
}

pub cell_bytes-layout : (c : CellInput) → cell_bytes c ≡ ok (layout (cell_of_input c) [])
unfolding cell_bytes
cell_bytes-layout c = concat_bytes-Parts (
    next (Converts-u32_bytes _) (
      next (Converts-u32_bytes _) (next (Converts-u32_bytes _) (next (Converts-u32_bytes _) done))))

-- `cellFromBytes` reads back from what `cellBytes` wrote each number of the cell modulo 2 ^ 32: the
-- one under the lower-case name, else the one under the Go side's name, else 0.
pub cell_from_bytes-cell_bytes :
    (c : CellInput)
    → (cell_bytes c >>= λ bytes. cell_from_bytes (part bytes)) ≡ ok (cell_of_input c)
cell_from_bytes-cell_bytes c =
    rw (cell_bytes-layout c)
      (cell_from_bytes_accepts (cell_of_input c) [] (cell_of_input-InRange c) (Converts-part _))
