-- ===== src/Samsara/Write/Layout.antt =====
-- The layout of a WRITE request, field by field.
use diarsaba_go.Prelude.{ℕ, ◌^◌, ◌<◌, ◌≡◌, List, ◌++◌, length}
use diarsaba_go.Js.Number.{be32}
use diarsaba_go.Samsara.Write.{WriteReq}

-- Sixteen bytes of id, lengths and numbers of 32 bits.
pub record InRange (r : WriteReq) : Type 0 where
  pub id : length r.id ≡ 16
  pub cell_index : r.cell_index < 2 ^ 32
  pub db_name : length r.db_name < 2 ^ 32
  pub key : length r.key < 2 ^ 32
  pub value : length r.value < 2 ^ 32
  pub secret : length r.secret < 2 ^ 32

-- `opcode` is the four bytes in front, and `trailing` whatever follows the last field.
abbrev pub layout : List ℕ → WriteReq → List ℕ → List ℕ
layout opcode r trailing =
    opcode
    ++ (r.id
        ++ (be32 r.cell_index
            ++ (be32 (length r.db_name)
                ++ (be32 (length r.key)
                    ++ (be32 (length r.value)
                        ++ (be32 (length r.secret)
                            ++ (r.db_name ++ (r.key ++ (r.value ++ (r.secret ++ trailing))))))))))

-- `xs` is a WRITE request with the fields `r`.
abbrev pub IsWriteReq : List ℕ → WriteReq → Type 0
IsWriteReq xs r =
    (opcode : List ℕ) × (trailing : List ℕ) × (length opcode ≡ 4)
    × InRange r
    × (xs ≡ layout opcode r trailing)
