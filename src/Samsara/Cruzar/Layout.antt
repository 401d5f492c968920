-- ===== src/Samsara/Cruzar/Layout.antt =====
-- The layout of a CRUZAR request, field by field.
use diarsaba_go.Prelude.{ℕ, ◌^◌, ◌<◌, ◌≡◌, List, ◌++◌, length}
use diarsaba_go.Js.Number.{be32}
use diarsaba_go.Samsara.Cruzar.{CruzarReq}

-- Sixteen bytes of id, lengths and numbers of 32 bits.
pub record InRange (r : CruzarReq) : Type 0 where
  pub id : length r.id ≡ 16
  pub db_name : length r.db_name < 2 ^ 32
  pub cell_index_a : r.cell_index_a < 2 ^ 32
  pub cell_index_b : r.cell_index_b < 2 ^ 32
  pub secret_a : length r.secret_a < 2 ^ 32
  pub secret_b : length r.secret_b < 2 ^ 32
  pub x : r.x < 2 ^ 32
  pub y : r.y < 2 ^ 32
  pub z : r.z < 2 ^ 32
  pub child_secret : length r.child_secret < 2 ^ 32

-- `opcode` is the four bytes in front, and `trailing` whatever follows the last field.
abbrev pub layout : List ℕ → CruzarReq → List ℕ → List ℕ
layout opcode r trailing =
    opcode
    ++ (r.id
        ++ (be32 (length r.db_name)
            ++ (be32 r.cell_index_a
                ++ (be32 r.cell_index_b
                    ++ (be32 (length r.secret_a)
                        ++ (be32 (length r.secret_b)
                            ++ (be32 r.x
                                ++ (be32 r.y
                                    ++ (be32 r.z
                                        ++ (be32 (length r.child_secret)
                                            ++ (r.db_name
                                                ++ (r.secret_a
                                                    ++ (r.secret_b
                                                        ++ (r.child_secret ++ trailing))))))))))))))

-- `xs` is a CRUZAR request with the fields `r`.
abbrev pub IsCruzarReq : List ℕ → CruzarReq → Type 0
IsCruzarReq xs r =
    (opcode : List ℕ) × (trailing : List ℕ) × (length opcode ≡ 4)
    × InRange r
    × (xs ≡ layout opcode r trailing)
