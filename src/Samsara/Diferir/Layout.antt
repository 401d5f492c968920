-- ===== src/Samsara/Diferir/Layout.antt =====
-- The layout of a DIFERIR request, field by field.
use diarsaba_go.Prelude.{ℕ, ◌^◌, ◌<◌, ◌≡◌, List, ◌++◌, length}
use diarsaba_go.Js.Number.{be32}
use diarsaba_go.Samsara.Diferir.{DiferirReq}

-- Sixteen bytes of id, lengths and numbers of 32 bits.
pub record InRange (r : DiferirReq) : Type 0 where
  pub id : length r.id ≡ 16
  pub db_name : length r.db_name < 2 ^ 32
  pub cell_index : r.cell_index < 2 ^ 32
  pub secret : length r.secret < 2 ^ 32
  pub child_genome : r.child_genome < 2 ^ 32
  pub x : r.x < 2 ^ 32
  pub y : r.y < 2 ^ 32
  pub z : r.z < 2 ^ 32
  pub child_salt : length r.child_salt ≡ 16
  pub child_secret : length r.child_secret < 2 ^ 32

-- `opcode` is the four bytes in front, and `trailing` whatever follows the last field.
abbrev pub layout : List ℕ → DiferirReq → List ℕ → List ℕ
layout opcode r trailing =
    opcode
    ++ (r.id
        ++ (be32 (length r.db_name)
            ++ (be32 r.cell_index
                ++ (be32 (length r.secret)
                    ++ (be32 r.child_genome
                        ++ (be32 r.x
                            ++ (be32 r.y
                                ++ (be32 r.z
                                    ++ (r.child_salt
                                        ++ (be32 (length r.child_secret)
                                            ++ (r.db_name
                                                ++ (r.secret
                                                    ++ (r.child_secret ++ trailing)))))))))))))

-- `xs` is a DIFERIR request with the fields `r`.
abbrev pub IsDiferirReq : List ℕ → DiferirReq → Type 0
IsDiferirReq xs r =
    (opcode : List ℕ) × (trailing : List ℕ) × (length opcode ≡ 4)
    × InRange r
    × (xs ≡ layout opcode r trailing)
