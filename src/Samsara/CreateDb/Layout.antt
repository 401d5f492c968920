-- ===== src/Samsara/CreateDb/Layout.antt =====
-- The layout of a CREATE_DB request, field by field.
use diarsaba_go.Prelude.{ℕ, ◌^◌, ◌<◌, ◌≡◌, List, ◌++◌, length}
use diarsaba_go.Js.Number.{be32}
use diarsaba_go.Samsara.CreateDb.{CreateDbReq}

-- Sixteen bytes of id, lengths and numbers of 32 bits.
pub record InRange (r : CreateDbReq) : Type 0 where
  pub id : length r.id ≡ 16
  pub db_name : length r.db_name < 2 ^ 32
  pub secret : length r.secret < 2 ^ 32
  pub db_size : r.db_size < 2 ^ 32
  pub genome : r.genome < 2 ^ 32

-- `opcode` is the four bytes in front, and `trailing` whatever follows the last field.
abbrev pub layout : List ℕ → CreateDbReq → List ℕ → List ℕ
layout opcode r trailing =
    opcode
    ++ (r.id
        ++ (be32 (length r.db_name)
            ++ (be32 (length r.secret)
                ++ (be32 r.db_size ++ (be32 r.genome ++ (r.db_name ++ (r.secret ++ trailing)))))))

-- `xs` is a CREATE_DB request with the fields `r`.
abbrev pub IsCreateDbReq : List ℕ → CreateDbReq → Type 0
IsCreateDbReq xs r =
    (opcode : List ℕ) × (trailing : List ℕ) × (length opcode ≡ 4)
    × InRange r
    × (xs ≡ layout opcode r trailing)
