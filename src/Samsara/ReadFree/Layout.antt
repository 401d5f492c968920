-- ===== src/Samsara/ReadFree/Layout.antt =====
-- The layout of a READ_FREE request, field by field.
use diarsaba_go.Prelude.{ℕ, ◌^◌, ◌<◌, ◌≡◌, List, ◌++◌, length}
use diarsaba_go.Js.Number.{be32}
use diarsaba_go.Samsara.ReadFree.{ReadFreeReq}

-- Sixteen bytes of id, lengths and numbers of 32 bits.
pub record InRange (r : ReadFreeReq) : Type 0 where
  pub id : length r.id ≡ 16
  pub db_name : length r.db_name < 2 ^ 32
  pub key : length r.key < 2 ^ 32

-- `opcode` is the four bytes in front, and `trailing` whatever follows the last field.
abbrev pub layout : List ℕ → ReadFreeReq → List ℕ → List ℕ
layout opcode r trailing =
    opcode
    ++ (r.id
        ++ (be32 (length r.db_name) ++ (be32 (length r.key) ++ (r.db_name ++ (r.key ++ trailing)))))

-- `xs` is a READ_FREE request with the fields `r`.
abbrev pub IsReadFreeReq : List ℕ → ReadFreeReq → Type 0
IsReadFreeReq xs r =
    (opcode : List ℕ) × (trailing : List ℕ) × (length opcode ≡ 4)
    × InRange r
    × (xs ≡ layout opcode r trailing)
