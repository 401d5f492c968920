-- ===== src/Common/Concat.antt =====
-- `concatBytes` and `buildOpcodeMessage` of cards/js/common.js.
pub mod Laws
use diarsaba_go.Prelude.{ℕ, ◌+◌, List, [], ◌∷◌, length}
use diarsaba_go.Js.Result.{Result, ok, err, ◌>>=◌}
use diarsaba_go.Js.Number.{ℤ, pos}
use diarsaba_go.Js.Bytes.{View, contents, zeros, set}
use diarsaba_go.Common.Value.{Value, part, to_uint8_array}
use diarsaba_go.Common.Convert.{u32_bytes}

-- `parts.map((part) => toUint8Array(part))`
unfoldable pub normalized : List Value → Result (List View)
normalized [] = ok []
normalized (p ∷ ps) = do v ← to_uint8_array p; vs ← normalized ps; ok (v ∷ vs)

-- `normalized.reduce((sum, part) => sum + part.length, 0)`
unfoldable pub total_length : ℕ → List View → ℕ
total_length sum [] = sum
total_length sum (v ∷ vs) = total_length (sum + v.byte_length) vs

-- The loop `out.set(part, offset); offset += part.length`.
unfoldable pub fill : List ℕ → ℕ → List View → Result (List ℕ)
fill out offset [] = ok out
fill out offset (v ∷ vs) = do
  out' ← set out (contents v) offset
  fill out' (offset + v.byte_length) vs

unfoldable pub concat_bytes : List Value → Result (List ℕ)
unfolding normalized total_length fill
concat_bytes parts = do vs ← normalized parts; fill (zeros (total_length 0 vs)) 0 vs

unfoldable pub build_opcode_message : ℕ → List Value → Result (List ℕ)
unfolding concat_bytes
build_opcode_message opcode parts = concat_bytes (part (u32_bytes (pos opcode)) ∷ parts)
