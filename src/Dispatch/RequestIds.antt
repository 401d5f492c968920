-- ===== src/Dispatch/RequestIds.antt =====
-- The id of a frame's request, as dispatch.go finds it in requests and in responses.
use diarsaba_go.Prelude.{
  ℕ, ◌+◌, ◌≡◌, refl, List, ◌++◌, length, take, drop, replicate, false, Bool-cases, ltb, leb, inl,
  inr, length-append, take-length_append, drop-length_append, arith,
}
use diarsaba_go.Dispatch.{copied, request_id_from_frame}
use diarsaba_go.Dispatch.ErrorFrames.{length-copied, copied-same}

-- Every frame has an id of sixteen bytes, however short it is.
pub length-request_id_from_frame : (frame : List ℕ) → length (request_id_from_frame frame) ≡ 16
unfolding request_id_from_frame
length-request_id_from_frame frame = elim (Bool-cases (leb (length frame) 4)) [
  | inl e ↦ rw e refl
  | inr e ↦ rw e (length-copied (replicate 16 0) _)
]

-- The id behind the four bytes of an opcode.
module _ (front raw rest : List ℕ) (four : length front ≡ 4) (sixteen : length raw ≡ 16) where
  pub length-frame : length (front ++ (raw ++ rest)) ≡ 20 + length rest
  length-frame = omega (arith, length-append front (raw ++ rest), length-append raw rest)

  pub id_behind : copied (replicate 16 0) (take 16 (drop 4 (front ++ (raw ++ rest)))) ≡ raw
  id_behind = rw (
    drop-length_append 4 front (raw ++ rest) four,
    take-length_append 16 raw rest sixteen,
    copied-same (replicate 16 0) raw sixteen,
  )

  pub request_id_from_frame-frame : request_id_from_frame (front ++ (raw ++ rest)) ≡ raw
  unfolding request_id_from_frame
  request_id_from_frame-frame =
      let long : leb (length (front ++ (raw ++ rest))) 4 ≡ false = ground (arith, length-frame) in
      let whole : ltb (length (front ++ (raw ++ rest))) 20 ≡ false = ground (arith, length-frame) in
      rw (long, whole) id_behind
