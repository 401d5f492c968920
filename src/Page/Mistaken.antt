-- ===== src/Page/Mistaken.antt =====
-- Responses that cards/index.html takes for frames of Synap: the ids that its cards draw are random,
-- and `isOpcodeFrame` looks at one byte only.
use diarsaba_go.Prelude.{
  ℕ, ◌<◌, ◌≡◌, refl, List, ◌++◌, length, get_or, some, true, false, All, ◌&&◌, leb, ltb, Bool-cases,
  inl, inr, length-append, arith,
}
use diarsaba_go.Js.Number.{IsByte}
use diarsaba_go.Page.Op
use diarsaba_go.Page.{Pending, opcode_name, is_known}
use diarsaba_go.Page.Frames.{parse_synap_opcode_frame, inspect_opcode, inspect_incoming_frame}
use diarsaba_go.Page.Inspect.{frame_opcode-id, inspect_incoming_frame-opcode}

-- Only a response to one of Synap's requests takes one from those that wait.
pending_kept :
    (frame : List ℕ) (opcode : ℕ) (pending : Pending)
    → Op.generate_cid < opcode
    → (parse_synap_opcode_frame frame opcode pending).1 ≡ pending
unfolding parse_synap_opcode_frame
pending_kept frame opcode pending h =
    let no_request : (leb Op.relay opcode && leb opcode Op.generate_cid) ≡ false = ground arith in
    elim (Bool-cases (ltb (length frame) 20)) [
      | inl e ↦ rw e refl
      | inr e ↦ rw (e, no_request) refl
    ]

-- A response that starts with an id of sixteen bytes, the fourth of which is an opcode other than
-- those of Synap's requests, is logged under the name of that opcode, whatever request it answers,
-- and no request is taken from those that wait.
pub inspect_incoming_frame-mistaken :
    (raw tail : List ℕ) (pending : Pending)
    → All IsByte raw
    → length raw ≡ 16
    → is_known (some (get_or raw 3 0)) ≡ true
    → Op.generate_cid < get_or raw 3 0
    → let (inspected, pending') = inspect_incoming_frame (raw ++ tail) pending in
      (inspected.title ≡ opcode_name (get_or raw 3 0)) × (pending' ≡ pending)
inspect_incoming_frame-mistaken raw tail pending bytes sixteen known high =
    rw
      (
        inspect_incoming_frame-opcode (raw ++ tail) pending (omega (arith, length-append raw tail)),
        frame_opcode-id raw tail (omega arith) bytes,
      )
      (unfold inspect_opcode in
        rw known (refl, pending_kept (raw ++ tail) (get_or raw 3 0) pending high))
