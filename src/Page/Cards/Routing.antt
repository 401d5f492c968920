-- ===== src/Page/Cards/Routing.antt =====
-- Where the dispatcher sends the frames of the Samsara cards.
use diarsaba_go.Prelude.{ℕ, ◌<◌, ◌≡◌, refl, List, length, none, true, false, arith}
use diarsaba_go.Js.Entropy.{Entropy}
use diarsaba_go.Dispatch.{Ranges, samsara, within, classify_frame, classify_opcode}
use diarsaba_go.Dispatch.Routing.{classified_by_opcode}
use diarsaba_go.Page.Cards.{
  SamsaraCard, create_db, delete_db, write, read, read_free, delete, read_cell, diferir, cruzar,
  samsara_opcode, samsara_payload, build_samsara_frame,
}
use diarsaba_go.Page.Cards.Concat.{build_request_frame-append}

pub samsara_opcode_small : (card : SamsaraCard) → samsara_opcode card < 256
unfolding samsara_opcode
samsara_opcode_small (create_db db secret size genome) = omega arith
samsara_opcode_small (delete_db cell db secret) = omega arith
samsara_opcode_small (write cell db key value secret) = omega arith
samsara_opcode_small (read cell db key secret) = omega arith
samsara_opcode_small (read_free db key) = omega arith
samsara_opcode_small (delete cell db key secret) = omega arith
samsara_opcode_small (read_cell cell db secret) = omega arith
samsara_opcode_small (diferir db cell secret genome x y z child) = omega arith
samsara_opcode_small (cruzar db cell_a cell_b secret_a secret_b x y z child) = omega arith

-- The dispatcher sends the frame of a Samsara card to Samsara, with the card's opcode and the id, if
-- the opcode lies in the range of Samsara's opcodes and not in that of Synap's requests.
pub classify_frame-build_samsara_frame :
    (r : Ranges) (card : SamsaraCard) (id : List ℕ) (e : Entropy)
    → length id ≡ 16
    → within r.request_min r.request_max (samsara_opcode card) ≡ false
    → within r.namespace_min r.namespace_max (samsara_opcode card) ≡ true
    → classify_frame r (build_samsara_frame card id e).0 ≡ record {
      target = samsara;
      opcode = samsara_opcode card;
      request_id = id;
      error_frame = none;
    }
unfolding build_samsara_frame
classify_frame-build_samsara_frame r card id e h no_synap w =
    let small = samsara_opcode_small card in
    rw
      (
        build_request_frame-append (samsara_opcode card) id (samsara_payload card e).0
            (omega (arith, small)),
        classified_by_opcode (samsara_opcode card) small id (samsara_payload card e).0 h r,
      )
      (unfold classify_opcode in rw (no_synap, w) refl)
