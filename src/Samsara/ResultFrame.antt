-- ===== src/Samsara/ResultFrame.antt =====
-- The parts that the results of the nine operations share: sixteen bytes of id, the status and,
-- in some, a cell index.
use diarsaba_go.Prelude.{
  ℕ, ◌^◌, ◌<◌, String, ◌≡◌, refl, sym, List, [], ◌++◌, length, length-append, append_assoc, arith,
}
use diarsaba_go.Js.Result.{ok}
use diarsaba_go.Js.Number.{be32}
use diarsaba_go.Js.Bytes.{slice, slice_from}
use diarsaba_go.Common.Value.{Value, Converts}
use diarsaba_go.Common.Convert.{ensure_min_length, word_at}
use diarsaba_go.Common.Fixed.{ensure_min_length_reads, word_at_reads, slice_reads, slice_from_reads}

module _ {message : Value} (raw rest : List ℕ) (status : ℕ)
    (m : Converts message (raw ++ (be32 status ++ rest))) (k : length raw ≡ 16) where
  pub id_read : slice m.view 0 16 ≡ raw
  id_read = slice_reads m 0 16 [] raw (be32 status ++ rest) refl refl k

  pub status_read : status < 2 ^ 32 → word_at m.view 16 ≡ ok status
  status_read ks = word_at_reads m raw status rest refl k ks

  pub rest_read : slice_from m.view 20 ≡ rest
  unfolding be32
  rest_read =
      slice_from_reads m (raw ++ be32 status) rest (sym (append_assoc raw (be32 status) rest))
        (omega (arith, length-append raw (be32 status)))

  pub long_enough : (label : String) → ensure_min_length m.view 20 label ≡ ok tt
  unfolding be32
  long_enough label =
      ensure_min_length_reads m 20 label (omega (arith, length-append raw (be32 status ++ rest)))

module _ {message : Value} (raw rest : List ℕ) (status cell_index : ℕ)
    (m : Converts message (raw ++ (be32 status ++ (be32 cell_index ++ rest))))
    (k : length raw ≡ 16) where
  pub cell_index_read : cell_index < 2 ^ 32 → word_at m.view 20 ≡ ok cell_index
  unfolding be32
  cell_index_read kc =
      word_at_reads m (raw ++ be32 status) cell_index rest
        (sym (append_assoc raw (be32 status) (be32 cell_index ++ rest)))
        (omega (arith, length-append raw (be32 status))) kc

  pub value_read : slice_from m.view 24 ≡ rest
  unfolding be32
  value_read =
      slice_from_reads m (raw ++ (be32 status ++ be32 cell_index)) rest
        (sym (append_assoc raw (be32 status ++ be32 cell_index) rest))
        (omega (arith, length-append raw (be32 status ++ be32 cell_index)))

  pub long_enough24 : (label : String) → ensure_min_length m.view 24 label ≡ ok tt
  unfolding be32
  long_enough24 label =
      ensure_min_length_reads m 24 label
        (omega (arith, length-append raw (be32 status ++ (be32 cell_index ++ rest))))
