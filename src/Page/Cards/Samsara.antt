-- ===== src/Page/Cards/Samsara.antt =====
-- The frames of the nine Samsara cards of cards/index.html are requests, as cards/js reads them.
use diarsaba_go.Prelude.{ℕ, ◌^◌, ◌<◌, ◌≡◌, refl, List, [], length, arith}
use diarsaba_go.Js.Result.{ok}
use diarsaba_go.Js.Number.{be32, to_uint32, to_uint32-lt, to_uint32-pos}
use diarsaba_go.Js.Text.{encode}
use diarsaba_go.Js.Entropy.{Entropy, get_random_values, length-get_random_values}
use diarsaba_go.Common.Value.{part, Converts-part}
use diarsaba_go.Samsara.CreateDb.{create_db_req}
use diarsaba_go.Samsara.CreateDb.Request.{create_db_req_accepts}
use diarsaba_go.Samsara.DeleteDb.{delete_db_req}
use diarsaba_go.Samsara.DeleteDb.Request.{delete_db_req_accepts}
use diarsaba_go.Samsara.Write.{write_req}
use diarsaba_go.Samsara.Write.Request.{write_req_accepts}
use diarsaba_go.Samsara.Read.{read_req}
use diarsaba_go.Samsara.Read.Request.{read_req_accepts}
use diarsaba_go.Samsara.ReadFree.{read_free_req}
use diarsaba_go.Samsara.ReadFree.Request.{read_free_req_accepts}
use diarsaba_go.Samsara.Delete.{delete_req}
use diarsaba_go.Samsara.Delete.Request.{delete_req_accepts}
use diarsaba_go.Samsara.ReadCell.{read_cell_req}
use diarsaba_go.Samsara.ReadCell.Request.{read_cell_req_accepts}
use diarsaba_go.Samsara.Diferir.{diferir_req}
use diarsaba_go.Samsara.Diferir.Request.{diferir_req_accepts}
use diarsaba_go.Samsara.Cruzar.{cruzar_req}
use diarsaba_go.Samsara.Cruzar.Request.{cruzar_req_accepts}
use diarsaba_go.Page.Cards.{
  SamsaraCard, create_db, delete_db, write, read, read_free, delete, read_cell, diferir, cruzar,
  samsara_opcode, samsara_payload, build_samsara_frame,
}
use diarsaba_go.Page.Cards.Concat.{concat-joined, build_request_frame-append}

-- A text whose length fits in the four bytes of its field.
abbrev pub Fits : List ℕ → Type 0
Fits s = length (encode s) < 2 ^ 32

abbrev pub TextsFit : SamsaraCard → Type 0
TextsFit (create_db db secret size genome) = Fits db × Fits secret
TextsFit (delete_db cell db secret) = Fits db × Fits secret
TextsFit (write cell db key value secret) = Fits db × Fits key × Fits value × Fits secret
TextsFit (read cell db key secret) = Fits db × Fits key × Fits secret
TextsFit (read_free db key) = Fits db × Fits key
TextsFit (delete cell db key secret) = Fits db × Fits key × Fits secret
TextsFit (read_cell cell db secret) = Fits db × Fits secret
TextsFit (diferir db cell secret genome x y z child) = Fits db × Fits secret × Fits child
TextsFit (cruzar db cell_a cell_b secret_a secret_b x y z child) =
    Fits db × Fits secret_a × Fits secret_b × Fits child

-- The parser of the card's operation reads the card's fields in `frame`: the texts as UTF-8, the
-- numbers modulo 2 ^ 32, and for `diferir` the salt that was drawn.
abbrev pub IsRequest : SamsaraCard → List ℕ → Entropy → List ℕ → Type 0
IsRequest (create_db db secret size genome) id e frame =
    create_db_req (part frame)
    ≡ ok (record {
      id = id;
      db_name = encode db;
      secret = encode secret;
      db_size = to_uint32 size;
      genome = to_uint32 genome;
    })
IsRequest (delete_db cell db secret) id e frame =
    delete_db_req (part frame)
    ≡ ok (record {
      id = id;
      db_name = encode db;
      secret = encode secret;
      cell_index = to_uint32 cell;
    })
IsRequest (write cell db key value secret) id e frame =
    write_req (part frame)
    ≡ ok (record {
      id = id;
      db_name = encode db;
      key = encode key;
      value = encode value;
      secret = encode secret;
      cell_index = to_uint32 cell;
    })
IsRequest (read cell db key secret) id e frame =
    read_req (part frame)
    ≡ ok (record {
      id = id;
      db_name = encode db;
      key = encode key;
      secret = encode secret;
      cell_index = to_uint32 cell;
    })
IsRequest (read_free db key) id e frame =
    read_free_req (part frame) ≡ ok (record { id = id; db_name = encode db; key = encode key })
IsRequest (delete cell db key secret) id e frame =
    delete_req (part frame)
    ≡ ok (record {
      id = id;
      db_name = encode db;
      key = encode key;
      secret = encode secret;
      cell_index = to_uint32 cell;
    })
IsRequest (read_cell cell db secret) id e frame =
    read_cell_req (part frame)
    ≡ ok (record {
      id = id;
      db_name = encode db;
      secret = encode secret;
      cell_index = to_uint32 cell;
    })
IsRequest (diferir db cell secret genome x y z child) id e frame =
    diferir_req (part frame)
    ≡ ok (record {
      id = id;
      db_name = encode db;
      secret = encode secret;
      child_secret = encode child;
      cell_index = to_uint32 cell;
      child_genome = to_uint32 genome;
      x = to_uint32 x;
      y = to_uint32 y;
      z = to_uint32 z;
      child_salt = (get_random_values 16 e).0;
    })
IsRequest (cruzar db cell_a cell_b secret_a secret_b x y z child) id e frame =
    cruzar_req (part frame)
    ≡ ok (record {
      id = id;
      db_name = encode db;
      secret_a = encode secret_a;
      secret_b = encode secret_b;
      child_secret = encode child;
      cell_index_a = to_uint32 cell_a;
      cell_index_b = to_uint32 cell_b;
      x = to_uint32 x;
      y = to_uint32 y;
      z = to_uint32 z;
    })

-- The frame that a Samsara card sends with an id of sixteen bytes is read back by the parser of the
-- card's operation, field by field, if the UTF-8 of each text is shorter than 2 ^ 32 bytes.
pub build_samsara_frame-IsRequest :
    (card : SamsaraCard) (id : List ℕ) (e : Entropy)
    → length id ≡ 16
    → TextsFit card
    → IsRequest card id e (build_samsara_frame card id e).0
unfolding build_samsara_frame samsara_payload samsara_opcode
build_samsara_frame-IsRequest (create_db db secret size genome) id e h (k0, k1) =
    rw
      (
        build_request_frame-append 0x20 id _ (omega arith),
        concat-joined _,
        to_uint32-pos (length (encode db)) k0,
        to_uint32-pos (length (encode secret)) k1,
      )
      (create_db_req_accepts (be32 0x20) [] _ (unfold be32 in refl)
        (record {
          id = h;
          db_name = k0;
          secret = k1;
          db_size = to_uint32-lt size;
          genome = to_uint32-lt genome;
        })
        (Converts-part _))
build_samsara_frame-IsRequest (delete_db cell db secret) id e h (k0, k1) =
    rw
      (
        build_request_frame-append 0x21 id _ (omega arith),
        concat-joined _,
        to_uint32-pos (length (encode db)) k0,
        to_uint32-pos (length (encode secret)) k1,
      )
      (delete_db_req_accepts (be32 0x21) [] _ (unfold be32 in refl)
        (record { id = h; db_name = k0; secret = k1; cell_index = to_uint32-lt cell })
        (Converts-part _))
build_samsara_frame-IsRequest (write cell db key value secret) id e h (k0, k1, k2, k3) =
    rw
      (
        build_request_frame-append 0x22 id _ (omega arith),
        concat-joined _,
        to_uint32-pos (length (encode db)) k0,
        to_uint32-pos (length (encode key)) k1,
        to_uint32-pos (length (encode value)) k2,
        to_uint32-pos (length (encode secret)) k3,
      )
      (write_req_accepts (be32 0x22) [] _ (unfold be32 in refl)
        (record {
          id = h;
          db_name = k0;
          key = k1;
          value = k2;
          secret = k3;
          cell_index = to_uint32-lt cell;
        })
        (Converts-part _))
build_samsara_frame-IsRequest (read cell db key secret) id e h (k0, k1, k2) =
    rw
      (
        build_request_frame-append 0x23 id _ (omega arith),
        concat-joined _,
        to_uint32-pos (length (encode db)) k0,
        to_uint32-pos (length (encode key)) k1,
        to_uint32-pos (length (encode secret)) k2,
      )
      (read_req_accepts (be32 0x23) [] _ (unfold be32 in refl)
        (record { id = h; db_name = k0; key = k1; secret = k2; cell_index = to_uint32-lt cell })
        (Converts-part _))
build_samsara_frame-IsRequest (read_free db key) id e h (k0, k1) =
    rw
      (
        build_request_frame-append 0x24 id _ (omega arith),
        concat-joined _,
        to_uint32-pos (length (encode db)) k0,
        to_uint32-pos (length (encode key)) k1,
      )
      (read_free_req_accepts (be32 0x24) [] _ (unfold be32 in refl)
        (record { id = h; db_name = k0; key = k1 }) (Converts-part _))
build_samsara_frame-IsRequest (delete cell db key secret) id e h (k0, k1, k2) =
    rw
      (
        build_request_frame-append 0x25 id _ (omega arith),
        concat-joined _,
        to_uint32-pos (length (encode db)) k0,
        to_uint32-pos (length (encode key)) k1,
        to_uint32-pos (length (encode secret)) k2,
      )
      (delete_req_accepts (be32 0x25) [] _ (unfold be32 in refl)
        (record { id = h; db_name = k0; key = k1; secret = k2; cell_index = to_uint32-lt cell })
        (Converts-part _))
build_samsara_frame-IsRequest (read_cell cell db secret) id e h (k0, k1) =
    rw
      (
        build_request_frame-append 0x26 id _ (omega arith),
        concat-joined _,
        to_uint32-pos (length (encode db)) k0,
        to_uint32-pos (length (encode secret)) k1,
      )
      (read_cell_req_accepts (be32 0x26) [] _ (unfold be32 in refl)
        (record { id = h; db_name = k0; secret = k1; cell_index = to_uint32-lt cell })
        (Converts-part _))
build_samsara_frame-IsRequest (diferir db cell secret genome x y z child) id e h (k0, k1, k2) =
    rw
      (
        build_request_frame-append 0x27 id _ (omega arith),
        concat-joined _,
        to_uint32-pos (length (encode db)) k0,
        to_uint32-pos (length (encode secret)) k1,
        to_uint32-pos (length (encode child)) k2,
      )
      (diferir_req_accepts (be32 0x27) [] _ (unfold be32 in refl)
        (record {
          id = h;
          db_name = k0;
          secret = k1;
          child_secret = k2;
          cell_index = to_uint32-lt cell;
          child_genome = to_uint32-lt genome;
          x = to_uint32-lt x;
          y = to_uint32-lt y;
          z = to_uint32-lt z;
          child_salt = length-get_random_values 16 e;
        })
        (Converts-part _))
build_samsara_frame-IsRequest (cruzar db cell_a cell_b secret_a secret_b x y z child) id e h
      (k0, k1, k2, k3) =
    rw
      (
        build_request_frame-append 0x28 id _ (omega arith),
        concat-joined _,
        to_uint32-pos (length (encode db)) k0,
        to_uint32-pos (length (encode secret_a)) k1,
        to_uint32-pos (length (encode secret_b)) k2,
        to_uint32-pos (length (encode child)) k3,
      )
      (cruzar_req_accepts (be32 0x28) [] _ (unfold be32 in refl)
        (record {
          id = h;
          db_name = k0;
          secret_a = k1;
          secret_b = k2;
          child_secret = k3;
          cell_index_a = to_uint32-lt cell_a;
          cell_index_b = to_uint32-lt cell_b;
          x = to_uint32-lt x;
          y = to_uint32-lt y;
          z = to_uint32-lt z;
        })
        (Converts-part _))
