-- ===== src/Tests/Parsers.antt =====
-- Samsara requests that the parsers of cards/js/*.js are given, with two bytes behind them.
use diarsaba_go.Prelude.{ℕ, ◌≡◌, ◌↔◌, refl, List, [], ◌∷◌, All}
use diarsaba_go.Js.Result.{ok}
use diarsaba_go.Js.Number.{IsByte}
use diarsaba_go.Common.Value.{part, Converts-part}
use diarsaba_go.Samsara.CreateDb.{CreateDbReq, create_db_req}
use diarsaba_go.Samsara.CreateDb.Layout.{IsCreateDbReq}
use diarsaba_go.Samsara.CreateDb.Request.{create_db_req_iff}
use diarsaba_go.Samsara.DeleteDb.{DeleteDbReq, delete_db_req}
use diarsaba_go.Samsara.DeleteDb.Layout.{IsDeleteDbReq}
use diarsaba_go.Samsara.DeleteDb.Request.{delete_db_req_iff}
use diarsaba_go.Samsara.Write.{WriteReq, write_req}
use diarsaba_go.Samsara.Write.Layout.{IsWriteReq}
use diarsaba_go.Samsara.Write.Request.{write_req_iff}
use diarsaba_go.Samsara.Read.{ReadReq, read_req}
use diarsaba_go.Samsara.Read.Layout.{IsReadReq}
use diarsaba_go.Samsara.Read.Request.{read_req_iff}
use diarsaba_go.Samsara.ReadFree.{ReadFreeReq, read_free_req}
use diarsaba_go.Samsara.ReadFree.Layout.{IsReadFreeReq}
use diarsaba_go.Samsara.ReadFree.Request.{read_free_req_iff}
use diarsaba_go.Samsara.Delete.{DeleteReq, delete_req}
use diarsaba_go.Samsara.Delete.Layout.{IsDeleteReq}
use diarsaba_go.Samsara.Delete.Request.{delete_req_iff}
use diarsaba_go.Samsara.ReadCell.{ReadCellReq, read_cell_req}
use diarsaba_go.Samsara.ReadCell.Layout.{IsReadCellReq}
use diarsaba_go.Samsara.ReadCell.Request.{read_cell_req_iff}
use diarsaba_go.Samsara.Diferir.{DiferirReq, diferir_req}
use diarsaba_go.Samsara.Diferir.Layout.{IsDiferirReq}
use diarsaba_go.Samsara.Diferir.Request.{diferir_req_iff}
use diarsaba_go.Samsara.Cruzar.{CruzarReq, cruzar_req}
use diarsaba_go.Samsara.Cruzar.Layout.{IsCruzarReq}
use diarsaba_go.Samsara.Cruzar.Request.{cruzar_req_iff}
use diarsaba_go.Samsara.Errors.{Decides, req-Decides}
use diarsaba_go.Tests.Fixtures.{
  id_bytes, name_bytes, key_bytes, value_bytes, secret_bytes, all_bytes-IsByte,
}

abbrev create_db_frame : List ℕ
create_db_frame =
    1 ∷ 2 ∷ 3 ∷ 0 ∷ 1 ∷ 2 ∷ 3 ∷ 4 ∷ 5 ∷ 6 ∷ 7 ∷ 8 ∷ 9 ∷ 10 ∷ 11 ∷ 12 ∷ 13 ∷ 14 ∷ 15 ∷ 16 ∷ 0 ∷ 0 ∷ 0
    ∷ 3 ∷ 0 ∷ 0 ∷ 0 ∷ 1 ∷ 0 ∷ 0 ∷ 0 ∷ 1 ∷ 0 ∷ 0 ∷ 2 ∷ 1 ∷ 195 ∷ 177 ∷ 117 ∷ 115 ∷ 9 ∷ 9 ∷ []

create_db_frame-IsByte : All IsByte create_db_frame
create_db_frame-IsByte = all_bytes-IsByte create_db_frame refl

abbrev create_db_fields : CreateDbReq
create_db_fields = record {
  id = id_bytes;
  db_name = name_bytes;
  secret = secret_bytes;
  db_size = 1;
  genome = 513;
}

create_db_req_iff_example :
    (create_db_req (part create_db_frame) ≡ ok create_db_fields)
    ↔ IsCreateDbReq create_db_frame create_db_fields
create_db_req_iff_example =
    create_db_req_iff create_db_fields (Converts-part create_db_frame) create_db_frame-IsByte

abbrev delete_db_frame : List ℕ
delete_db_frame =
    1 ∷ 2 ∷ 3 ∷ 1 ∷ 1 ∷ 2 ∷ 3 ∷ 4 ∷ 5 ∷ 6 ∷ 7 ∷ 8 ∷ 9 ∷ 10 ∷ 11 ∷ 12 ∷ 13 ∷ 14 ∷ 15 ∷ 16 ∷ 255 ∷ 255
    ∷ 255 ∷ 255 ∷ 0 ∷ 0 ∷ 0 ∷ 3 ∷ 0 ∷ 0 ∷ 0 ∷ 1 ∷ 195 ∷ 177 ∷ 117 ∷ 115 ∷ 9 ∷ 9 ∷ []

delete_db_frame-IsByte : All IsByte delete_db_frame
delete_db_frame-IsByte = all_bytes-IsByte delete_db_frame refl

abbrev delete_db_fields : DeleteDbReq
delete_db_fields = record {
  id = id_bytes;
  cell_index = 4294967295;
  db_name = name_bytes;
  secret = secret_bytes;
}

delete_db_req_iff_example :
    (delete_db_req (part delete_db_frame) ≡ ok delete_db_fields)
    ↔ IsDeleteDbReq delete_db_frame delete_db_fields
delete_db_req_iff_example =
    delete_db_req_iff delete_db_fields (Converts-part delete_db_frame) delete_db_frame-IsByte

abbrev write_frame : List ℕ
write_frame =
    1 ∷ 2 ∷ 3 ∷ 2 ∷ 1 ∷ 2 ∷ 3 ∷ 4 ∷ 5 ∷ 6 ∷ 7 ∷ 8 ∷ 9 ∷ 10 ∷ 11 ∷ 12 ∷ 13 ∷ 14 ∷ 15 ∷ 16 ∷ 255 ∷ 255
    ∷ 255 ∷ 255 ∷ 0 ∷ 0 ∷ 0 ∷ 3 ∷ 0 ∷ 0 ∷ 0 ∷ 2 ∷ 0 ∷ 0 ∷ 0 ∷ 4 ∷ 0 ∷ 0 ∷ 0 ∷ 1 ∷ 195 ∷ 177 ∷ 117
    ∷ 107 ∷ 49 ∷ 0 ∷ 255 ∷ 7 ∷ 0 ∷ 115 ∷ 9 ∷ 9 ∷ []

write_frame-IsByte : All IsByte write_frame
write_frame-IsByte = all_bytes-IsByte write_frame refl

abbrev write_fields : WriteReq
write_fields = record {
  id = id_bytes;
  cell_index = 4294967295;
  db_name = name_bytes;
  key = key_bytes;
  value = value_bytes;
  secret = secret_bytes;
}

write_req_iff_example :
    (write_req (part write_frame) ≡ ok write_fields) ↔ IsWriteReq write_frame write_fields
write_req_iff_example = write_req_iff write_fields (Converts-part write_frame) write_frame-IsByte

abbrev read_frame : List ℕ
read_frame =
    1 ∷ 2 ∷ 3 ∷ 3 ∷ 1 ∷ 2 ∷ 3 ∷ 4 ∷ 5 ∷ 6 ∷ 7 ∷ 8 ∷ 9 ∷ 10 ∷ 11 ∷ 12 ∷ 13 ∷ 14 ∷ 15 ∷ 16 ∷ 255 ∷ 255
    ∷ 255 ∷ 255 ∷ 0 ∷ 0 ∷ 0 ∷ 3 ∷ 0 ∷ 0 ∷ 0 ∷ 2 ∷ 0 ∷ 0 ∷ 0 ∷ 1 ∷ 195 ∷ 177 ∷ 117 ∷ 107 ∷ 49 ∷ 115
    ∷ 9 ∷ 9 ∷ []

read_frame-IsByte : All IsByte read_frame
read_frame-IsByte = all_bytes-IsByte read_frame refl

abbrev read_fields : ReadReq
read_fields = record {
  id = id_bytes;
  cell_index = 4294967295;
  db_name = name_bytes;
  key = key_bytes;
  secret = secret_bytes;
}

read_req_iff_example :
    (read_req (part read_frame) ≡ ok read_fields) ↔ IsReadReq read_frame read_fields
read_req_iff_example = read_req_iff read_fields (Converts-part read_frame) read_frame-IsByte

abbrev read_free_frame : List ℕ
read_free_frame =
    1 ∷ 2 ∷ 3 ∷ 4 ∷ 1 ∷ 2 ∷ 3 ∷ 4 ∷ 5 ∷ 6 ∷ 7 ∷ 8 ∷ 9 ∷ 10 ∷ 11 ∷ 12 ∷ 13 ∷ 14 ∷ 15 ∷ 16 ∷ 0 ∷ 0 ∷ 0
    ∷ 3 ∷ 0 ∷ 0 ∷ 0 ∷ 2 ∷ 195 ∷ 177 ∷ 117 ∷ 107 ∷ 49 ∷ 9 ∷ 9 ∷ []

read_free_frame-IsByte : All IsByte read_free_frame
read_free_frame-IsByte = all_bytes-IsByte read_free_frame refl

abbrev read_free_fields : ReadFreeReq
read_free_fields = record { id = id_bytes; db_name = name_bytes; key = key_bytes }

read_free_req_iff_example :
    (read_free_req (part read_free_frame) ≡ ok read_free_fields)
    ↔ IsReadFreeReq read_free_frame read_free_fields
read_free_req_iff_example =
    read_free_req_iff read_free_fields (Converts-part read_free_frame) read_free_frame-IsByte

abbrev delete_frame : List ℕ
delete_frame =
    1 ∷ 2 ∷ 3 ∷ 5 ∷ 1 ∷ 2 ∷ 3 ∷ 4 ∷ 5 ∷ 6 ∷ 7 ∷ 8 ∷ 9 ∷ 10 ∷ 11 ∷ 12 ∷ 13 ∷ 14 ∷ 15 ∷ 16 ∷ 255 ∷ 255
    ∷ 255 ∷ 255 ∷ 0 ∷ 0 ∷ 0 ∷ 3 ∷ 0 ∷ 0 ∷ 0 ∷ 2 ∷ 0 ∷ 0 ∷ 0 ∷ 1 ∷ 195 ∷ 177 ∷ 117 ∷ 107 ∷ 49 ∷ 115
    ∷ 9 ∷ 9 ∷ []

delete_frame-IsByte : All IsByte delete_frame
delete_frame-IsByte = all_bytes-IsByte delete_frame refl

abbrev delete_fields : DeleteReq
delete_fields = record {
  id = id_bytes;
  cell_index = 4294967295;
  db_name = name_bytes;
  key = key_bytes;
  secret = secret_bytes;
}

delete_req_iff_example :
    (delete_req (part delete_frame) ≡ ok delete_fields) ↔ IsDeleteReq delete_frame delete_fields
delete_req_iff_example =
    delete_req_iff delete_fields (Converts-part delete_frame) delete_frame-IsByte

abbrev read_cell_frame : List ℕ
read_cell_frame =
    1 ∷ 2 ∷ 3 ∷ 6 ∷ 1 ∷ 2 ∷ 3 ∷ 4 ∷ 5 ∷ 6 ∷ 7 ∷ 8 ∷ 9 ∷ 10 ∷ 11 ∷ 12 ∷ 13 ∷ 14 ∷ 15 ∷ 16 ∷ 255 ∷ 255
    ∷ 255 ∷ 255 ∷ 0 ∷ 0 ∷ 0 ∷ 3 ∷ 0 ∷ 0 ∷ 0 ∷ 1 ∷ 195 ∷ 177 ∷ 117 ∷ 115 ∷ 9 ∷ 9 ∷ []

read_cell_frame-IsByte : All IsByte read_cell_frame
read_cell_frame-IsByte = all_bytes-IsByte read_cell_frame refl

abbrev read_cell_fields : ReadCellReq
read_cell_fields = record {
  id = id_bytes;
  cell_index = 4294967295;
  db_name = name_bytes;
  secret = secret_bytes;
}

read_cell_req_iff_example :
    (read_cell_req (part read_cell_frame) ≡ ok read_cell_fields)
    ↔ IsReadCellReq read_cell_frame read_cell_fields
read_cell_req_iff_example =
    read_cell_req_iff read_cell_fields (Converts-part read_cell_frame) read_cell_frame-IsByte

abbrev diferir_frame : List ℕ
diferir_frame =
    1 ∷ 2 ∷ 3 ∷ 7 ∷ 1 ∷ 2 ∷ 3 ∷ 4 ∷ 5 ∷ 6 ∷ 7 ∷ 8 ∷ 9 ∷ 10 ∷ 11 ∷ 12 ∷ 13 ∷ 14 ∷ 15 ∷ 16 ∷ 0 ∷ 0 ∷ 0
    ∷ 3 ∷ 255 ∷ 255 ∷ 255 ∷ 255 ∷ 0 ∷ 0 ∷ 0 ∷ 1 ∷ 0 ∷ 0 ∷ 2 ∷ 1 ∷ 0 ∷ 0 ∷ 0 ∷ 3 ∷ 255 ∷ 255 ∷ 255
    ∷ 254 ∷ 0 ∷ 1 ∷ 17 ∷ 112 ∷ 1 ∷ 2 ∷ 3 ∷ 4 ∷ 5 ∷ 6 ∷ 7 ∷ 8 ∷ 9 ∷ 10 ∷ 11 ∷ 12 ∷ 13 ∷ 14 ∷ 15 ∷ 16
    ∷ 0 ∷ 0 ∷ 0 ∷ 1 ∷ 195 ∷ 177 ∷ 117 ∷ 115 ∷ 115 ∷ 9 ∷ 9 ∷ []

diferir_frame-IsByte : All IsByte diferir_frame
diferir_frame-IsByte = all_bytes-IsByte diferir_frame refl

abbrev diferir_fields : DiferirReq
diferir_fields = record {
  id = id_bytes;
  db_name = name_bytes;
  cell_index = 4294967295;
  secret = secret_bytes;
  child_genome = 513;
  x = 3;
  y = 4294967294;
  z = 70000;
  child_salt = id_bytes;
  child_secret = secret_bytes;
}

diferir_req_iff_example :
    (diferir_req (part diferir_frame) ≡ ok diferir_fields)
    ↔ IsDiferirReq diferir_frame diferir_fields
diferir_req_iff_example =
    diferir_req_iff diferir_fields (Converts-part diferir_frame) diferir_frame-IsByte

abbrev cruzar_frame : List ℕ
cruzar_frame =
    1 ∷ 2 ∷ 3 ∷ 8 ∷ 1 ∷ 2 ∷ 3 ∷ 4 ∷ 5 ∷ 6 ∷ 7 ∷ 8 ∷ 9 ∷ 10 ∷ 11 ∷ 12 ∷ 13 ∷ 14 ∷ 15 ∷ 16 ∷ 0 ∷ 0 ∷ 0
    ∷ 3 ∷ 0 ∷ 0 ∷ 0 ∷ 9 ∷ 255 ∷ 255 ∷ 255 ∷ 255 ∷ 0 ∷ 0 ∷ 0 ∷ 1 ∷ 0 ∷ 0 ∷ 0 ∷ 2 ∷ 0 ∷ 0 ∷ 0 ∷ 3
    ∷ 255 ∷ 255 ∷ 255 ∷ 254 ∷ 0 ∷ 1 ∷ 17 ∷ 112 ∷ 0 ∷ 0 ∷ 0 ∷ 1 ∷ 195 ∷ 177 ∷ 117 ∷ 115 ∷ 107 ∷ 49
    ∷ 115 ∷ 9 ∷ 9 ∷ []

cruzar_frame-IsByte : All IsByte cruzar_frame
cruzar_frame-IsByte = all_bytes-IsByte cruzar_frame refl

abbrev cruzar_fields : CruzarReq
cruzar_fields = record {
  id = id_bytes;
  db_name = name_bytes;
  cell_index_a = 9;
  cell_index_b = 4294967295;
  secret_a = secret_bytes;
  secret_b = key_bytes;
  x = 3;
  y = 4294967294;
  z = 70000;
  child_secret = secret_bytes;
}

cruzar_req_iff_example :
    (cruzar_req (part cruzar_frame) ≡ ok cruzar_fields) ↔ IsCruzarReq cruzar_frame cruzar_fields
cruzar_req_iff_example =
    cruzar_req_iff cruzar_fields (Converts-part cruzar_frame) cruzar_frame-IsByte

-- A WRITE request, read by each of the nine parsers.
req-Decides_example :
    Decides (create_db_req (part write_frame)) (IsCreateDbReq write_frame)
    × Decides (delete_db_req (part write_frame)) (IsDeleteDbReq write_frame)
    × Decides (write_req (part write_frame)) (IsWriteReq write_frame)
    × Decides (read_req (part write_frame)) (IsReadReq write_frame)
    × Decides (read_free_req (part write_frame)) (IsReadFreeReq write_frame)
    × Decides (delete_req (part write_frame)) (IsDeleteReq write_frame)
    × Decides (read_cell_req (part write_frame)) (IsReadCellReq write_frame)
    × Decides (diferir_req (part write_frame)) (IsDiferirReq write_frame)
    × Decides (cruzar_req (part write_frame)) (IsCruzarReq write_frame)
req-Decides_example =
    req-Decides (part write_frame) write_frame (Converts-part write_frame) write_frame-IsByte
