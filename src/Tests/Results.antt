-- ===== src/Tests/Results.antt =====
-- Samsara results, built and read back: cards/js/*.js.
use diarsaba_go.Prelude.{◌≡◌, [], ◌∷◌, ◌++◌, some, replicate}
use diarsaba_go.Js.Result.{ok, ◌>>=◌}
use diarsaba_go.Js.Number.{pos, negsuc, to_uint32, be32}
use diarsaba_go.Common.Value.{uint8_array, array, text, nullish, part, Converts-part}
use diarsaba_go.Tests.Fixtures.{
  id_bytes, id_view, entropy, drawn_bytes, id_given, id_drawn, name_units, name_bytes, name_text,
  value_bytes,
}
use diarsaba_go.Samsara.CreateDb.{create_db_result_bytes, create_db_result}
use diarsaba_go.Samsara.CreateDb.Response.{create_db_result-create_db_result_bytes}
use diarsaba_go.Samsara.DeleteDb.{delete_db_result_bytes, delete_db_result}
use diarsaba_go.Samsara.DeleteDb.Response.{delete_db_result-delete_db_result_bytes}
use diarsaba_go.Samsara.Delete.{delete_result_bytes, delete_result}
use diarsaba_go.Samsara.Delete.Response.{delete_result-delete_result_bytes}
use diarsaba_go.Samsara.Write.{write_result_bytes, write_result}
use diarsaba_go.Samsara.Write.Response.{write_result-write_result_bytes}
use diarsaba_go.Samsara.Read.{read_result_bytes, read_result}
use diarsaba_go.Samsara.Read.Response.{read_result-read_result_bytes}
use diarsaba_go.Samsara.ReadFree.{read_free_result_bytes, read_free_result}
use diarsaba_go.Samsara.ReadFree.Response.{read_free_result-read_free_result_bytes}
use diarsaba_go.Samsara.Diferir.{diferir_result_bytes, diferir_result}
use diarsaba_go.Samsara.Diferir.Response.{diferir_result-diferir_result_bytes}
use diarsaba_go.Samsara.Cruzar.{cruzar_result_bytes, cruzar_result}
use diarsaba_go.Samsara.Cruzar.Response.{cruzar_result-cruzar_result_bytes}
use diarsaba_go.Samsara.ReadCell.{read_cell_result_bytes, read_cell_result}
use diarsaba_go.Samsara.ReadCell.Response.{read_cell_result-read_cell_result_bytes}
use diarsaba_go.Common.Cell.{CellInput, no_fields, cell_bytes, cell_from_bytes}
use diarsaba_go.Common.Cell.RoundTrip.{cell_from_bytes-cell_bytes}
use diarsaba_go.Samsara.ReadCell.{cell, plain}
use diarsaba_go.Samsara.ReadCell.Objects.{of_array, read_cell_result_bytes-IsByteObject}

abbrev some_cell : CellInput
some_cell = record no_fields {
  go_genoma = some (pos 513);
  x = some (pos 3);
  y = some (negsuc 0);
  go_y = some (pos 9);
}

create_db_result-create_db_result_bytes_example :
    (create_db_result_bytes (uint8_array id_view) (negsuc 0) entropy >>= λ (frame, _).
    create_db_result (part frame))
    ≡ ok (record { id = id_bytes; status = 4294967295 })
unfolding to_uint32
create_db_result-create_db_result_bytes_example =
    create_db_result-create_db_result_bytes (negsuc 0) id_given

delete_db_result-delete_db_result_bytes_example :
    (delete_db_result_bytes nullish (pos 0) entropy >>= λ (frame, _). delete_db_result (part frame))
    ≡ ok (record { id = drawn_bytes; status = 0 })
unfolding to_uint32
delete_db_result-delete_db_result_bytes_example =
    delete_db_result-delete_db_result_bytes (pos 0) id_drawn

delete_result-delete_result_bytes_example :
    (delete_result_bytes (uint8_array id_view) (pos 4294967301) entropy >>= λ (frame, _).
    delete_result (part frame))
    ≡ ok (record { id = id_bytes; status = 5 })
unfolding to_uint32
delete_result-delete_result_bytes_example =
    delete_result-delete_result_bytes (pos 4294967301) id_given

write_result-write_result_bytes_example :
    (write_result_bytes (uint8_array id_view) (pos 3) (pos 8) (part value_bytes) entropy
      >>= λ (frame, _). write_result (part frame))
    ≡ ok (record { id = id_bytes; status = 3 })
unfolding to_uint32
write_result-write_result_bytes_example =
    write_result-write_result_bytes (pos 3) (pos 8) (part value_bytes) id_given

read_result-read_result_bytes_example :
    (read_result_bytes (uint8_array id_view) (pos 0) (pos 12) (text name_units) entropy
      >>= λ (frame, _). read_result (part frame))
    ≡ ok (record { id = id_bytes; status = 0; cell_index = 12; value = name_bytes })
unfolding to_uint32
read_result-read_result_bytes_example =
    read_result-read_result_bytes (pos 0) (pos 12) id_given name_text

read_free_result-read_free_result_bytes_example :
    (read_free_result_bytes nullish (pos 1) (part value_bytes) entropy >>= λ (frame, _).
    read_free_result (part frame))
    ≡ ok (record { id = drawn_bytes; status = 1; value = value_bytes })
unfolding to_uint32
read_free_result-read_free_result_bytes_example =
    read_free_result-read_free_result_bytes (pos 1) id_drawn (Converts-part value_bytes)

diferir_result-diferir_result_bytes_example :
    (diferir_result_bytes (uint8_array id_view) (pos 0) (pos 12) entropy >>= λ (frame, _).
    diferir_result (part frame))
    ≡ ok (record { id = id_bytes; status = 0; cell_index = 12 })
unfolding to_uint32
diferir_result-diferir_result_bytes_example =
    diferir_result-diferir_result_bytes (pos 0) (pos 12) id_given

cruzar_result-cruzar_result_bytes_example :
    (cruzar_result_bytes (uint8_array id_view) (pos 0) (negsuc 0) entropy >>= λ (frame, _).
    cruzar_result (part frame))
    ≡ ok (record { id = id_bytes; status = 0; cell_index = 4294967295 })
unfolding to_uint32
cruzar_result-cruzar_result_bytes_example =
    cruzar_result-cruzar_result_bytes (pos 0) (negsuc 0) id_given

read_cell_result-read_cell_result_bytes_example :
    (read_cell_result_bytes (uint8_array id_view) (pos 2) (cell some_cell) entropy >>= λ (frame, _).
    read_cell_result (part frame))
    ≡ ok (record {
      id = id_bytes;
      status = 2;
      value = 0 ∷ 0 ∷ 2 ∷ 1 ∷ 0 ∷ 0 ∷ 0 ∷ 3 ∷ 255 ∷ 255 ∷ 255 ∷ 255 ∷ 0 ∷ 0 ∷ 0 ∷ 0 ∷ [];
      cell = some (record { genome = 513; x = 3; y = 4294967295; z = 0 });
    })
unfolding to_uint32 be32
read_cell_result-read_cell_result_bytes_example =
    read_cell_result-read_cell_result_bytes (pos 2) some_cell id_given

cell_from_bytes-cell_bytes_example :
    (cell_bytes some_cell >>= λ bytes. cell_from_bytes (part bytes))
    ≡ ok (record { genome = 513; x = 3; y = 4294967295; z = 0 })
unfolding to_uint32
cell_from_bytes-cell_bytes_example = cell_from_bytes-cell_bytes some_cell

read_cell_result_bytes-IsByteObject_example :
    read_cell_result_bytes (uint8_array id_view) (pos 1) (plain (array (pos 7 ∷ []))) entropy
    ≡ ok (id_bytes ++ (0 ∷ 0 ∷ 0 ∷ 1 ∷ replicate 16 0), entropy)
unfolding to_uint32 be32
read_cell_result_bytes-IsByteObject_example =
    read_cell_result_bytes-IsByteObject (pos 1) id_given (of_array (pos 7 ∷ []))
