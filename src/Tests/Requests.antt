-- ===== src/Tests/Requests.antt =====
-- Samsara requests, built and read back: each file cards/js/*.js with a request.
use diarsaba_go.Prelude.{◌≡◌, arith}
use diarsaba_go.Js.Result.{ok, ◌>>=◌}
use diarsaba_go.Js.Number.{pos, negsuc, to_uint32}
use diarsaba_go.Common.Value.{uint8_array, text, nullish, part, Converts-part}
use diarsaba_go.Samsara.CreateDb.{create_db_req_bytes, create_db_req}
use diarsaba_go.Samsara.CreateDb.Request.{create_db_req-create_db_req_bytes}
use diarsaba_go.Samsara.DeleteDb.{delete_db_req_bytes, delete_db_req}
use diarsaba_go.Samsara.DeleteDb.Request.{delete_db_req-delete_db_req_bytes}
use diarsaba_go.Samsara.Write.{write_req_bytes, write_req}
use diarsaba_go.Samsara.Write.Request.{write_req-write_req_bytes}
use diarsaba_go.Samsara.Read.{read_req_bytes, read_req}
use diarsaba_go.Samsara.Read.Request.{read_req-read_req_bytes}
use diarsaba_go.Samsara.ReadFree.{read_free_req_bytes, read_free_req}
use diarsaba_go.Samsara.ReadFree.Request.{read_free_req-read_free_req_bytes}
use diarsaba_go.Samsara.Delete.{delete_req_bytes, delete_req}
use diarsaba_go.Samsara.Delete.Request.{delete_req-delete_req_bytes}
use diarsaba_go.Samsara.ReadCell.{read_cell_req_bytes, read_cell_req}
use diarsaba_go.Samsara.ReadCell.Request.{read_cell_req-read_cell_req_bytes}
use diarsaba_go.Samsara.Diferir.{diferir_req_bytes, diferir_req}
use diarsaba_go.Samsara.Diferir.Request.{diferir_req-diferir_req_bytes}
use diarsaba_go.Samsara.Cruzar.{cruzar_req_bytes, cruzar_req}
use diarsaba_go.Samsara.Cruzar.Request.{cruzar_req-cruzar_req_bytes}
use diarsaba_go.Tests.Fixtures.{
  id_bytes, id_view, entropy, drawn_bytes, id_given, id_drawn, name_units, name_bytes, name_text,
  key_bytes, value_bytes, secret_bytes,
}

create_db_req-create_db_req_bytes_example :
    (create_db_req_bytes
        (text name_units)
        (part secret_bytes)
        (pos 4294967297)
        (pos 513)
        (uint8_array id_view)
        entropy
      >>= λ (frame, _). create_db_req (part frame))
    ≡ ok (record {
      id = id_bytes;
      db_name = name_bytes;
      secret = secret_bytes;
      db_size = 1;
      genome = 513;
    })
unfolding to_uint32
create_db_req-create_db_req_bytes_example =
    create_db_req-create_db_req_bytes (pos 4294967297) (pos 513) name_text
      (Converts-part secret_bytes) id_given (omega arith) (omega arith)

delete_db_req-delete_db_req_bytes_example :
    (delete_db_req_bytes (text name_units) (part secret_bytes) (negsuc 0) nullish entropy
      >>= λ (frame, _). delete_db_req (part frame))
    ≡ ok (record {
      id = drawn_bytes;
      cell_index = 4294967295;
      db_name = name_bytes;
      secret = secret_bytes;
    })
unfolding to_uint32
delete_db_req-delete_db_req_bytes_example =
    delete_db_req-delete_db_req_bytes (negsuc 0) name_text (Converts-part secret_bytes) id_drawn
      (omega arith) (omega arith)

write_req-write_req_bytes_example :
    (write_req_bytes
        (negsuc 0)
        (text name_units)
        (part key_bytes)
        (part value_bytes)
        (part secret_bytes)
        (uint8_array id_view)
        entropy
      >>= λ (frame, _). write_req (part frame))
    ≡ ok (record {
      id = id_bytes;
      cell_index = 4294967295;
      db_name = name_bytes;
      key = key_bytes;
      value = value_bytes;
      secret = secret_bytes;
    })
unfolding to_uint32
write_req-write_req_bytes_example =
    write_req-write_req_bytes (negsuc 0) name_text (Converts-part key_bytes)
      (Converts-part value_bytes) (Converts-part secret_bytes) id_given (omega arith) (omega arith)
      (omega arith) (omega arith)

read_req-read_req_bytes_example :
    (read_req_bytes
        (negsuc 0)
        (text name_units)
        (part key_bytes)
        (part secret_bytes)
        nullish
        entropy
      >>= λ (frame, _). read_req (part frame))
    ≡ ok (record {
      id = drawn_bytes;
      cell_index = 4294967295;
      db_name = name_bytes;
      key = key_bytes;
      secret = secret_bytes;
    })
unfolding to_uint32
read_req-read_req_bytes_example =
    read_req-read_req_bytes (negsuc 0) name_text (Converts-part key_bytes)
      (Converts-part secret_bytes) id_drawn (omega arith) (omega arith) (omega arith)

read_free_req-read_free_req_bytes_example :
    (read_free_req_bytes (text name_units) (part key_bytes) (uint8_array id_view) entropy
      >>= λ (frame, _). read_free_req (part frame))
    ≡ ok (record { id = id_bytes; db_name = name_bytes; key = key_bytes })
unfolding to_uint32
read_free_req-read_free_req_bytes_example =
    read_free_req-read_free_req_bytes name_text (Converts-part key_bytes) id_given (omega arith)
      (omega arith)

delete_req-delete_req_bytes_example :
    (delete_req_bytes
        (text name_units)
        (part key_bytes)
        (part secret_bytes)
        (negsuc 0)
        nullish
        entropy
      >>= λ (frame, _). delete_req (part frame))
    ≡ ok (record {
      id = drawn_bytes;
      cell_index = 4294967295;
      db_name = name_bytes;
      key = key_bytes;
      secret = secret_bytes;
    })
unfolding to_uint32
delete_req-delete_req_bytes_example =
    delete_req-delete_req_bytes (negsuc 0) name_text (Converts-part key_bytes)
      (Converts-part secret_bytes) id_drawn (omega arith) (omega arith) (omega arith)

read_cell_req-read_cell_req_bytes_example :
    (read_cell_req_bytes
        (text name_units)
        (part secret_bytes)
        (negsuc 0)
        (uint8_array id_view)
        entropy
      >>= λ (frame, _). read_cell_req (part frame))
    ≡ ok (record {
      id = id_bytes;
      cell_index = 4294967295;
      db_name = name_bytes;
      secret = secret_bytes;
    })
unfolding to_uint32
read_cell_req-read_cell_req_bytes_example =
    read_cell_req-read_cell_req_bytes (negsuc 0) name_text (Converts-part secret_bytes) id_given
      (omega arith) (omega arith)

diferir_req-diferir_req_bytes_example :
    (diferir_req_bytes
        (text name_units)
        (part secret_bytes)
        (part secret_bytes)
        (negsuc 0)
        (pos 513)
        (pos 3)
        (negsuc 1)
        (pos 70000)
        nullish
        (uint8_array id_view)
        entropy
      >>= λ (frame, _). diferir_req (part frame))
    ≡ ok (record {
      id = drawn_bytes;
      db_name = name_bytes;
      cell_index = 4294967295;
      secret = secret_bytes;
      child_genome = 513;
      x = 3;
      y = 4294967294;
      z = 70000;
      child_salt = id_bytes;
      child_secret = secret_bytes;
    })
unfolding to_uint32
diferir_req-diferir_req_bytes_example =
    diferir_req-diferir_req_bytes (negsuc 0) (pos 513) (pos 3) (negsuc 1) (pos 70000) name_text
      (Converts-part secret_bytes) (Converts-part secret_bytes) id_given id_drawn (omega arith)
      (omega arith) (omega arith)

cruzar_req-cruzar_req_bytes_example :
    (cruzar_req_bytes
        (text name_units)
        (pos 9)
        (negsuc 0)
        (part secret_bytes)
        (part key_bytes)
        (pos 3)
        (negsuc 1)
        (pos 70000)
        (part secret_bytes)
        (uint8_array id_view)
        entropy
      >>= λ (frame, _). cruzar_req (part frame))
    ≡ ok (record {
      id = id_bytes;
      db_name = name_bytes;
      cell_index_a = 9;
      cell_index_b = 4294967295;
      secret_a = secret_bytes;
      secret_b = key_bytes;
      x = 3;
      y = 4294967294;
      z = 70000;
      child_secret = secret_bytes;
    })
unfolding to_uint32
cruzar_req-cruzar_req_bytes_example =
    cruzar_req-cruzar_req_bytes (pos 9) (negsuc 0) (pos 3) (negsuc 1) (pos 70000) name_text
      (Converts-part secret_bytes) (Converts-part key_bytes) (Converts-part secret_bytes) id_given
      (omega arith) (omega arith) (omega arith) (omega arith)
