-- ===== src/Common/Opcodes.antt =====
-- `NATIVE_OPCODES` and `EXTERNAL_OPCODES` of cards/js/common.js.
use diarsaba_go.Prelude.{ℕ}

-- The keys of the two tables.
pub data Operation : Type 0 where
  create_db delete_db write read read_free delete read_cell diferir cruzar : Operation

abbrev pub native_opcodes : Operation → ℕ
native_opcodes create_db = 0x00
native_opcodes delete_db = 0x01
native_opcodes write = 0x02
native_opcodes read = 0x03
native_opcodes read_free = 0x04
native_opcodes delete = 0x05
native_opcodes read_cell = 0x06
native_opcodes diferir = 0x07
native_opcodes cruzar = 0x08

abbrev pub external_opcodes : Operation → ℕ
external_opcodes create_db = 0x20
external_opcodes delete_db = 0x21
external_opcodes write = 0x22
external_opcodes read = 0x23
external_opcodes read_free = 0x24
external_opcodes delete = 0x25
external_opcodes read_cell = 0x26
external_opcodes diferir = 0x27
external_opcodes cruzar = 0x28
