-- ===== src/Page/Op.antt =====
-- `OP` of cards/index.html: the opcode of each request and event. In the source's words `use_topic`
-- is USE, and `publish` PUB.
use diarsaba_go.Prelude.{ℕ}

abbrev pub relay : ℕ
relay = 0x01

abbrev pub dial : ℕ
dial = 0x02

abbrev pub sub : ℕ
sub = 0x03

abbrev pub use_topic : ℕ
use_topic = 0x04

abbrev pub publish : ℕ
publish = 0x05

abbrev pub peers : ℕ
peers = 0x06

abbrev pub unsub : ℕ
unsub = 0x07

abbrev pub announce : ℕ
announce = 0x08

abbrev pub unannounce : ℕ
unannounce = 0x09

abbrev pub find_providers : ℕ
find_providers = 0x0a

abbrev pub direct_msg : ℕ
direct_msg = 0x0b

abbrev pub disconnect : ℕ
disconnect = 0x0c

abbrev pub generate_cid : ℕ
generate_cid = 0x0d

abbrev pub event_pubsub : ℕ
event_pubsub = 0x0e

abbrev pub event_direct_msg : ℕ
event_direct_msg = 0x0f

abbrev pub event_peer_found : ℕ
event_peer_found = 0x10

abbrev pub create_db : ℕ
create_db = 0x20

abbrev pub delete_db : ℕ
delete_db = 0x21

abbrev pub write : ℕ
write = 0x22

abbrev pub read : ℕ
read = 0x23

abbrev pub read_free : ℕ
read_free = 0x24

abbrev pub delete : ℕ
delete = 0x25

abbrev pub read_cell : ℕ
read_cell = 0x26

abbrev pub diferir : ℕ
diferir = 0x27

abbrev pub cruzar : ℕ
cruzar = 0x28
