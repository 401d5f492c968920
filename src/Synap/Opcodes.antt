-- ===== src/Synap/Opcodes.antt =====
-- `NATIVE_OPCODES` and `EXTERNAL_OPCODES` of cards/js/synap2p/common.js.
use diarsaba_go.Prelude.{ℕ}

-- The keys of the two tables. `use_topic` and `publish` are `USE` and `PUB`.
pub data Operation : Type 0 where
  relay dial sub use_topic publish peers unsub announce unannounce find_providers : Operation
  direct_msg disconnect generate_cid event_pubsub event_direct_msg event_peer_found : Operation

abbrev pub native_opcodes : Operation → ℕ
native_opcodes relay = 0x01
native_opcodes dial = 0x02
native_opcodes sub = 0x03
native_opcodes use_topic = 0x04
native_opcodes publish = 0x05
native_opcodes peers = 0x06
native_opcodes unsub = 0x07
native_opcodes announce = 0x08
native_opcodes unannounce = 0x09
native_opcodes find_providers = 0x0a
native_opcodes direct_msg = 0x0b
native_opcodes disconnect = 0x0c
native_opcodes generate_cid = 0x0d
native_opcodes event_pubsub = 0x0e
native_opcodes event_direct_msg = 0x0f
native_opcodes event_peer_found = 0x10

abbrev pub external_opcodes : Operation → ℕ
external_opcodes relay = 0x00
external_opcodes dial = 0x01
external_opcodes sub = 0x02
external_opcodes use_topic = 0x03
external_opcodes publish = 0x04
external_opcodes peers = 0x05
external_opcodes unsub = 0x06
external_opcodes announce = 0x07
external_opcodes unannounce = 0x08
external_opcodes find_providers = 0x09
external_opcodes direct_msg = 0x0a
external_opcodes disconnect = 0x0b
external_opcodes generate_cid = 0x0c
external_opcodes event_pubsub = 0x0d
external_opcodes event_direct_msg = 0x0e
external_opcodes event_peer_found = 0x0f
