-- ===== src/Page.antt =====
-- The script of cards/index.html: its table of opcodes, and how it reads a frame.
pub mod Op
pub mod Texts
pub mod Frames
pub mod Inspect
pub mod Answers
pub mod SynapAnswers
pub mod Cards
pub mod Mistaken
pub mod Keys
use diarsaba_go.Prelude.{
  ℕ, ◌+◌, ◌-◌, ◌*◌, ◌%◌, String, List, [], ◌∷◌, ◌++◌, Bool, true, false, Option, none, some, length,
  take, drop, get_or, lookup, delete, put, leb, ltb, ◌==◌, ◌&&◌, if◌then◌else◌,
}
use diarsaba_go.Page.Op
use diarsaba_go.Js.Number.{word32}
use diarsaba_go.Js.Strings.{literal}
use diarsaba_go.Js.Strings.Numerals.{hexadecimal, pad_start}

-- `Object.values(OP)`
abbrev pub known_opcodes : List ℕ
known_opcodes =
    Op.relay ∷ Op.dial ∷ Op.sub ∷ Op.use_topic ∷ Op.publish ∷ Op.peers ∷ Op.unsub ∷ Op.announce
    ∷ Op.unannounce ∷ Op.find_providers ∷ Op.direct_msg ∷ Op.disconnect ∷ Op.generate_cid
    ∷ Op.event_pubsub ∷ Op.event_direct_msg ∷ Op.event_peer_found ∷ Op.create_db ∷ Op.delete_db
    ∷ Op.write ∷ Op.read ∷ Op.read_free ∷ Op.delete ∷ Op.read_cell ∷ Op.diferir ∷ Op.cruzar ∷ []

-- The object `names` of `opcodeName`.
abbrev pub opcode_names : List (ℕ × String)
opcode_names =
    (Op.relay, "RELAY")
    ∷ (Op.dial, "DIAL")
    ∷ (Op.sub, "SUB")
    ∷ (Op.use_topic, "USE")
    ∷ (Op.publish, "PUB")
    ∷ (Op.peers, "PEERS")
    ∷ (Op.unsub, "UNSUB")
    ∷ (Op.announce, "ANNOUNCE")
    ∷ (Op.unannounce, "UNANNOUNCE")
    ∷ (Op.find_providers, "FIND_PROVIDERS")
    ∷ (Op.direct_msg, "DIRECT_MSG")
    ∷ (Op.disconnect, "DISCONNECT")
    ∷ (Op.generate_cid, "GENERATE_CID")
    ∷ (Op.event_pubsub, "EVENT_PUBSUB")
    ∷ (Op.event_direct_msg, "EVENT_DIRECT_MSG")
    ∷ (Op.event_peer_found, "EVENT_PEER_FOUND")
    ∷ (Op.create_db, "CREATE_DB")
    ∷ (Op.delete_db, "DELETE_DB")
    ∷ (Op.write, "WRITE")
    ∷ (Op.read, "READ")
    ∷ (Op.read_free, "READ_FREE")
    ∷ (Op.delete, "DELETE")
    ∷ (Op.read_cell, "READ_CELL")
    ∷ (Op.diferir, "DIFERIR")
    ∷ (Op.cruzar, "CRUZAR")
    ∷ []

unfoldable pub has : ℕ → List ℕ → Bool
has opcode [] = false
has opcode (known ∷ rest) = let later = has opcode rest in if known == opcode then true else later

-- `byte.toString(16).padStart(2, "0")`
abbrev pub byte_hex : ℕ → List ℕ
byte_hex b = pad_start 2 (hexadecimal b)

unfoldable pub name_of : ℕ → List (ℕ × String) → Option String
name_of opcode [] = none
name_of opcode ((known, name) ∷ rest) =
    let later = name_of opcode rest in if known == opcode then some name else later

unfoldable pub name_or_hex : ℕ → Option String → List ℕ
name_or_hex opcode (some name) = literal name
name_or_hex opcode none = literal "0x" ++ byte_hex opcode

unfoldable pub opcode_name : ℕ → List ℕ
opcode_name opcode = name_or_hex opcode (name_of opcode opcode_names)

unfoldable pub short_hex : List ℕ → List ℕ
short_hex [] = []
short_hex (b ∷ rest) = byte_hex b ++ short_hex rest

-- `hex`: the same with a space between two bytes.
unfoldable pub hex : List ℕ → List ℕ
hex [] = []
hex (b ∷ []) = byte_hex b
hex (b ∷ c ∷ rest) = byte_hex b ++ (b' ' ∷ hex (c ∷ rest))

-- The script's frames are arrays of their own, so that reading them never throws.
unfoldable pub read_u16 : List ℕ → ℕ → Option ℕ
read_u16 bytes offset =
    if ltb (length bytes) (offset + 2)
    then none
    else some (get_or bytes offset 0 * 256 + get_or bytes (offset + 1) 0)

unfoldable pub read_u32 : List ℕ → ℕ → Option ℕ
read_u32 bytes offset =
    if ltb (length bytes) (offset + 4)
    then none
    else some (
        word32 (get_or bytes offset 0) (get_or bytes (offset + 1) 0) (get_or bytes (offset + 2) 0)
          (get_or bytes (offset + 3) 0))

-- `opcode & 0xff`, where there is one.
unfoldable pub low_byte : Option ℕ → Option ℕ
low_byte none = none
low_byte (some word) = some (word % 256)

unfoldable pub frame_opcode : List ℕ → Option ℕ
frame_opcode frame = low_byte (read_u32 frame 0)

unfoldable pub is_known : Option ℕ → Bool
is_known none = false
is_known (some opcode) = has opcode known_opcodes

unfoldable pub is_opcode_frame : List ℕ → Bool
is_opcode_frame frame = is_known (frame_opcode frame)

unfoldable pub extract_response_id : List ℕ → Option (List ℕ)
extract_response_id frame =
    if ltb (length frame) 20
    then none
    else if is_opcode_frame frame
    then some (take 16 (drop 4 frame))
    else some (take 16 frame)

-- `pending`: the opcode of each request that waits for a response, by the id in hexadecimal.
abbrev pub Pending : Type 0
Pending = List (List ℕ × ℕ)

unfoldable pub remember_pending : List ℕ → ℕ → Pending → Pending
remember_pending id opcode pending = put (short_hex id) opcode pending

unfoldable pub peek_pending : List ℕ → Pending → Option ℕ
peek_pending id pending = lookup (short_hex id) pending

unfoldable pub consume_pending : List ℕ → Pending → Option ℕ × Pending
consume_pending id pending = (lookup (short_hex id) pending, delete (short_hex id) pending)
