-- ===== src/Page/Cards.antt =====
-- The frames that the cards of cards/index.html send.
pub mod Concat
pub mod Samsara
pub mod Routing
pub mod Synap
use diarsaba_go.Prelude.{ℕ, ◌+◌, List, [], ◌∷◌, ◌++◌, length, overwrite}
use diarsaba_go.Js.Number.{ℤ, pos, to_uint32, be32, be16}
use diarsaba_go.Js.Bytes.{zeros}
use diarsaba_go.Js.Text.{encode}
use diarsaba_go.Js.Entropy.{Entropy, get_random_values}
use diarsaba_go.Page.Op

-- `textBytes` on a string.
abbrev pub text_bytes : List ℕ → List ℕ
text_bytes value = encode value

-- `setUint16` and `setUint32` of `Number(value) >>> 0`. The number that a field's text stands for is
-- an argument.
abbrev pub u16 : ℤ → List ℕ
u16 value = be16 (to_uint32 value)

abbrev pub u32 : ℤ → List ℕ
u32 value = be32 (to_uint32 value)

-- `parts.reduce((sum, part) => sum + part.length, 0)`
unfoldable pub total : ℕ → List (List ℕ) → ℕ
total sum [] = sum
total sum (part ∷ parts) = total (sum + length part) parts

-- The loop of `concat`.
unfoldable pub placed : List ℕ → ℕ → List (List ℕ) → List ℕ
placed out offset [] = out
placed out offset (part ∷ parts) = placed (overwrite out offset part) (offset + length part) parts

unfoldable pub concat : List (List ℕ) → List ℕ
concat parts = placed (zeros (total 0 parts)) 0 parts

-- The cards, with the values of their fields: texts, and the numbers that texts stand for.
pub data SynapCard : Type 0 where
  relay dial sub use_topic unsub announce unannounce find_providers disconnect generate_cid :
      List ℕ → SynapCard
  publish direct_msg : List ℕ → List ℕ → SynapCard
  peers : SynapCard

pub data SamsaraCard : Type 0 where
  create_db : (db secret : List ℕ) → (size genome : ℤ) → SamsaraCard
  delete_db : (cell : ℤ) → (db secret : List ℕ) → SamsaraCard
  write : (cell : ℤ) → (db key value secret : List ℕ) → SamsaraCard
  read : (cell : ℤ) → (db key secret : List ℕ) → SamsaraCard
  read_free : (db key : List ℕ) → SamsaraCard
  delete : (cell : ℤ) → (db key secret : List ℕ) → SamsaraCard
  read_cell : (cell : ℤ) → (db secret : List ℕ) → SamsaraCard
  diferir :
      (db : List ℕ)
      → (cell : ℤ) → (secret : List ℕ) → (genome x y z : ℤ) → (child : List ℕ) → SamsaraCard
  cruzar :
      (db : List ℕ)
      → (cell_a cell_b : ℤ) → (secret_a secret_b : List ℕ) → (x y z : ℤ) → (child : List ℕ)
      → SamsaraCard

unfoldable pub synap_opcode : SynapCard → ℕ
synap_opcode (relay addr) = Op.relay
synap_opcode (dial addr) = Op.dial
synap_opcode (sub topic) = Op.sub
synap_opcode (use_topic topic) = Op.use_topic
synap_opcode (publish topic message) = Op.publish
synap_opcode peers = Op.peers
synap_opcode (unsub topic) = Op.unsub
synap_opcode (announce cid) = Op.announce
synap_opcode (unannounce cid) = Op.unannounce
synap_opcode (find_providers cid) = Op.find_providers
synap_opcode (direct_msg peer data_text) = Op.direct_msg
synap_opcode (disconnect peer) = Op.disconnect
synap_opcode (generate_cid data_text) = Op.generate_cid

unfoldable pub samsara_opcode : SamsaraCard → ℕ
samsara_opcode (create_db db secret size genome) = Op.create_db
samsara_opcode (delete_db cell db secret) = Op.delete_db
samsara_opcode (write cell db key value secret) = Op.write
samsara_opcode (read cell db key secret) = Op.read
samsara_opcode (read_free db key) = Op.read_free
samsara_opcode (delete cell db key secret) = Op.delete
samsara_opcode (read_cell cell db secret) = Op.read_cell
samsara_opcode (diferir db cell secret genome x y z child) = Op.diferir
samsara_opcode (cruzar db cell_a cell_b secret_a secret_b x y z child) = Op.cruzar

unfoldable pub synap_payload : SynapCard → List ℕ
synap_payload (relay addr) = text_bytes addr
synap_payload (dial addr) = text_bytes addr
synap_payload (sub topic) = text_bytes topic
synap_payload (use_topic topic) = text_bytes topic
synap_payload (publish topic message) = text_bytes (topic ++ (b'|' ∷ message))
synap_payload peers = []
synap_payload (unsub topic) = text_bytes topic
synap_payload (announce cid) = text_bytes cid
synap_payload (unannounce cid) = text_bytes cid
synap_payload (find_providers cid) = text_bytes cid
synap_payload (direct_msg peer data_text) =
    concat (u16 (pos (length (text_bytes peer))) ∷ text_bytes peer ∷ text_bytes data_text ∷ [])
synap_payload (disconnect peer) = text_bytes peer
synap_payload (generate_cid data_text) = text_bytes data_text

-- `u32(bytes.length)`
abbrev pub size_of : List ℕ → List ℕ
size_of bytes = u32 (pos (length bytes))

-- Only `diferir` draws bytes, for the child's salt.
unfoldable pub samsara_payload : SamsaraCard → Entropy → List ℕ × Entropy
samsara_payload (create_db db' secret' size genome) e =
    let db = text_bytes db' in
    let secret = text_bytes secret' in
    (concat (size_of db ∷ size_of secret ∷ u32 size ∷ u32 genome ∷ db ∷ secret ∷ []), e)
samsara_payload (delete_db cell db' secret') e =
    let db = text_bytes db' in
    let secret = text_bytes secret' in
    (concat (u32 cell ∷ size_of db ∷ size_of secret ∷ db ∷ secret ∷ []), e)
samsara_payload (write cell db' key' value' secret') e =
    let db = text_bytes db' in
    let key = text_bytes key' in
    let value = text_bytes value' in
    let secret = text_bytes secret' in
    (
      concat (
          u32 cell
          ∷ size_of db
          ∷ size_of key
          ∷ size_of value
          ∷ size_of secret
          ∷ db
          ∷ key
          ∷ value
          ∷ secret
          ∷ []),
      e,
    )
samsara_payload (read cell db' key' secret') e =
    let db = text_bytes db' in
    let key = text_bytes key' in
    let secret = text_bytes secret' in
    (concat (u32 cell ∷ size_of db ∷ size_of key ∷ size_of secret ∷ db ∷ key ∷ secret ∷ []), e)
samsara_payload (read_free db' key') e =
    let db = text_bytes db' in
    let key = text_bytes key' in (concat (size_of db ∷ size_of key ∷ db ∷ key ∷ []), e)
samsara_payload (delete cell db' key' secret') e =
    let db = text_bytes db' in
    let key = text_bytes key' in
    let secret = text_bytes secret' in
    (concat (u32 cell ∷ size_of db ∷ size_of key ∷ size_of secret ∷ db ∷ key ∷ secret ∷ []), e)
samsara_payload (read_cell cell db' secret') e =
    let db = text_bytes db' in
    let secret = text_bytes secret' in
    (concat (u32 cell ∷ size_of db ∷ size_of secret ∷ db ∷ secret ∷ []), e)
samsara_payload (diferir db' cell secret' genome x y z child') e =
    let db = text_bytes db' in
    let secret = text_bytes secret' in
    let child = text_bytes child' in
    let (salt, after) = get_random_values 16 e in
    (
      concat (
          size_of db
          ∷ u32 cell
          ∷ size_of secret
          ∷ u32 genome
          ∷ u32 x
          ∷ u32 y
          ∷ u32 z
          ∷ salt
          ∷ size_of child
          ∷ db
          ∷ secret
          ∷ child
          ∷ []),
      after,
    )
samsara_payload (cruzar db' cell_a cell_b secret_a' secret_b' x y z child') e =
    let db = text_bytes db' in
    let secret_a = text_bytes secret_a' in
    let secret_b = text_bytes secret_b' in
    let child = text_bytes child' in
    (
      concat (
          size_of db
          ∷ u32 cell_a
          ∷ u32 cell_b
          ∷ size_of secret_a
          ∷ size_of secret_b
          ∷ u32 x
          ∷ u32 y
          ∷ u32 z
          ∷ size_of child
          ∷ db
          ∷ secret_a
          ∷ secret_b
          ∷ child
          ∷ []),
      e,
    )

unfoldable pub build_request_frame : ℕ → List ℕ → List ℕ → List ℕ
build_request_frame opcode id payload = concat (u32 (pos opcode) ∷ id ∷ payload ∷ [])

-- `buildFrame` of a card.
unfoldable pub build_synap_frame : SynapCard → List ℕ → List ℕ
build_synap_frame card id = build_request_frame (synap_opcode card) id (synap_payload card)

unfoldable pub build_samsara_frame : SamsaraCard → List ℕ → Entropy → List ℕ × Entropy
build_samsara_frame card id e =
    let (payload, after) = samsara_payload card e in
    (build_request_frame (samsara_opcode card) id payload, after)
