-- ===== src/Page/Frames.antt =====
-- What cards/index.html writes in its log of a frame that comes in.
use diarsaba_go.Prelude.{
  ℕ, ◌+◌, List, [], ◌∷◌, ◌++◌, Bool, true, false, Option, none, some, length, take, drop, leb, ltb,
  ◌==◌, ◌&&◌, ◌||◌, if◌then◌else◌,
}
use diarsaba_go.Js.Strings.{literal, index_of}
use diarsaba_go.Js.Strings.Numerals.{decimal, binary, pad_start}
use diarsaba_go.Js.Strings.Quote.{quote_text}
use diarsaba_go.Page.Op
use diarsaba_go.Page.{
  Pending, consume_pending, short_hex, hex, opcode_name, read_u16, read_u32, frame_opcode, is_known,
  extract_response_id,
}
use diarsaba_go.Page.Texts.{
  line, try_decode_text, payload_text_lines, text_or_hex, parse_genome_flags, join_names,
}

-- The line of a peer's id.
unfoldable pub peer_line : List ℕ → List ℕ
peer_line peer = line "peer" (quote_text (text_or_hex (try_decode_text peer) peer))

unfoldable pub payload_bytes_line : List ℕ → List ℕ
payload_bytes_line payload = line "payload_bytes" (decimal (length payload))

-- After the length of the peer's id has been read.
unfoldable pub direct_msg_lines : Option ℕ → List ℕ → List (List ℕ)
direct_msg_lines none payload = []
direct_msg_lines (some size) payload =
    line "peer_len" (decimal size)
    ∷ (if ltb (length payload) (2 + size)
        then []
        else peer_line (take size (drop 2 payload))
          ∷ payload_text_lines "data" (drop (2 + size) payload))

unfoldable pub parse_direct_msg_payload : List ℕ → List (List ℕ)
parse_direct_msg_payload payload =
    payload_bytes_line payload ∷ direct_msg_lines (read_u16 payload 0) payload

-- The event's peer, where the payload is long enough to hold it.
unfoldable pub peer_found_lines : Option ℕ → List ℕ → List (List ℕ)
peer_found_lines none payload = []
peer_found_lines (some size) payload =
    if leb (2 + size) (length payload) then peer_line (take size (drop 2 payload)) ∷ [] else []

unfoldable pub publication_lines : Option ℕ → List ℕ → List (List ℕ)
publication_lines none text = line "payload_text" (quote_text text) ∷ []
publication_lines (some separator) text =
    line "topic" (quote_text (take separator text))
    ∷ line "message" (quote_text (drop (separator + 1) text))
    ∷ []

-- The switch of `parseSynapTextPayload`.
unfoldable pub synap_text_lines : ℕ → List ℕ → List (List ℕ)
synap_text_lines opcode text =
    if opcode == Op.relay || opcode == Op.dial
    then line "addr" (quote_text text) ∷ []
    else if opcode == Op.sub || (opcode == Op.use_topic || opcode == Op.unsub)
    then line "topic" (quote_text text) ∷ []
    else if opcode == Op.publish
    then publication_lines (index_of b'|' text) text
    else if opcode == Op.announce
        || (opcode == Op.unannounce || (opcode == Op.find_providers || opcode == Op.generate_cid))
    then line "cid" (quote_text text) ∷ []
    else if opcode == Op.peers
    then line "peers" (quote_text text) ∷ []
    else if opcode == Op.disconnect
    then line "peer" (quote_text text) ∷ []
    else line "payload_text" (quote_text text) ∷ []

unfoldable pub decoded_lines : ℕ → Option (List ℕ) → List (List ℕ)
decoded_lines opcode none = []
decoded_lines opcode (some text) = synap_text_lines opcode text

unfoldable pub parse_synap_text_payload : ℕ → List ℕ → List (List ℕ)
parse_synap_text_payload opcode payload =
    payload_bytes_line payload ∷ decoded_lines opcode (try_decode_text payload)

unfoldable pub true_or_false : Bool → List ℕ
true_or_false true = literal "true"
true_or_false false = literal "false"

-- The payload of a response: its status, and the data behind it.
unfoldable pub status_lines : List ℕ → List (List ℕ)
status_lines [] = line "status" (literal "<sin payload>") ∷ []
status_lines (status ∷ data_bytes) =
    line "status" (decimal status)
    ∷ line "ok" (true_or_false (status == 0x01))
    ∷ (if leb 1 (length data_bytes) then payload_text_lines "data" data_bytes else [])

unfoldable pub event_lines : ℕ → List ℕ → List (List ℕ)
event_lines opcode payload =
    if opcode == Op.event_pubsub
    then payload_text_lines "data" payload
    else if opcode == Op.event_direct_msg
    then parse_direct_msg_payload payload
    else if opcode == Op.event_peer_found
    then payload_bytes_line payload ∷ peer_found_lines (read_u16 payload 0) payload
    else parse_synap_text_payload opcode payload

-- The log and the requests that still wait.
unfoldable pub parse_synap_opcode_frame : List ℕ → ℕ → Pending → List (List ℕ) × Pending
parse_synap_opcode_frame frame opcode pending =
    let id = take 16 (drop 4 frame) in
    let payload = drop 20 frame in
    let name = line "opcode" (opcode_name opcode) in
    if ltb (length frame) 20
    then (name ∷ line "id" (literal "<incompleto>") ∷ [], pending)
    else if leb Op.relay opcode && leb opcode Op.generate_cid
    then (name ∷ line "id" (short_hex id) ∷ status_lines payload, (consume_pending id pending).1)
    else (name ∷ line "id" (short_hex id) ∷ event_lines opcode payload, pending)

unfoldable pub word_or_incomplete : Option ℕ → List ℕ
word_or_incomplete none = literal "<incompleto>"
word_or_incomplete (some word) = decimal word

-- A word that is known to be there.
unfoldable pub word_or_zero : Option ℕ → ℕ
word_or_zero none = 0
word_or_zero (some word) = word

unfoldable pub cell_lines : List ℕ → List (List ℕ)
cell_lines value =
    let genome = word_or_zero (read_u32 value 0) in
    line "cell.genome" (decimal genome)
    ∷ line "cell.genome_bits" (pad_start 32 (binary genome))
    ∷ line "cell.flags" (quote_text (join_names (parse_genome_flags genome)))
    ∷ line "cell.x" (decimal (word_or_zero (read_u32 value 4)))
    ∷ line "cell.y" (decimal (word_or_zero (read_u32 value 8)))
    ∷ line "cell.z" (decimal (word_or_zero (read_u32 value 12)))
    ∷ []

unfoldable pub value_text_lines : Option (List ℕ) → List (List ℕ)
value_text_lines none = []
value_text_lines (some text) = line "value_text" (quote_text text) ∷ []

unfoldable pub read_cell_lines : List ℕ → List (List ℕ)
read_cell_lines value =
    line "value_bytes" (decimal (length value))
    ∷ (if leb 16 (length value) then cell_lines value else value_text_lines (try_decode_text value))

-- The switch of `parseSamsaraResult`.
unfoldable pub result_lines : List ℕ → ℕ → List (List ℕ)
result_lines frame opcode =
    if opcode == Op.create_db
      || (opcode == Op.delete_db || (opcode == Op.write || opcode == Op.delete))
    then []
    else if opcode == Op.read
    then line "cellIndex" (word_or_incomplete (read_u32 frame 20))
      ∷ payload_text_lines "value" (drop 24 frame)
    else if opcode == Op.read_free
    then payload_text_lines "value" (drop 20 frame)
    else if opcode == Op.read_cell
    then read_cell_lines (drop 20 frame)
    else if opcode == Op.diferir || opcode == Op.cruzar
    then line "newCellIndex" (word_or_incomplete (read_u32 frame 20)) ∷ []
    else payload_text_lines "body" (drop 20 frame)

unfoldable pub request_line : Option ℕ → List (List ℕ)
request_line none = []
request_line (some opcode) = line "request" (opcode_name opcode) ∷ []

unfoldable pub info_lines : Option (List ℕ) → List ℕ → List (List ℕ)
info_lines (some text) info = line "info_text" (quote_text text) ∷ []
info_lines none info = if leb 1 (length info) then line "info_hex" (hex info) ∷ [] else []

unfoldable pub parse_error_frame : List ℕ → Option ℕ → List (List ℕ)
parse_error_frame frame opcode_hint =
    let info = drop 20 frame in
    literal "type=error_envelope"
    ∷ (if ltb (length frame) 20
        then line "error" (literal "<incompleto>") ∷ []
        else line "id" (short_hex (take 16 frame))
          ∷ (request_line opcode_hint
              ++ (line "error_id" (decimal (word_or_zero (read_u32 frame 16)))
                  ∷ info_lines (try_decode_text info) info)))

-- The status is 0 or 1, or the frame reports an error.
unfoldable pub samsara_lines : List ℕ → ℕ → ℕ → List (List ℕ)
samsara_lines frame opcode status =
    if status == 0 || status == 1
    then line "opcode" (opcode_name opcode)
      ∷ line "id" (short_hex (take 16 frame))
      ∷ line "status" (decimal status)
      ∷ line "ok" (true_or_false (status == 1))
      ∷ result_lines frame opcode
    else parse_error_frame frame (some opcode)

unfoldable pub parse_samsara_result : List ℕ → ℕ → List (List ℕ)
parse_samsara_result frame opcode =
    if ltb (length frame) 20
    then line "opcode" (opcode_name opcode) ∷ line "result" (literal "<incompleto>") ∷ []
    else samsara_lines frame opcode (word_or_zero (read_u32 frame 16))

pub record Inspected : Type 0 where
  pub title : List ℕ
  pub lines : List (List ℕ)

-- The branches of `inspectIncomingFrame` after the id has been looked up.
unfoldable pub inspect_response : List ℕ → Option ℕ → Inspected
inspect_response frame none = record {
  title = literal "response";
  lines = parse_error_frame frame none;
}
inspect_response frame (some opcode) =
    if leb Op.create_db opcode && leb opcode Op.cruzar
    then record { title = opcode_name opcode; lines = parse_samsara_result frame opcode }
    else record {
      title = opcode_name opcode ++ literal " error";
      lines = parse_error_frame frame (some opcode);
    }

-- `responseId ? consumePending(responseId) : null`
unfoldable pub consume_response : Option (List ℕ) → Pending → Option ℕ × Pending
consume_response none pending = (none, pending)
consume_response (some id) pending = consume_pending id pending

unfoldable pub inspect_opcode : List ℕ → Option ℕ → Pending → Inspected × Pending
inspect_opcode frame none pending =
    let (hint, pending') = consume_response (extract_response_id frame) pending in
    (inspect_response frame hint, pending')
inspect_opcode frame (some opcode) pending =
    let (hint, after_response) = consume_response (extract_response_id frame) pending in
    let (lines, after_frame) = parse_synap_opcode_frame frame opcode pending in
    if is_known (some opcode)
    then (record { title = opcode_name opcode; lines = lines }, after_frame)
    else (inspect_response frame hint, after_response)

unfoldable pub inspect_incoming_frame : List ℕ → Pending → Inspected × Pending
inspect_incoming_frame [] pending =
    (record { title = literal "frame vacio"; lines = literal "frame vacio" ∷ [] }, pending)
inspect_incoming_frame (b ∷ rest) pending =
    inspect_opcode (b ∷ rest) (frame_opcode (b ∷ rest)) pending
