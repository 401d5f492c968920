-- ===== src/Dispatch.antt =====
-- errors.go and dispatch.go: which protocol a frame is for, whose response it is, and the frames
-- that report an error.
pub mod ErrorFrames
pub mod RequestIds
pub mod Routing
use diarsaba_go.Prelude.{
  ℕ, ◌+◌, ◌-◌, List, [], ◌∷◌, ◌++◌, length, take, drop, replicate, get_or, Option, none, some, Bool,
  true, false, ◌&&◌, ltb, leb, ◌==◌, if◌then◌else◌,
}
use diarsaba_go.Js.Number.{be32}

pub data ErrorCode : Type 0 where
  frame_too_short unknown_opcode request_timeout duplicate_request node_process_failed : ErrorCode

abbrev pub error_code : ErrorCode → ℕ
error_code frame_too_short = 50000
error_code unknown_opcode = 50001
error_code request_timeout = 50002
error_code duplicate_request = 50003
error_code node_process_failed = 50004

-- `copy(window, src)`: as many bytes as both have.
unfoldable pub copied : List ℕ → List ℕ → List ℕ
copied window src = take (length window) src ++ drop (length src) window

-- `copy(dst[start:end], src)`, where the window lies in `dst`.
unfoldable pub copy_into : List ℕ → ℕ → ℕ → List ℕ → List ℕ
copy_into dst start end src =
    take start dst ++ (copied (take (end - start) (drop start dst)) src ++ drop end dst)

unfoldable pub normalize_id : List ℕ → List ℕ
normalize_id id = copied (replicate 16 0) id

-- `info` is given by its bytes.
unfoldable pub error_result : List ℕ → ErrorCode → List ℕ → List ℕ
error_result id code info =
    let made = replicate (20 + length info) 0 in
    let with_id = copy_into made 0 16 (normalize_id id) in
    let with_code = copy_into with_id 16 20 (be32 (error_code code)) in
    copy_into with_code 20 (length with_code) info

-- The bounds of the opcodes that the two protocol packages declare.
pub record Ranges : Type 0 where
  pub request_min : ℕ
  pub request_max : ℕ
  pub event_min : ℕ
  pub event_max : ℕ
  pub namespace_min : ℕ
  pub namespace_max : ℕ

-- `low <= opcode && opcode <= high`
abbrev pub within : ℕ → ℕ → ℕ → Bool
within low high opcode = leb low opcode && leb opcode high

pub data DispatchTarget : Type 0 where
  unknown synap samsara : DispatchTarget

pub record Classified : Type 0 where
  pub target : DispatchTarget
  pub opcode : ℕ
  pub request_id : List ℕ
  pub error_frame : Option (List ℕ)

-- "dispatcher.frame_too_short" and "dispatcher.unknown_opcode"
abbrev pub frame_too_short_info : List ℕ
frame_too_short_info =
    b'd' ∷ b'i' ∷ b's' ∷ b'p' ∷ b'a' ∷ b't' ∷ b'c' ∷ b'h' ∷ b'e' ∷ b'r' ∷ b'.' ∷ b'f' ∷ b'r' ∷ b'a'
    ∷ b'm' ∷ b'e' ∷ b'_' ∷ b't' ∷ b'o' ∷ b'o' ∷ b'_' ∷ b's' ∷ b'h' ∷ b'o' ∷ b'r' ∷ b't' ∷ []

abbrev pub unknown_opcode_info : List ℕ
unknown_opcode_info =
    b'd' ∷ b'i' ∷ b's' ∷ b'p' ∷ b'a' ∷ b't' ∷ b'c' ∷ b'h' ∷ b'e' ∷ b'r' ∷ b'.' ∷ b'u' ∷ b'n' ∷ b'k'
    ∷ b'n' ∷ b'o' ∷ b'w' ∷ b'n' ∷ b'_' ∷ b'o' ∷ b'p' ∷ b'c' ∷ b'o' ∷ b'd' ∷ b'e' ∷ []

unfoldable pub request_id_from_frame : List ℕ → List ℕ
request_id_from_frame frame =
    let end = if ltb (length frame) 20 then length frame else 20 in
    if leb (length frame) 4
    then replicate 16 0
    else copied (replicate 16 0) (take (end - 4) (drop 4 frame))

-- The switch on the opcode.
unfoldable pub classify_opcode : Ranges → ℕ → List ℕ → Classified
classify_opcode r opcode request_id =
    if within r.request_min r.request_max opcode
    then record { target = synap; opcode = opcode; request_id = request_id; error_frame = none }
    else if within r.namespace_min r.namespace_max opcode
    then record { target = samsara; opcode = opcode; request_id = request_id; error_frame = none }
    else record {
      target = unknown;
      opcode = opcode;
      request_id = request_id;
      error_frame = some (error_result request_id unknown_opcode unknown_opcode_info);
    }

unfoldable pub classify_frame : Ranges → List ℕ → Classified
classify_frame r frame =
    let request_id = request_id_from_frame frame in
    if ltb (length frame) 20
    then record {
      target = unknown;
      opcode = 0;
      request_id = request_id;
      error_frame = some (error_result request_id frame_too_short frame_too_short_info);
    }
    else classify_opcode r (get_or frame 3 0) request_id

unfoldable pub synap_opcode_from_frame : Ranges → List ℕ → Option ℕ
synap_opcode_from_frame r frame =
    if ltb (length frame) 4
    then none
    else if get_or frame 0 0 == 0 && (get_or frame 1 0 == 0 && get_or frame 2 0 == 0)
    then (if within r.request_min r.event_max (get_or frame 3 0)
        then some (get_or frame 3 0)
        else none)
    else none

-- The bytes of the id stand behind the opcode, or, without one, at the front.
unfoldable pub response_id_at : Option ℕ → List ℕ → List ℕ
response_id_at (some opcode) frame = copied (replicate 16 0) (take 16 (drop 4 frame))
response_id_at none frame = copied (replicate 16 0) (take 16 frame)

unfoldable pub synap_response_id : Ranges → List ℕ → Option (List ℕ)
synap_response_id r frame =
    if ltb (length frame) 20
    then none
    else some (response_id_at (synap_opcode_from_frame r frame) frame)

unfoldable pub is_synap_event : Ranges → ℕ → Bool
is_synap_event r opcode = within r.event_min r.event_max opcode
