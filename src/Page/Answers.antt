-- ===== src/Page/Answers.antt =====
-- The log of cards/index.html for the answers to its own requests: responses of both protocols and
-- error frames.
use diarsaba_go.Prelude.{
  ℕ, ◌^◌, ◌≤◌, ◌<◌, ◌≡◌, refl, ap, sym, ◌∙◌, List, ◌∷◌, ◌++◌, length, drop, get_or, Option, some,
  false, All, ◌&&◌, ◌||◌, ◌==◌, ltb, leb, Bool-cases, inl, inr, lookup, delete, length-append,
  take-length_append, drop-length_append, append_assoc, arith,
}
use diarsaba_go.Js.Result.{ok, ◌>>=◌}
use diarsaba_go.Js.Number.{ℤ, IsByte, be32, to_uint32, to_uint32-lt}
use diarsaba_go.Js.Strings.{literal}
use diarsaba_go.Js.Strings.Numerals.{decimal}
use diarsaba_go.Js.Entropy.{Entropy}
use diarsaba_go.Common.Value.{Value, Converts}
use diarsaba_go.Common.Ids.{Identifies}
use diarsaba_go.Samsara.Read.{read_result_bytes}
use diarsaba_go.Samsara.Read.Response.{read_result_bytes-layout}
use diarsaba_go.Dispatch.{
  ErrorCode, frame_too_short, unknown_opcode, request_timeout, duplicate_request,
  node_process_failed, error_code, error_result,
}
use diarsaba_go.Dispatch.ErrorFrames.{error_result-layout, normalize_id-same, error_code-lt}
use diarsaba_go.Page.Op
use diarsaba_go.Page.{Pending, name_of, name_or_hex, opcode_name, short_hex, read_u32, is_known}
use diarsaba_go.Page.Texts.{line, try_decode_text, payload_text_lines}
use diarsaba_go.Page.Frames.{
  true_or_false, result_lines, samsara_lines, parse_error_frame, request_line, info_lines,
  word_or_incomplete, word_or_zero, inspect_response, inspect_incoming_frame,
}
use diarsaba_go.Page.Inspect.{
  read_u32-behind, drop-head, samsara_frame, inspect_incoming_frame-id_first, inspected,
}

-- Behind the index.
read_lines :
    (raw value : List ℕ) (status cell_index : ℕ)
    → length raw ≡ 16
    → cell_index < 2 ^ 32
    → result_lines (raw ++ (be32 status ++ (be32 cell_index ++ value))) Op.read
      ≡ line "cellIndex" (decimal cell_index) ∷ payload_text_lines "value" value
unfolding result_lines
read_lines raw value status cell_index h k =
    let twenty : length (raw ++ be32 status) ≡ 20 =
      unfold be32 in omega (arith, length-append raw (be32 status)) in
    let head : List ℕ = (raw ++ be32 status) ++ be32 cell_index in
    let word_here : raw ++ (be32 status ++ (be32 cell_index ++ value))
        ≡ (raw ++ be32 status) ++ (be32 cell_index ++ value) =
      sym (append_assoc raw (be32 status) (be32 cell_index ++ value)) in
    let behind : raw ++ (be32 status ++ (be32 cell_index ++ value)) ≡ head ++ value =
      word_here ∙ sym (append_assoc (raw ++ be32 status) (be32 cell_index) value) in
    let long : length head ≡ 24 =
      unfold be32 in omega (arith, length-append (raw ++ be32 status) (be32 cell_index), twenty) in
    rw
      (
        ap (λ f. word_or_incomplete (read_u32 f 20)) word_here
            ∙ ap word_or_incomplete
                (read_u32-behind (raw ++ be32 status) value cell_index twenty k),
        ap (drop 24) behind ∙ drop-length_append 24 head value long,
      )
      (unfold word_or_incomplete in refl)

read_name : opcode_name Op.read ≡ literal "READ"
unfolding opcode_name name_or_hex name_of
read_name = refl

-- The response that `readResultBytes` builds with a status of 0 or 1 is logged as the READ that
-- waits for it: with its id, its status, its cell index modulo 2 ^ 32 and its value, and the request
-- waits no longer. The id consists of bytes, the fourth of which is no opcode, each argument is one
-- that `toUint8Array` accepts, and the id one that `normalizeId` accepts.
pub inspect_incoming_frame-read_result_bytes :
    {id value : Value} {raw value' : List ℕ} {e e₁ : Entropy} (status cell_index : ℤ)
    (pending : Pending)
    → Identifies id e raw e₁
    → Converts value value'
    → All IsByte raw
    → is_known (some (get_or raw 3 0)) ≡ false
    → lookup (short_hex raw) pending ≡ some Op.read
    → to_uint32 status ≤ 1
    → (read_result_bytes id status cell_index value e >>= λ (frame, _).
        ok (inspect_incoming_frame frame pending))
      ≡ ok (
        record {
          title = literal "READ";
          lines =
              line "opcode" (literal "READ")
              ∷ line "id" (short_hex raw)
              ∷ line "status" (decimal (to_uint32 status))
              ∷ line "ok" (true_or_false (to_uint32 status == 1))
              ∷ line "cellIndex" (decimal (to_uint32 cell_index))
              ∷ payload_text_lines "value" value';
        },
        delete (short_hex raw) pending,
      )
inspect_incoming_frame-read_result_bytes {raw = raw} {value' = value'} status cell_index pending hi
      hv bytes unknown waits low =
    rw
      (
        read_result_bytes-layout status cell_index hi hv,
        inspected raw (be32 (to_uint32 cell_index) ++ value') (to_uint32 status) Op.read pending
            bytes hi.sixteen unknown waits low refl,
        read_name,
        read_lines raw value' (to_uint32 status) (to_uint32 cell_index) hi.sixteen
            (to_uint32-lt cell_index),
      )
      refl

error_status : (code : ErrorCode) → (error_code code == 0 || error_code code == 1) ≡ false
error_status frame_too_short = refl
error_status unknown_opcode = refl
error_status request_timeout = refl
error_status duplicate_request = refl
error_status node_process_failed = refl

module _ (id info : List ℕ) (code : ErrorCode) (sixteen : length id ≡ 16) where
  abbrev error_frame : List ℕ
  error_frame = id ++ (be32 (error_code code) ++ info)

  parse_error_frame-error :
      (hint : Option ℕ)
      → parse_error_frame error_frame hint
        ≡ literal "type=error_envelope"
          ∷ line "id" (short_hex id)
          ∷ (request_line hint
              ++ (line "error_id" (decimal (error_code code))
                  ∷ info_lines (try_decode_text info) info))
  unfolding parse_error_frame
  parse_error_frame-error hint =
      let long : ltb (length (id ++ (be32 (error_code code) ++ info))) 20 ≡ false =
        unfold be32 in ground (arith, length-append id (be32 (error_code code) ++ info)) in
      rw
        (
          long,
          take-length_append 16 id (be32 (error_code code) ++ info) sixteen,
          drop-head id info (error_code code) sixteen,
          read_u32-behind id info (error_code code) sixteen (error_code-lt code),
        )
        (unfold word_or_zero in refl)

  -- Whichever protocol the request was for.
  inspect_response-error :
      (opcode : ℕ)
      → (inspect_response error_frame (some opcode)).lines
        ≡ parse_error_frame error_frame (some opcode)
  unfolding inspect_response
  inspect_response-error opcode =
      elim (Bool-cases (leb Op.create_db opcode && leb opcode Op.cruzar)) [
        | inl e ↦
            rw (e, samsara_frame id info opcode (error_code code) sixteen (error_code-lt code))
              (unfold samsara_lines in rw (error_status code) refl)
        | inr e ↦ rw e refl
      ]

-- The error frame that errors.go builds for a request that waits is logged as an error, whichever
-- protocol the request was for: with the request's id and opcode, the code and the text, and the
-- request waits no longer. The id consists of sixteen bytes, the fourth of which is no opcode.
pub inspect_incoming_frame-error_result :
    (id info : List ℕ) (code : ErrorCode) (opcode : ℕ) (pending : Pending)
    → All IsByte id
    → length id ≡ 16
    → is_known (some (get_or id 3 0)) ≡ false
    → lookup (short_hex id) pending ≡ some opcode
    → let (inspected, pending') = inspect_incoming_frame (error_result id code info) pending in
      (inspected.lines
        ≡ literal "type=error_envelope"
          ∷ line "id" (short_hex id)
          ∷ line "request" (opcode_name opcode)
          ∷ line "error_id" (decimal (error_code code))
          ∷ info_lines (try_decode_text info) info)
      × (pending' ≡ delete (short_hex id) pending)
inspect_incoming_frame-error_result id info code opcode pending bytes sixteen unknown waits =
    let four : 4 ≤ length (be32 (error_code code) ++ info) = unfold be32 in omega arith in
    let frame : error_result id code info ≡ id ++ (be32 (error_code code) ++ info) =
      error_result-layout id code info
      ∙ ap (λ raw. raw ++ (be32 (error_code code) ++ info)) (normalize_id-same id sixteen) in
    rw
      (
        frame,
        inspect_incoming_frame-id_first id bytes sixteen unknown (be32 (error_code code) ++ info)
            four opcode pending waits,
      )
      (
        inspect_response-error id info code sixteen opcode
            ∙ parse_error_frame-error id info code sixteen (some opcode)
            ∙ (unfold request_line in refl),
        refl,
      )
