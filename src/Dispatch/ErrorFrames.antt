-- ===== src/Dispatch/ErrorFrames.antt =====
-- The bytes of an error frame of errors.go, and what the cards read in them.
use diarsaba_go.Prelude.{
  ℕ, ◌+◌, ◌-◌, ◌^◌, ◌<◌, ◌≡◌, refl, ap, sym, ◌∙◌, List, [], ◌++◌, length, take, drop, replicate,
  append-nil, append_assoc, length-append, length-replicate, length-drop, length-take,
  replicate-add, drop-replicate, take-of_le, drop-of_le, take-length_append, drop-length_append,
  arith,
}
use diarsaba_go.Js.Result.{ok}
use diarsaba_go.Js.Number.{be32}
use diarsaba_go.Common.Value.{part, Converts-part}
use diarsaba_go.Samsara.ReadFree.{read_free_result}
use diarsaba_go.Samsara.ReadFree.Response.{read_free_result_accepts}
use diarsaba_go.Dispatch.{
  ErrorCode, frame_too_short, unknown_opcode, request_timeout, duplicate_request,
  node_process_failed, error_code, copied, copy_into, normalize_id, error_result,
}

pub length-copied : (window src : List ℕ) → length (copied window src) ≡ length window
unfolding copied
length-copied window src = omega (
  arith,
  length-append (take (length window) src) (drop (length src) window),
  length-take (length window) src,
  length-drop (length src) window,
)

pub copied-same : (window src : List ℕ) → length src ≡ length window → copied window src ≡ src
unfolding copied
copied-same window src h =
    rw (take-of_le (length window) src (omega arith), drop-of_le (length src) window (omega arith))
      (append-nil src)

-- A copy over a piece of the same length.
copy_into-append :
    (before old after src : List ℕ) {start end : ℕ}
    → length src ≡ length old
    → length before ≡ start
    → length before + length old ≡ end
    → copy_into (before ++ (old ++ after)) start end src ≡ before ++ (src ++ after)
unfolding copy_into
copy_into-append before old after src {start} {end} same h k =
    let behind : drop end (before ++ (old ++ after)) ≡ after =
      ap (drop end) (sym (append_assoc before old after))
      ∙ drop-length_append end (before ++ old) after (length-append before old ∙ k) in
    rw (
      behind,
      take-length_append start before (old ++ after) h,
      drop-length_append start before (old ++ after) h,
      take-length_append (end - start) old after (omega arith),
      copied-same old src same,
    )

pub length-normalize_id : (id : List ℕ) → length (normalize_id id) ≡ 16
unfolding normalize_id
length-normalize_id id = length-copied (replicate 16 0) id

-- `normalizeID` keeps sixteen bytes as they are.
pub normalize_id-same : (id : List ℕ) → length id ≡ 16 → normalize_id id ≡ id
unfolding normalize_id
normalize_id-same id h = copied-same (replicate 16 0) id h

info_copied :
    (raw word info : List ℕ)
    → length raw + length word ≡ 20
    → copy_into
        (raw ++ (word ++ replicate (length info) 0))
        20
        (length (raw ++ (word ++ replicate (length info) 0)))
        info
      ≡ raw ++ (word ++ info)
info_copied raw word info h =
    let blank : List ℕ = replicate (length info) 0 in
    let e : raw ++ (word ++ blank) ≡ (raw ++ word) ++ (blank ++ []) =
      sym (append_assoc raw word blank) ∙ ap (λ t. (raw ++ word) ++ t) (sym (append-nil blank)) in
    let k = length-append raw word ∙ h in
    ap (λ made. copy_into made 20 (length made) info) e
    ∙ copy_into-append (raw ++ word) blank [] info (sym (length-replicate (length info) 0)) k
        (omega (arith, length-append (raw ++ word) (blank ++ []), length-append blank [], k))
    ∙ append_assoc raw word (info ++ [])
    ∙ ap (λ t. raw ++ (word ++ t)) (append-nil info)

pub error_code-lt : (code : ErrorCode) → error_code code < 2 ^ 32
error_code-lt frame_too_short = omega arith
error_code-lt unknown_opcode = omega arith
error_code-lt request_timeout = omega arith
error_code-lt duplicate_request = omega arith
error_code-lt node_process_failed = omega arith

-- `errorResult` writes the id, cut or filled with zeros to sixteen bytes, then the code, then the
-- text, and nothing else.
pub error_result-layout :
    (id : List ℕ) (code : ErrorCode) (info : List ℕ)
    → error_result id code info ≡ normalize_id id ++ (be32 (error_code code) ++ info)
unfolding error_result be32
error_result-layout id code info =
    let raw = normalize_id id in
    let word = be32 (error_code code) in
    let n = length info in
    let no_info : List ℕ = replicate n 0 in
    let no_word : List ℕ = replicate 4 0 in
    let no_id : List ℕ = replicate 16 0 in
    let last_window : List ℕ → List ℕ = λ made. copy_into made 20 (length made) info in
    let with_id : copy_into (replicate (20 + n) 0) 0 16 raw ≡ raw ++ (no_word ++ no_info) =
      ap (λ made. copy_into made 0 16 raw) (replicate-add 20 n 0)
      ∙ copy_into-append [] no_id (no_word ++ no_info) raw (length-normalize_id id) refl refl in
    let with_code : copy_into (raw ++ (no_word ++ no_info)) 16 20 word ≡ raw ++ (word ++ no_info) =
      copy_into-append raw no_word no_info word {start = 16} {end = 20} refl
        (length-normalize_id id) (omega (arith, length-normalize_id id)) in
    ap (λ made. last_window (copy_into made 16 20 word)) with_id
    ∙ ap last_window with_code
    ∙ info_copied raw word info (omega (arith, length-normalize_id id))

-- The id cut to sixteen bytes, or filled up with zeros.
abbrev pub sixteen_of : List ℕ → List ℕ
sixteen_of id = take 16 id ++ replicate (16 - length id) 0

normalize_id-sixteen_of : (id : List ℕ) → normalize_id id ≡ sixteen_of id
unfolding normalize_id copied
normalize_id-sixteen_of id = ap (λ filling. take 16 id ++ filling) (drop-replicate (length id) 16 0)

-- `readFreeResult` reads an error frame of the program as the id, cut to sixteen bytes or filled up
-- with zeros, the code for a status, and the text for the value.
pub read_free_result-error_result :
    (id : List ℕ) (code : ErrorCode) (info : List ℕ)
    → read_free_result (part (error_result id code info))
      ≡ ok (record { id = sixteen_of id; status = error_code code; value = info })
read_free_result-error_result id code info =
    rw (error_result-layout id code info, ← normalize_id-sixteen_of id)
      (read_free_result_accepts (normalize_id id) info (error_code code) (length-normalize_id id)
        (error_code-lt code) (Converts-part _))
