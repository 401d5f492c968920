-- ===== src/Tests/Serving.antt =====
-- Requests and connections of server.go.
use diarsaba_go.Prelude.{
  ℕ, suc, ◌≡◌, ◌↔◌, ◌⊎◌, refl, List, [], ◌∷◌, ◌++◌, replicate, true, false, none, some, All, lookup,
  same_key, arith,
}
use diarsaba_go.Js.Number.{be32}
use diarsaba_go.Js.Strings.{literal, index_of}
use diarsaba_go.Dispatch.{is_synap_event}
use diarsaba_go.Bridge.{new_synap_bridge, to_session, has_session, is_of, route_frame}
use diarsaba_go.Bridge.Invariant.{IsConsistent}
use diarsaba_go.Go.{
  Unicode, is_empty, same_text, is_ascii, lower_byte, lowered, to_lower, is_space, trim_end,
  last_not_space, trim_tail, trim_space, trim_suffix, split_host_port, last_index_of,
}
use diarsaba_go.Go.Escapes.{escaped}
use diarsaba_go.Page.{opcode_name, remember_pending, consume_pending}
use diarsaba_go.Page.Frames.{inspect_incoming_frame}
use diarsaba_go.Page.Cards.{generate_cid, build_synap_frame, synap_opcode}
use diarsaba_go.Http.{get, Request, split_public_path, normalize_host_name, strip_port, host_or}
use diarsaba_go.Server.{
  Packages, State, Settings, binary, not_binary, replies, handle_public_read, handle_server,
  dispatch_web_socket, handle_client_web_socket,
}
use diarsaba_go.Server.Paths.{split_public_path-escaped, split_public_path-percent}
use diarsaba_go.Server.Paths.Names.{Names}
use diarsaba_go.Server.PublicRead.{
  answer_of, OnlyRead, Shows, handle_public_read-status, handle_server-OnlyRead,
}
use diarsaba_go.Server.Api.{IsSynapPost, handle_server-bridge}
use diarsaba_go.Server.Sessions.{handle_client_web_socket-IsConsistent}
use diarsaba_go.Server.EndToEnd.{dispatch_web_socket-inspect_incoming_frame}
use diarsaba_go.Tests.Dispatching.{ranges}
use diarsaba_go.Tests.Fixtures.{id_bytes, key_bytes}

abbrev pub ascii_only : Unicode
ascii_only = record { to_lower = λ s. s; trim = λ s. s; trim_right = λ s. s }

-- A Samsara that counts its requests and answers each with an empty value, and a node that takes
-- every frame.
abbrev packages : Packages ℕ
packages = record {
  ranges = ranges;
  process_request = λ frame n. (some (replicate 16 0 ++ (0 ∷ 0 ∷ 0 ∷ 1 ∷ [])), suc n);
  read_free_req_bytes = λ db_name key. db_name ++ key;
  database_not_found = 1001;
  membrane_not_found = 1002;
  process = λ frame. none;
  detect_content_type = λ value. literal "text/plain; charset=utf-8";
  unicode = ascii_only;
}

abbrev settings : Settings
settings = record {
  public_host = literal "public.example";
  api_host = literal "api.example";
  index = [];
}

abbrev start : State ℕ
start = record { store = 0; bridge = new_synap_bridge }

abbrev public_request : Request
public_request = record {
  method = get;
  host = literal "Public.Example.:8080";
  path = literal "/db/key";
  body = none;
}

not_blank : is_empty (trim_space ascii_only (literal "a b")) ≡ false
unfolding trim_space trim_tail last_not_space is_space trim_end
not_blank = refl

split_public_path-escaped_example :
    split_public_path ascii_only
      (b'/' ∷ (escaped (literal "a b") ++ (b'/' ∷ escaped (literal "50%"))))
    ≡ some (literal "a b", literal "50%")
split_public_path-escaped_example =
    split_public_path-escaped ascii_only (literal "a b") (literal "50%") (omega arith) (omega arith)
      not_blank refl

split_public_path-percent_example : split_public_path ascii_only (literal "/db/50%") ≡ none
split_public_path-percent_example =
    split_public_path-percent ascii_only (literal "db") (literal "50")
      ((λ e. absurd (omega arith)), ((λ e. absurd (omega arith)), tt))

handle_public_read-status_example :
    let shown = (handle_public_read packages public_request start).0 in
    (shown.status ≡ 200) ↔ (
      (get ≡ get)
      × ((db_name : List ℕ) × (key : List ℕ) × Names ascii_only (literal "/db/key") db_name key
          × Shows packages (answer_of packages db_name key 0) shown.body))
handle_public_read-status_example = handle_public_read-status packages public_request start

public_host_asked :
    same_text (normalize_host_name ascii_only (strip_port public_request.host)) settings.public_host
    ≡ true
unfolding normalize_host_name strip_port host_or same_key to_lower is_ascii lowered lower_byte
    trim_suffix trim_space trim_tail last_not_space is_space trim_end split_host_port last_index_of
    index_of
public_host_asked = refl

handle_server-OnlyRead_example :
    let after = (handle_server packages settings 7 public_request start).1 in
    OnlyRead packages public_request 0 after.store × (after.bridge ≡ new_synap_bridge)
handle_server-OnlyRead_example =
    handle_server-OnlyRead packages settings 7 public_request start public_host_asked

handle_server-bridge_example :
    ((handle_server packages settings 7 public_request start).1.bridge ≡ new_synap_bridge)
    ⊎ ((same_text
            (normalize_host_name ascii_only (strip_port public_request.host))
            (literal "api.example")
          ≡ true)
        × IsSynapPost packages public_request)
handle_server-bridge_example = handle_server-bridge packages settings 7 public_request start

-- A message that is dispatched to Synap, one that is too short, and one that is text.
handle_client_web_socket-IsConsistent_example :
    let after =
      (handle_client_web_socket packages 5
        (binary (0 ∷ 0 ∷ 0 ∷ 3 ∷ id_bytes) ∷ binary [] ∷ not_binary ∷ [])
        start).1.bridge in
    IsConsistent after
    × (has_session 5 after.sessions ≡ false)
    × All (λ e. is_of 5 e.1 ≡ false) after.pending
handle_client_web_socket-IsConsistent_example =
    handle_client_web_socket-IsConsistent packages 5
      (binary (0 ∷ 0 ∷ 0 ∷ 3 ∷ id_bytes) ∷ binary [] ∷ not_binary ∷ []) start
      (record { distinct = tt; connected = tt })

abbrev zeros : List ℕ
zeros = replicate 16 0

dispatch_web_socket-inspect_incoming_frame_example :
    let (reply, st') =
      dispatch_web_socket packages 5 (build_synap_frame (generate_cid key_bytes) id_bytes) start in
    let response = be32 13 ++ (id_bytes ++ (1 ∷ [])) in
    let waiting = remember_pending id_bytes 13 [] in
    let (inspected, pending') = inspect_incoming_frame response waiting in
    (reply ≡ replies none)
    × ((route_frame ranges response st'.bridge).0 ≡ to_session 5 response ∷ [])
    × (inspected.title ≡ opcode_name 13)
    × ((consume_pending id_bytes waiting).0 ≡ some 13)
    × ((consume_pending id_bytes pending').0 ≡ none)
unfolding synap_opcode
dispatch_web_socket-inspect_incoming_frame_example =
    dispatch_web_socket-inspect_incoming_frame packages 5 (generate_cid key_bytes) id_bytes (1 ∷ [])
      start [] refl refl refl (unfold is_synap_event in refl) (unfold lookup in refl) refl
