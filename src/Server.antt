-- ===== src/Server.antt =====
-- server.go: the routes of a request, the public reading of a key, and the way of a frame to the two
-- protocols and back.
pub mod Paths
pub mod PublicRead
pub mod Api
pub mod Sessions
pub mod EndToEnd
use diarsaba_go.Prelude.{
  ℕ, ◌+◌, String, List, [], ◌∷◌, ◌++◌, length, take, drop, get_or, Bool, true, false, Option, none,
  some, ltb, ◌==◌, ◌&&◌, ◌||◌, if◌then◌else◌,
}
use diarsaba_go.Http.{
  Method, Request, Response, http_error, not_found, not_allowed, normalize_host_name, strip_port,
  split_public_path, detect_browser_content_type, get, post, other,
}
use diarsaba_go.Js.Number.{word32}
use diarsaba_go.Js.Strings.{literal}
use diarsaba_go.Go.{
  Unicode, is_empty, same_text, to_lower, trim_space, trim_prefix, trim_suffix, cut, contains,
  split_host_port, path_unescape,
}
use diarsaba_go.Dispatch.{
  Ranges, DispatchTarget, unknown, synap, samsara, Classified, classify_frame,
  request_id_from_frame, error_result, unknown_opcode, unknown_opcode_info,
}
use diarsaba_go.Bridge.{
  SynapBridge, PendingRequest, http_response, session, Process, submit, add_session, remove_session,
}

-- The packages that the server calls. Samsara has a store of the type `S`, and returns a frame or
-- nil; its parser builds READ_FREE requests; the node takes a Synap frame or refuses it.
pub record Packages (S : Type 0) : Type 1 where
  pub ranges : Ranges
  pub process_request : List ℕ → S → Option (List ℕ) × S
  pub read_free_req_bytes : List ℕ → List ℕ → List ℕ
  pub database_not_found : ℕ
  pub membrane_not_found : ℕ
  pub process : Process
  pub detect_content_type : List ℕ → List ℕ
  pub unicode : Unicode

-- The application's state, its settings and the page that `serveIndex` fills in.
pub record State (S : Type 0) : Type 0 where
  pub store : S
  pub bridge : SynapBridge

pub record Settings : Type 0 where
  pub public_host : List ℕ
  pub api_host : List ℕ
  pub index : List ℕ

-- `binary.BigEndian.Uint32(response[16:20])`
unfoldable pub code_of : List ℕ → ℕ
code_of response =
    word32 (get_or response 16 0) (get_or response 17 0) (get_or response 18 0)
      (get_or response 19 0)

abbrev pub bytes_of : Option (List ℕ) → List ℕ
bytes_of none = []
bytes_of (some bytes) = bytes

-- A frame for the answer, nil, or the wait for a response of the node on a channel.
pub data Reply : Type 0 where
  replies : Option (List ℕ) → Reply
  awaits : Reply

-- `Request` returns what `submit` refuses, and otherwise waits.
unfoldable pub refused_or_awaits : Option (List ℕ) → Reply
refused_or_awaits none = awaits
refused_or_awaits (some frame) = replies (some frame)

-- What the handler writes, now or when the node's response has come.
pub data Handled : Type 0 where
  responds : Response → Handled
  waits : Handled

abbrev pub binary_response : List ℕ → Response
binary_response frame = record {
  status = 200;
  allow = [];
  content_type = literal "application/octet-stream";
  body = frame;
}

unfoldable pub binary_handled : Reply → Handled
binary_handled (replies frame) = responds (binary_response (bytes_of frame))
binary_handled awaits = waits

unfoldable pub serve_index : Settings → Response
serve_index settings = record {
  status = 200;
  allow = [];
  content_type = literal "text/html; charset=utf-8";
  body = settings.index;
}

unfoldable pub client_by : Method → Settings → Response
unfolding serve_index
client_by get settings = serve_index settings
client_by _ settings = not_allowed (get ∷ [])

unfoldable pub handle_client_http : Settings → Request → Response
unfolding client_by
handle_client_http settings r = client_by r.method settings

-- What a WebSocket connection sends before it fails: a message that is binary, or another.
pub data Message : Type 0 where
  binary : List ℕ → Message
  not_binary : Message

unfoldable pub written : Reply → List (List ℕ)
written (replies (some frame)) = frame ∷ []
written (replies none) = []
written awaits = []

module _ {S : Type 0} (p : Packages S) where
  -- What the code of a READ_FREE response becomes.
  unfoldable pub read_status : ℕ → ℕ
  read_status code =
      if code == p.database_not_found || code == p.membrane_not_found then 404 else 500

  unfoldable pub read_reply : List ℕ → Response
  read_reply response =
      if ltb (length response) 20
      then http_error (literal "invalid read_free response") 502
      else if code_of response == 1
      then record {
        status = 200;
        allow = [];
        content_type = detect_browser_content_type p.detect_content_type (drop 20 response);
        body = drop 20 response;
      }
      else http_error (drop 20 response) (read_status (code_of response))

  unfoldable pub public_read : Option (List ℕ × List ℕ) → S → Response × S
  public_read none store = (http_error (literal "expected /{db}/{key}") 400, store)
  public_read (some (db_name, key)) store =
      let (response, store') = p.process_request (p.read_free_req_bytes db_name key) store in
      (read_reply (bytes_of response), store')

  -- By the request's method.
  unfoldable pub read_by : Method → Request → State S → Response × State S
  read_by get r st =
      let (response, store') = public_read (split_public_path p.unicode r.path) st.store in
      (response, record st { store = store' })
  read_by _ r st = (not_allowed (get ∷ []), st)

  unfoldable pub handle_public_read : Request → State S → Response × State S
  handle_public_read r st = read_by r.method r st

  -- The two dispatching functions differ in who waits for the node's response.
  unfoldable pub to_target :
      (Option (List ℕ) → Reply)
      → PendingRequest
      → List ℕ
      → Option (List ℕ)
      → DispatchTarget
      → State S
      → Reply × State S
  to_target submitted waiter frame (some error_frame) target st = (replies (some error_frame), st)
  to_target submitted waiter frame none unknown st = (
    replies (some (error_result (request_id_from_frame frame) unknown_opcode unknown_opcode_info)),
    st,
  )
  to_target submitted waiter frame none samsara st =
      let (response, store') = p.process_request frame st.store in
      (replies response, record st { store = store' })
  to_target submitted waiter frame none synap st =
      let (refused, bridge') = submit p.process waiter frame st.bridge in
      (submitted refused, record st { bridge = bridge' })

  unfoldable pub dispatch_http : ℕ → List ℕ → State S → Reply × State S
  dispatch_http channel frame st =
      let c = classify_frame p.ranges frame in
      to_target refused_or_awaits (http_response channel) frame c.error_frame c.target st

  unfoldable pub dispatch_web_socket : ℕ → List ℕ → State S → Reply × State S
  dispatch_web_socket s frame st =
      let c = classify_frame p.ranges frame in
      to_target replies (session s) frame c.error_frame c.target st

  unfoldable pub handle_body : ℕ → Option (List ℕ) → State S → Handled × State S
  handle_body channel none st = (responds (http_error (literal "read body") 400), st)
  handle_body channel (some frame) st =
      let (reply, st') = dispatch_http channel frame st in (binary_handled reply, st')

  unfoldable pub handle_binary_http : ℕ → Request → State S → Handled × State S
  handle_binary_http channel r st = handle_body channel r.body st

  unfoldable pub api_by : Method → Settings → ℕ → Request → State S → Handled × State S
  api_by get settings channel r st =
      if same_text r.path (literal "/") || same_text r.path (literal "/index.html")
      then (responds (serve_index settings), st)
      else (responds not_found, st)
  api_by post settings channel r st =
      let binary = handle_binary_http channel r st in
      if same_text r.path (literal "/") then binary else (responds not_found, st)
  api_by other settings channel r st = (responds (not_allowed (get ∷ post ∷ [])), st)

  unfoldable pub handle_server_api : Settings → ℕ → Request → State S → Handled × State S
  handle_server_api settings channel r st = api_by r.method settings channel r st

  unfoldable pub handle_server : Settings → ℕ → Request → State S → Handled × State S
  handle_server settings channel r st =
      let host = normalize_host_name p.unicode (strip_port r.host) in
      let (read, after_read) = handle_public_read r st in
      let api = handle_server_api settings channel r st in
      if same_text host settings.public_host
      then (responds read, after_read)
      else if same_text host settings.api_host
      then api
      else (responds not_found, st)

  -- The loop of `handleClientWebSocket`, with what it writes.
  unfoldable pub read_messages : ℕ → List Message → State S → List (List ℕ) × State S
  read_messages s [] st = ([], st)
  read_messages s (not_binary ∷ rest) st = read_messages s rest st
  read_messages s (binary frame ∷ rest) st =
      let (reply, st') = dispatch_web_socket s frame st in
      let (frames, after) = read_messages s rest st' in (written reply ++ frames, after)

  -- A whole connection, with no other between its messages: the session joins, and leaves when reading
  -- fails.
  unfoldable pub handle_client_web_socket : ℕ → List Message → State S → List (List ℕ) × State S
  handle_client_web_socket s messages st =
      let (frames, after) =
        read_messages s messages (record st { bridge = add_session s st.bridge }) in
      (frames, record after { bridge = remove_session s after.bridge })
