-- ===== src/Lib.antt =====
-- The binary codecs of diarsaba-go's cards, and the way of their frames through the program.
--
-- The program is a node that serves a web page and carries binary frames between it and two
-- protocols: Samsara, a store of cells, and Synap, a peer-to-peer network. The page's
-- JavaScript, under cards/js, builds every request frame, parses every response, and has the
-- opposite direction of both as well. The Go program looks at a frame's opcode, hands it to one
-- of the two protocols, and for Synap keeps a map of the requests that wait for a response,
-- which goes to the HTTP request or the WebSocket session that asked.
--
-- The page, cards/index.html, has a script of its own, which imports none of these files: 22
-- cards that send requests, and a log that reads the frames that come back.
--
-- A frame starts with four bytes that hold an opcode in the last one, then sixteen bytes of id;
-- a Samsara response starts with the id and has no opcode. All numbers are big-endian words.
--
-- Files and code:
--  Prelude, Prelude/Lists, Prelude/Maps: lists, truth values and association lists over the
--    native numbers.
--  Js: what the code uses of JavaScript. Result is a call that returns or throws, Number has the
--    conversions to unsigned words, Bytes has Uint8Array and DataView, Text has TextEncoder and
--    TextDecoder with the whole of UTF-8, Strings has split, join, indexOf and filter, its
--    children numerals and JSON.stringify of a string, and Entropy has crypto.getRandomValues.
--  Common: cards/js/common.js. Value has toUint8Array (`to_uint8_array`), Convert has words,
--    text and ensureMinLength, Concat has concatBytes and buildOpcodeMessage, Ids has
--    normalizeId and buildResultMessage, Cursor has makeCursor, Cell and Genome have the
--    functions of these names.
--  Samsara: one file for each of cards/js/create-db.js, delete-db.js, write.js, read.js,
--    read-free.js, delete.js, read-cell.js, diferir.js and cruzar.js. Below each, Layout says
--    what the bytes of a request are, field by field, without the code's cursor; Request
--    compares the request's parser and builder with it; Response does the same for the result.
--  Synap: cards/js/synap2p. Opcodes, Frames and Messages are common.js; the other files are the
--    operations and the events, named for theirs. UseTopic is use.js, Publish is pub.js,
--    DirectMessage is direct-msg.js, Events are the three event files.
--  Dispatch: dispatch.go and errors.go. The bounds of the opcodes, constants of the protocol
--    packages, are a record Ranges that the functions take.
--  Bridge: synap_bridge.go. A method is a function from a state, the two maps, to the state
--    after it. The lock is held by each access to the maps, and not while the node processes a
--    frame or a session is written to. `submit` is DispatchToSession, and Request up to where it
--    waits, with nothing in between; that its two accesses are steps of their own is modelled as
--    well, by register_pending and remove_pending. `time_out` is Request's end where the timer
--    fires. The node's Process is an argument, a function of the frame. A delivery is a value: a
--    frame on a request's channel or to a session. Invariant has the steps and what can be reached
--    by them, Answers who gets a response, Timeout a late timer. Request is the whole of that
--    method, which waits while a list of turns goes by, and Abstract the bridge as a map and a set,
--    which says nothing of an order.
--  Page: the script of cards/index.html. Page itself has the opcodes, the reading of words and
--    the map of pending requests; Texts has the decoding of texts and the lines made of them,
--    Frames what `inspectIncomingFrame` and its helpers make of a frame, Cards the frames of the
--    cards. Below them, Keys is about the pending map, Answers, SynapAnswers and Mistaken about
--    the log, Cards about the frames sent.
--  Go: what server.go and config.go use of Go's strings, net and net/url.
--  Http: requests and responses, and the functions of server.go on hosts, paths and content types.
--    normalizeHostName of config.go is there as well.
--  Server: the handlers of server.go. A handler is a function of a request
--    and the state, which is Samsara's store and the bridge; the packages samsara-go and
--    synap2p-go and http.DetectContentType are the record Packages. Where an HTTP request waits
--    for the node, `handle_server` returns `waits`, and the bridge's channel gives the response.
--    Paths, its child Names and PublicRead are about the public host, Api about the other, Sessions about
--    WebSocket connections, EndToEnd about a card's frame on its way through the program and
--    back.
--  Config: config.go. `resolve` is Resolve, and in Overrides `apply_env_overrides` takes the
--    variables of the environment from an association list; strconv.Atoi, time.ParseDuration and
--    filepath.Clean are the record Tools.
--  Tests: concrete runs.
--
-- Correspondence: a function keeps its name in snake case, and a module its file's. A function
-- that may throw returns a Result, with the error's class and message. An argument that the code
-- passes to toUint8Array is a Value, with one constructor for each kind of value that it tells
-- apart. A Uint8Array that a caller hands in is a View, a window on a buffer that may be larger,
-- since DataView reads the buffer and slice reads the window; an array that the code makes
-- itself is the list of its bytes. Random bytes come from an Entropy, which is passed along. The
-- lengths and indices are unbounded natural numbers; numeric arguments are integers, reduced
-- modulo 2 ^ 32 where the code applies `>>> 0`. The only fuel is that of the numerals, with one
-- unit for each digit that a word of 32 bits can have; every other loop runs over a list.
--
-- Hypotheses: `Converts value xs` says that toUint8Array turns an argument into the bytes xs,
-- and `Identifies id e raw e'` that normalizeId turns an id into the sixteen bytes raw, drawn
-- from the entropy e where the id is missing. `InBounds` is what JavaScript guarantees of every
-- typed array: its window lies in its buffer.
--
-- Not modelled: the re-exports (cards/js/index.js, cards/js/synap2p/index.js), which compute
-- nothing; the parts of the page's script that call the DOM, fetch and WebSocket (addEntry,
-- sendFrame, connectSocket, buildCard); of server.go the start, the shutdown, the logging, the
-- mux of client mode and the filling in of the page; main.go; of config.go the reading and
-- parsing of the file, and the settings that it passes on; Number() of a text; Go's Unicode
-- tables, which are an argument; the packages samsara-go and synap2p-go; what other
-- goroutines do while the node processes the frame of the request that Request follows, or
-- between the messages of the connection that handleClientWebSocket serves.
pub mod Prelude
pub mod Js
pub mod Common
pub mod Samsara
pub mod Synap
pub mod Dispatch
pub mod Go
pub mod Bridge
pub mod Http
pub mod Server
pub mod Config
pub mod Page
pub mod Tests
