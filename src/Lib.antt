-- ===== src/Lib.antt =====
-- moqsub, a subscriber of MoQ Transport (draft 18): the wire formats of internal/moqt/draft18, the
-- session of internal/app that reads a broadcast with them, and what stands around it: the connection,
-- the output, the rich log and the command line.
--
-- A session has one connection. It sends SETUP on its control stream and waits for the peer's; then it
-- subscribes to the catalog, to the init track and to the media track that the catalog names, one after
-- the other, each on a request stream of its own (`bootstrapFromCatalog`). The peer's control stream
-- carries SETUP and other control messages (`handleControlStream`); on a request stream SUBSCRIBE_OK or
-- REQUEST_ERROR comes back (`readRequestStream`); each subgroup of objects comes on a unidirectional
-- stream (`handleSubgroupStream`), which the registry of subscriptions maps to a subscription, and
-- whose payloads go to the output or, for a catalog and an init track, to the channel of the first object.
--
-- Files:
--   Common (Tests, Lists, Result, Bits)  Boolean tests, lists, Go's errors and results, bits
--   Reader       io.Reader, io.ReadFull and io.ReadAll as the code uses them
--   Varint       internal/moqt/draft18/varint.go: AppendVarint, ParseVarint, ReadVarint
--   Frame        codec.go: WriteFrame, ReadFrame, ReadFrameBody
--   KeyValue     codec.go: encodeKeyValuePairs, decodeKeyValuePairs, EncodeSetup, DecodeSetup
--   Message      codec.go: EncodeSubscribe, DecodeSubscribeOK, DecodeRequestError, the namespaces
--   Subgroup     stream.go: ParseSubgroupHeader, SubgroupObjectReader.Next
--   ErrorCodes   errors.go: RequestErrorCodeName
--   Catalog      internal/app/catalog.go: parseCatalog, initTrackName, resolveMediaTrack
--   Namespace    internal/app: splitNamespace, trackNamespace
--   RichLog      internal/richlog/richlog.go: SetMeta, Add, AddObject; RichLog/Page html.go: WriteHTML
--                and the functions that its template calls
--   Registry     internal/app/subscriptions.go: the registry and newTrackSubscription
--   Runner       internal/app/run.go: the state and the delivery of an object; Runner/Subgroups
--                handleSubgroupStream, Runner/Requests readRequestStream, Runner/Control the control
--                stream, handleUniStream and the error loop of Run
--   Media        internal/media/output.go: NewSink, Close
--   Client       internal/quicclient/client.go: Dial
--   Session      internal/app: a session from its start. Session/Start New and Run up to SETUP,
--                Session/Setup sendClientSetup, Session/Subscribe sendSubscribeMessage, Session/Waits
--                waitSubscribeOK and waitFirstObject, Session/Machine bootstrapFromCatalog and Run
--   CommandLine  cmd/moqsub/main.go: parseFlags, main
--   Tests        runs on concrete inputs, and the theorems at concrete inputs
-- The other files below a component hold its theorems.
--
-- Conventions. A byte is a number below 256, and a uint64 one below 2^64: every sum that can leave this
-- range has its `% 2 ^ 64`. Strings are lists of bytes. An error is a value that keeps the wraps of %w,
-- and a format with its arguments, not the formatted text. A result is a value, an error or a panic; a
-- fourth, `stuck`, is that of a call that never returns, as the opening of a stream may be, or of a loop of
-- the model that runs out of fuel. Loops over a stream run on
-- fuel, the number of its bytes or one more, and each run takes a byte at least.
--
-- A stream is the list of the bytes that arrive and the error behind them, so that a handler is a
-- function of them and of the state. Handlers of different streams interleave: Runner/Steps and
-- Session/Reach have the body of each loop as a step, and any order of steps. A pointer to a
-- subscription is its place in a list; a channel of capacity 1 is what it holds. The main goroutine is a
-- state machine (Session/Machine): a phase is the wait at which it stands, the code between two waits is
-- one step, and which case a `select` takes is an argument of the step. The bootstrap has six waits, and
-- Session/Advance runs it on six. A step that panics, or calls what never returns, ends in a phase of its own
-- (`stopped`).
--
-- Parameters: the output (`write_to`: the error of a write and the output behind it), the clock
-- (`elapsed`), the JSON decoder (`unmarshal`) and json.Indent (`indent`), the streams that the
-- connection opens (`Streams`; a call or a write on a stream may never return), the parser of URLs and the handshake (`Network`), commands (`Process`).
--
-- Not modelled: quic-go, the text of the HTML template, the flag package, logging (debuglog, the
-- summary at the end, printCatalog) and the loops that accept streams. The slices and indices of the
-- encoders and of decodeVarintBytes are total functions, where Go would panic on a range that no call
-- of the code has; a write to the output always returns. Time stamps, explanations and references to
-- the draft are left out of the events of the rich log. The channel of errors is read in the order of
-- its values, and its capacity is left out.
pub mod Common
pub mod Reader
pub mod Varint
pub mod Frame
pub mod KeyValue
pub mod Message
pub mod Subgroup
pub mod Catalog
pub mod RichLog
pub mod Registry
pub mod ErrorCodes
pub mod Namespace
pub mod Runner
pub mod Media
pub mod Client
pub mod Session
pub mod CommandLine
pub mod Tests
