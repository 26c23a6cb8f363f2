-- ===== src/Runner/Control.antt =====
-- internal/app/run.go: `dispatchControlMessage`, `handleControlStream` and `handleUniStream`, and the
-- errors that `Run` gets of them.
use moqsub.Common.{
  ℕ, zero, suc, List, [], ◌∷◌, map, Bool, true, false, Option, none, some, ◌==◌, if◌then◌else◌,
  length,
}
use moqsub.Common.Result.{
  Error, eof, unexpected_eof, canceled, stream_error, other, message, wrapped, is_eof, num, text,
  Result, ok, err, panic, stuck,
}
use moqsub.Reader.{Reader}
use moqsub.Varint.{read_varint}
use moqsub.Frame.{read_frame, read_frame_body}
use moqsub.KeyValue.{SetupMessage, SetupOption, decode_setup}
use moqsub.Subgroup.{is_subgroup_stream_type}
use moqsub.RichLog.{Text, Event, dir_recv}
use moqsub.Runner.{Runner, Outcome, add_uint64, fmt, field, and_then, rich_add}
use moqsub.Runner.Subgroups.{handle_subgroup_stream}

abbrev pub stream_type_fetch_header : ℕ
stream_type_fetch_header = 0x05

abbrev pub stream_type_setup : ℕ
stream_type_setup = 0x2F00

abbrev pub msg_setup : ℕ
msg_setup = 0x2F00

abbrev pub msg_go_away : ℕ
msg_go_away = 0x10

unfoldable pub option_field : SetupOption → Text × Text
option_field opt = (fmt "option 0x%02x" (num opt.kind ∷ []), fmt "%q" (text opt.raw ∷ []))

unfoldable pub setup_event : SetupMessage → Event
setup_event setup = record {
  dir = dir_recv;
  channel = fmt "control stream" [];
  name = "SETUP";
  summary =
      fmt "relay setup with %d option(s) — session established" (num (length setup.options) ∷ []);
  fields =
      field "num_options" "%d" (num (length setup.options) ∷ []) ∷ map option_field setup.options;
  body = [];
  objects = none;
}

unfoldable pub goaway_event : (payload : List ℕ) → Event
goaway_event payload = record {
  dir = dir_recv;
  channel = fmt "control stream" [];
  name = "GOAWAY";
  summary = fmt "%d payload bytes" (num (length payload) ∷ []);
  fields = [];
  body = [];
  objects = none;
}

module _ {W : Type 0} where
  unfoldable pub on_setup : Result SetupMessage → Runner W → Outcome W
  on_setup (ok setup) r =
      let r1 = rich_add (setup_event setup) r in (record r1 { peer_setup_seen = true }, ok tt)
  on_setup (err e) r = (r, err (wrapped "decode setup: %w" [] e))
  on_setup panic r = (r, panic)
  on_setup stuck r = (r, stuck)

  unfoldable pub dispatch_control_message :
      (msg_type : ℕ) → (payload : List ℕ) → Runner W → Outcome W
  dispatch_control_message msg_type payload r =
      if msg_type == msg_setup
      then on_setup (decode_setup payload) r
      else if msg_type == msg_go_away
      then (rich_add (goaway_event payload) r, ok tt)
      else (r, ok tt)

  unfoldable pub control_loop : (fuel : ℕ) → Reader → Runner W → Outcome W
  control_loop zero stream r = (r, stuck)
  control_loop (suc fuel) stream r = elim (read_frame stream) [
    | err e ↦ (r, if is_eof e then ok tt else err (wrapped "control stream read: %w" [] e))
    | panic ↦ (r, panic)
    | stuck ↦ (r, stuck)
    | ok (msg_type, payload, rest) ↦
        and_then (dispatch_control_message msg_type payload r) (λ r1. control_loop fuel rest r1)
  ]

  -- Each message takes a byte at least.
  unfoldable pub handle_control_stream : Reader → (first_msg_type : ℕ) → Runner W → Outcome W
  handle_control_stream stream first_msg_type r = elim (read_frame_body stream) [
    | err e ↦ (r, err (wrapped "read first control message body: %w" [] e))
    | panic ↦ (r, panic)
    | stuck ↦ (r, stuck)
    | ok (first_body, rest) ↦
        and_then (dispatch_control_message first_msg_type first_body r)
          (λ r1. control_loop (suc (length rest.bytes)) rest r1)
  ]

module _ {W : Type 0} (write_to : List ℕ → W → Option Error × W) (elapsed : ℕ → ℕ) where
  unfoldable pub handle_typed_stream : (stream_id stream_type : ℕ) → Reader → Runner W → Outcome W
  handle_typed_stream stream_id stream_type stream r =
      if stream_type == stream_type_setup
      then handle_control_stream stream stream_type r
      else if is_subgroup_stream_type stream_type
      then handle_subgroup_stream write_to elapsed stream_id stream_type stream r
      else if stream_type == stream_type_fetch_header
      then (r, ok tt)
      else (r, ok tt)

  unfoldable pub handle_uni_stream : (stream_id : ℕ) → Reader → Runner W → Outcome W
  handle_uni_stream stream_id stream r = elim (read_varint stream) [
    | err e ↦ (r, err (wrapped "read uni stream type: %w" [] e))
    | panic ↦ (r, panic)
    | stuck ↦ (r, stuck)
    | ok (stream_type, rest) ↦ handle_typed_stream stream_id stream_type rest r
  ]

-- What the log gets of a stream that the peer opens in both directions: the type and the size of its first
-- message, zeros where the stream is empty, and nothing of one that cannot be read.
unfoldable pub peer_message : Reader → Option (ℕ × ℕ)
peer_message stream = elim (read_frame stream) [
  | ok (msg_type, payload, rest) ↦ some (msg_type, length payload)
  | err e ↦ (if is_eof e then some (0, 0) else none)
  | panic ↦ none
  | stuck ↦ none
]

-- `errors.Is(err, context.Canceled)`
unfoldable pub is_canceled : Error → Bool
is_canceled eof = false
is_canceled unexpected_eof = false
is_canceled canceled = true
is_canceled (stream_error c) = false
is_canceled (other c) = false
is_canceled (message f a) = false
is_canceled (wrapped f a e) = is_canceled e

-- `errors.As(err, &streamErr)` for a `*quic.StreamError`
unfoldable pub is_stream_error : Error → Bool
is_stream_error eof = false
is_stream_error unexpected_eof = false
is_stream_error canceled = false
is_stream_error (stream_error c) = true
is_stream_error (other c) = false
is_stream_error (message f a) = false
is_stream_error (wrapped f a e) = is_stream_error e

-- The errors that a stream's goroutine sends to `Run`.
unfoldable pub reported : Result (Unit {0}) → Option Error
reported (ok x) = none
reported (err e) = if is_eof e then none else some e
reported panic = none
reported stuck = none

-- The loop of `Run` over the errors it receives, up to the end of the context, which is the end of the
-- list: `none` where it returns nil.
unfoldable pub run_loop : {W : Type 0} → List Error → Runner W → Option Error × Runner W
run_loop [] r = (none, r)
run_loop (e ∷ es) r =
    let st = record (r.stats) { stream_resets = add_uint64 r.stats.stream_resets 1 } in
    let rest = run_loop es (record r { stats = st }) in
    if is_canceled e then (none, r) else if is_stream_error e then rest else (some e, r)
