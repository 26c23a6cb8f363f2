-- ===== src/Session/Setup.antt =====
-- internal/app/run.go: `sendClientSetup`.
use moqsub.Common.{ℕ, List, [], ◌∷◌, ◌++◌, none, some, not, ◌==◌, if◌then◌else◌, length, bytes_eq}
use moqsub.Common.Result.{text, num, literal, Result, ok, err, panic, stuck, wrap, ◌>>=◌}
use moqsub.Frame.{Writer, write_frame}
use moqsub.KeyValue.{SetupOption, encode_setup}
use moqsub.RichLog.{Event, dir_sent}
use moqsub.Runner.{Runner, Outcome, fmt, field, rich_add}
use moqsub.Runner.Control.{msg_setup}
use moqsub.Session.{Url, Streams}

abbrev pub setup_option_path : ℕ
setup_option_path = 0x01

abbrev pub setup_option_authority : ℕ
setup_option_authority = 0x05

abbrev pub setup_option_implementation : ℕ
setup_option_implementation = 0x07

-- "/"
abbrev pub root_path : List ℕ
root_path = 47 ∷ []

-- "moqsub-go/0.1.0"
abbrev pub implementation : List ℕ
implementation =
    109 ∷ 111 ∷ 113 ∷ 115 ∷ 117 ∷ 98 ∷ 45 ∷ 103 ∷ 111 ∷ 47 ∷ 48 ∷ 46 ∷ 49 ∷ 46 ∷ 48 ∷ []

-- The path with the query behind a '?', and "/" for an empty one.
unfoldable pub client_path : Url → List ℕ
client_path url =
    let path = if length url.escaped_path == 0 then root_path else url.escaped_path in
    if not (length url.raw_query == 0) then path ++ 63 ∷ url.raw_query else path

unfoldable pub setup_options : (path authority : List ℕ) → List SetupOption
setup_options path authority =
    let options : List SetupOption =
      record { kind = setup_option_authority; raw = authority }
      ∷ record { kind = setup_option_implementation; raw = implementation }
      ∷ [] in
    if not (bytes_eq path root_path)
    then record { kind = setup_option_path; raw = path } ∷ options
    else options

unfoldable pub client_setup_event : (stream_id : ℕ) → (path authority : List ℕ) → Event
client_setup_event stream_id path authority = record {
  dir = dir_sent;
  channel = fmt "control stream" [];
  name = "SETUP";
  summary = fmt "authority=%s path=%s" (text authority ∷ text path ∷ []);
  fields =
      field "stream_id" "%d" (num stream_id ∷ [])
      ∷ field "AUTHORITY (0x05)" "%s" (text authority ∷ [])
      ∷ field "PATH (0x01)" "%s (omitted on wire when \"/\")" (text path ∷ [])
      ∷ field "IMPLEMENTATION (0x07)" "%s" (literal "moqsub-go/0.1.0" ∷ [])
      ∷ [];
  body = [];
  objects = none;
}

-- The frame of SETUP, written to the stream that was opened.
unfoldable pub write_client_setup : Writer → (path authority : List ℕ) → Result Writer
write_client_setup stream path authority = do
  payload ←
      wrap "encode setup: %w" [] (encode_setup (record { options = setup_options path authority }))
  wrap "write setup frame: %w" [] (write_frame stream msg_setup payload)

module _ {W : Type 0} (net : Streams) where
  -- `r.controlStream` is set before anything is written.
  unfoldable pub after_setup :
      (path authority : List ℕ) → Writer → Result Writer → Runner W → Outcome W
  after_setup path authority stream (ok written) r = (
    rich_add (client_setup_event net.control_id path authority)
        (record r { control_sent = some written.written }),
    ok tt,
  )
  after_setup path authority stream (err e) r =
      (record r { control_sent = some stream.written }, err e)
  after_setup path authority stream panic r =
      (record r { control_sent = some stream.written }, panic)
  after_setup path authority stream stuck r =
      (record r { control_sent = some stream.written }, stuck)

  unfoldable pub send_client_setup : Url → Runner W → Outcome W
  send_client_setup url r = elim (wrap "open control stream: %w" [] net.open_control) [
    | ok stream ↦
        after_setup (client_path url) url.host stream
          (write_client_setup stream (client_path url) url.host) r
    | err e ↦ (r, err e)
    | panic ↦ (r, panic)
    | stuck ↦ (r, stuck)
  ]
