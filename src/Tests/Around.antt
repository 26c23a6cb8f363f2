-- ===== src/Tests/Around.antt =====
-- The recorder, the output, the connection and the command line at concrete inputs.
use moqsub.Common.{
  ℕ, ◌≤◌, ◌==◌, bytes_eq, ◌≡◌, ◌≢◌, ◌⊎◌, ◌↔◌, refl, List, [], ◌∷◌, ◌++◌, false, none, some, arith,
  if◌then◌else◌, bytes_eq_refl,
}
use moqsub.Common.Result.{other, message, ok, err}
use moqsub.RichLog.{new_recorder}
use moqsub.RichLog.Log.{Call, delivery, record_all}
use moqsub.RichLog.Refines.{Refines, record_all-Refines}
use moqsub.RichLog.Page.{sort_metas}
use moqsub.RichLog.Page.Order.{swapped, sort_metas-Reordered}
use moqsub.Media.{
  OutputConfig, unless, start_command_sink, Process, Sink, new_sink, close, mode_stdout,
  mode_command,
}
use moqsub.Media.Laws.{close_times, first_error, close-close_times}
use moqsub.Client.{Network, ClientConfig, dial, dial_request, scheme_moqt}
use moqsub.Client.Laws.{dial_iff}
use moqsub.CommandLine.{Flags, is_output_mode, parse_flags, config_of}
use moqsub.CommandLine.Laws.{Opens, parse_flags-new_sink}
use moqsub.Tests.Start.{url}

abbrev calls : List Call
calls =
    delivery (record {
      stream_id = 15;
      track = 118 ∷ [];
      track_alias = 0;
      group_id = 9;
      object_id = 3;
      payload_bytes = 2;
    })
    ∷ []

record_all-Refines_example : Refines (record_all (some new_recorder) calls) calls
record_all-Refines_example = record_all-Refines calls

abbrev metas : List (List ℕ × List ℕ)
metas = (114 ∷ [], 1 ∷ []) ∷ (110 ∷ [], 2 ∷ []) ∷ []

sort_metas-Reordered_example :
    sort_metas metas ≡ sort_metas ((110 ∷ [], 2 ∷ []) ∷ (114 ∷ [], 1 ∷ []) ∷ [])
sort_metas-Reordered_example =
    sort_metas-Reordered metas _ (swapped (114 ∷ [], 1 ∷ []) (110 ∷ [], 2 ∷ []) [] differ)
  where
    differ : ◌≢◌ {A = List ℕ} (114 ∷ []) (110 ∷ [])
    differ e = ground arith

-- A system on which every command starts, and ends well.
abbrev system : Process
system = record {
  stdin_pipe = λ c. none;
  start = λ c. none;
  close_stdin = λ c n. if n == 0 then none else some (other 9);
  wait = λ c n. none;
}

abbrev piped : OutputConfig
piped = record { mode = mode_command; ffmpeg_cmd = []; ffplay_cmd = []; pipe_cmd = 97 ∷ [] }

abbrev player : Sink
player = record { mode = mode_command; cmd = some (97 ∷ []); waited = none; waits = 0; closes = 0 }

close-close_times_example :
    (s' : Sink) × (close_times system 1 (some player) ≡ some s')
    × (s'.waits ≤ 1)
    × ((close system (some s')).0 ≡ first_error (some (other 9)) none)
unfolding new_sink bytes_eq start_command_sink unless
close-close_times_example = close-close_times system piped player (97 ∷ []) 1 refl refl

abbrev flags : Flags
flags = record {
  relay = 114 ∷ [];
  namespace = 97 ∷ [];
  insecure = false;
  alpn = [];
  output = mode_stdout;
  ffmpeg_cmd = [];
  ffplay_cmd = [];
  pipe_cmd = [];
  log_format = [];
  rich_log = [];
  handshake_timeout = none;
}

parse_flags-new_sink_example :
    ((mode_stdout ≡ mode_command)
      × (flags.pipe_cmd ≡ [])
      × (new_sink system (config_of flags).output
          ≡ err (message "pipe command is required when mode=command" [])))
    ⊎ Opens system (config_of flags).output
unfolding parse_flags is_output_mode
parse_flags-new_sink_example =
    parse_flags-new_sink system flags (config_of flags) [] (λ c. (refl, refl)) accepted
  where
    accepted : parse_flags flags ≡ ok (config_of flags, [])
    accepted = rw (bytes_eq_refl mode_stdout) refl

abbrev network : Network
network = record {
  parse_url = λ uri. ok url;
  join_host_port = λ host port. host ++ 58 ∷ port;
  dial_addr = λ request. ok (49 ∷ []);
}

abbrev client : ClientConfig
client = record { relay_uri = []; insecure_skip_tls = false; alpn = []; handshake_timeout = some 0 }

dial_iff_example : (dial network client ≡ ok (49 ∷ [], url)) ↔ (
    (network.parse_url client.relay_uri ≡ ok url)
    × (scheme_moqt ≡ scheme_moqt)
    × (network.dial_addr (dial_request network client url) ≡ ok (49 ∷ [])))
dial_iff_example = dial_iff network client (49 ∷ []) url
