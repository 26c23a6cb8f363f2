-- ===== src/CommandLine.antt =====
-- cmd/moqsub/main.go: the command line and the exit code. The parser of flags is the flag package's: what
-- it leaves in the flags' variables is the argument.
pub mod Laws
use moqsub.Common.{ℕ, List, [], ◌∷◌, Bool, ◌||◌, Option, none, some, if◌then◌else◌, bytes_eq}
use moqsub.Common.Result.{Error, message, text, Result, ok, err, panic, stuck}
use moqsub.Media.{OutputConfig, mode_stdout, mode_ffmpeg, mode_ffplay, mode_command}
use moqsub.Client.{ClientConfig}
use moqsub.Runner.Control.{is_canceled}
use moqsub.Session.Start.{Config}

pub record Flags : Type 0 where
  pub relay : List ℕ
  pub namespace : List ℕ
  pub insecure : Bool
  pub alpn : List ℕ
  pub output : List ℕ
  pub ffmpeg_cmd : List ℕ
  pub ffplay_cmd : List ℕ
  pub pipe_cmd : List ℕ
  pub log_format : List ℕ
  pub rich_log : List ℕ
  pub handshake_timeout : Option ℕ

unfoldable pub is_output_mode : List ℕ → Bool
is_output_mode mode =
    bytes_eq mode mode_stdout
    || bytes_eq mode mode_ffmpeg
    || bytes_eq mode mode_ffplay
    || bytes_eq mode mode_command

-- The configuration that `parseFlags` returns.
unfoldable pub config_of : Flags → Config
config_of f = record {
  relay_uri = f.relay;
  namespace = f.namespace;
  output = record {
    mode = f.output;
    ffmpeg_cmd = f.ffmpeg_cmd;
    ffplay_cmd = f.ffplay_cmd;
    pipe_cmd = f.pipe_cmd;
  };
  client = record {
    relay_uri = f.relay;
    insecure_skip_tls = f.insecure;
    alpn = f.alpn;
    handshake_timeout = f.handshake_timeout;
  };
  rich_log_path = f.rich_log;
}

-- `parseFlags` behind `flag.Parse`: the configuration and the format of the log.
unfoldable pub parse_flags : Flags → Result (Config × List ℕ)
parse_flags f =
    if is_output_mode f.output
    then ok (config_of f, f.log_format)
    else err (message "invalid output mode: %s" (text f.output ∷ []))

-- The process's exit code behind `Run`.
unfoldable pub exit_code : Option Error → ℕ
exit_code none = 0
exit_code (some e) = if is_canceled e then 0 else 1

-- What `Run` comes to: it returns, with an error or nil, a goroutine of the process panics, or it never
-- returns.
pub data Ran : Type 0 where
  returned : Option Error → Ran
  panicked hung : Ran

-- The exit code behind it, `none` for none: a panic that nothing recovers exits with 2.
unfoldable pub after_run : Ran → Option ℕ
after_run (returned e) = some (exit_code e)
after_run panicked = some 2
after_run hung = none

-- `main`, with what `Run` comes to on a configuration.
unfoldable pub main_of : (Config → Ran) → Result (Config × List ℕ) → Option ℕ
main_of run (ok (cfg, format)) = after_run (run cfg)
main_of run (err e) = some 2
main_of run panic = some 2
main_of run stuck = none

unfoldable pub main : (Config → Ran) → Flags → Option ℕ
main run f = main_of run (parse_flags f)
