-- ===== src/Media.antt =====
-- internal/media/output.go: the output that the payloads are written to. What `os/exec` and the operating
-- system do is the parameter `Process`.
pub mod Laws
use moqsub.Common.{ℕ, ◌+◌, List, [], ◌∷◌, Option, none, some, ◌==◌, if◌then◌else◌, length, bytes_eq}
use moqsub.Common.Result.{Error, message, text, Result, ok, err}

-- "stdout"
abbrev pub mode_stdout : List ℕ
mode_stdout = 115 ∷ 116 ∷ 100 ∷ 111 ∷ 117 ∷ 116 ∷ []

-- "ffmpeg"
abbrev pub mode_ffmpeg : List ℕ
mode_ffmpeg = 102 ∷ 102 ∷ 109 ∷ 112 ∷ 101 ∷ 103 ∷ []

-- "ffplay"
abbrev pub mode_ffplay : List ℕ
mode_ffplay = 102 ∷ 102 ∷ 112 ∷ 108 ∷ 97 ∷ 121 ∷ []

-- "command"
abbrev pub mode_command : List ℕ
mode_command = 99 ∷ 111 ∷ 109 ∷ 109 ∷ 97 ∷ 110 ∷ 100 ∷ []

-- "ffmpeg -hide_banner -loglevel warning -i pipe:0 -f null -"
abbrev pub default_ffmpeg : List ℕ
default_ffmpeg =
    102 ∷ 102 ∷ 109 ∷ 112 ∷ 101 ∷ 103 ∷ 32 ∷ 45 ∷ 104 ∷ 105 ∷ 100 ∷ 101 ∷ 95 ∷ 98 ∷ 97 ∷ 110 ∷ 110
    ∷ 101 ∷ 114 ∷ 32 ∷ 45 ∷ 108 ∷ 111 ∷ 103 ∷ 108 ∷ 101 ∷ 118 ∷ 101 ∷ 108 ∷ 32 ∷ 119 ∷ 97 ∷ 114
    ∷ 110 ∷ 105 ∷ 110 ∷ 103 ∷ 32 ∷ 45 ∷ 105 ∷ 32 ∷ 112 ∷ 105 ∷ 112 ∷ 101 ∷ 58 ∷ 48 ∷ 32 ∷ 45 ∷ 102
    ∷ 32 ∷ 110 ∷ 117 ∷ 108 ∷ 108 ∷ 32 ∷ 45 ∷ []

-- "ffplay -hide_banner -fflags nobuffer -flags low_delay -framedrop -i pipe:0"
abbrev pub default_ffplay : List ℕ
default_ffplay =
    102 ∷ 102 ∷ 112 ∷ 108 ∷ 97 ∷ 121 ∷ 32 ∷ 45 ∷ 104 ∷ 105 ∷ 100 ∷ 101 ∷ 95 ∷ 98 ∷ 97 ∷ 110 ∷ 110
    ∷ 101 ∷ 114 ∷ 32 ∷ 45 ∷ 102 ∷ 102 ∷ 108 ∷ 97 ∷ 103 ∷ 115 ∷ 32 ∷ 110 ∷ 111 ∷ 98 ∷ 117 ∷ 102 ∷ 102
    ∷ 101 ∷ 114 ∷ 32 ∷ 45 ∷ 102 ∷ 108 ∷ 97 ∷ 103 ∷ 115 ∷ 32 ∷ 108 ∷ 111 ∷ 119 ∷ 95 ∷ 100 ∷ 101 ∷ 108
    ∷ 97 ∷ 121 ∷ 32 ∷ 45 ∷ 102 ∷ 114 ∷ 97 ∷ 109 ∷ 101 ∷ 100 ∷ 114 ∷ 111 ∷ 112 ∷ 32 ∷ 45 ∷ 105 ∷ 32
    ∷ 112 ∷ 105 ∷ 112 ∷ 101 ∷ 58 ∷ 48 ∷ []

-- `media.Config`
pub record OutputConfig : Type 0 where
  pub mode : List ℕ
  pub ffmpeg_cmd : List ℕ
  pub ffplay_cmd : List ℕ
  pub pipe_cmd : List ℕ

-- What becomes of a command: the errors of `StdinPipe` and `Start`, and those of
-- the n-th close of the pipe and of the n-th `Wait`, counted from 0, each `none` for nil. The pipe is a file:
-- what its second close returns need not be what the first one did.
pub record Process : Type 0 where
  pub stdin_pipe : (command : List ℕ) → Option Error
  pub start : (command : List ℕ) → Option Error
  pub close_stdin : (command : List ℕ) → (times : ℕ) → Option Error
  pub wait : (command : List ℕ) → (times : ℕ) → Option Error

-- `cmd` is the command's text, `none` for stdout; `waits` counts the calls of `cmd.Wait`,
-- `closes` those of `Close` on the pipe. `waited` is
-- whether `wait` has run and what `waitE` then is.
pub record Sink : Type 0 where
  pub mode : List ℕ
  pub cmd : Option (List ℕ)
  pub waited : Option (Option Error)
  pub waits : ℕ
  pub closes : ℕ

unfoldable pub choose : (v fallback : List ℕ) → List ℕ
choose v fallback = if length v == 0 then fallback else v

-- `if err != nil { return nil, err }` behind a call.
unfoldable pub unless : {A : Type 0} → Option Error → Result A → Result A
unless none rest = rest
unless (some e) rest = err e

unfoldable pub start_command_sink : Process → (mode command : List ℕ) → Result Sink
start_command_sink os mode command = unless (os.stdin_pipe command) (
    unless (os.start command)
      (ok (record { mode = mode; cmd = some command; waited = none; waits = 0; closes = 0 })))

unfoldable pub new_sink : Process → OutputConfig → Result Sink
new_sink os cfg =
    if bytes_eq cfg.mode mode_stdout
    then ok (record { mode = cfg.mode; cmd = none; waited = none; waits = 0; closes = 0 })
    else if bytes_eq cfg.mode mode_ffmpeg
    then start_command_sink os cfg.mode (choose cfg.ffmpeg_cmd default_ffmpeg)
    else if bytes_eq cfg.mode mode_ffplay
    then start_command_sink os cfg.mode (choose cfg.ffplay_cmd default_ffplay)
    else if bytes_eq cfg.mode mode_command
    then (if length cfg.pipe_cmd == 0
        then err (message "pipe command is required when mode=command" [])
        else start_command_sink os cfg.mode cfg.pipe_cmd)
    else err (message "unknown output mode: %q" (text cfg.mode ∷ []))

-- `s.wait.Do(…)` and the return behind it.
unfoldable pub wait_once :
    Process → (command : List ℕ) → Option (Option Error) → Sink → Option Error × Sink
wait_once os command (some e) s = (e, s)
wait_once os command none s = (
  os.wait command s.waits,
  record s { waited = some (os.wait command s.waits); waits = s.waits + 1 },
)

unfoldable pub close_piped :
    Process → (command : List ℕ) → Option Error → Sink → Option Error × Sink
close_piped os command (some e) s = (some e, s)
close_piped os command none s = wait_once os command s.waited s

unfoldable pub close_of : Process → Option (List ℕ) → Sink → Option Error × Sink
close_of os none s = (none, s)
close_of os (some command) s =
    close_piped os command (os.close_stdin command s.closes) (record s { closes = s.closes + 1 })

-- `Sink.Close`; a nil sink is `none`.
unfoldable pub close : Process → Option Sink → Option Error × Option Sink
close os none = (none, none)
close os (some s) = let (e, s1) = close_of os s.cmd s in (e, some s1)
