-- ===== src/Media/Laws.antt =====
-- The output: a Close that is called again, and the one Wait for its command.
use moqsub.Common.{
  ℕ, zero, suc, ◌+◌, ◌≤◌, ◌≡◌, ◌⊎◌, refl, ap, subst, ◌∙◌, inl, inr, List, Bool, true, false, Option,
  none, some, ◌==◌, if◌then◌else◌, arith, length, bytes_eq,
}
use moqsub.Common.Result.{Error, Result, ok, err, panic, stuck}
use moqsub.Media.{
  OutputConfig, Process, Sink, mode_stdout, mode_ffmpeg, mode_ffplay, mode_command, unless,
  start_command_sink, new_sink, wait_once, close_piped, close_of, close,
}

-- The output behind n calls of Close.
unfoldable pub close_times : Process → ℕ → Option Sink → Option Sink
close_times os zero sink = sink
close_times os (suc n) sink = (close os (close_times os n sink)).1

-- The first of two errors that is not nil.
unfoldable pub first_error : Option Error → Option Error → Option Error
first_error (some e) other = some e
first_error none other = other

-- A new output, which nothing has closed.
abbrev IsNew : Result Sink → Type 0
IsNew (ok s) = (s.waited ≡ none) × (s.waits ≡ 0) × (s.closes ≡ 0)
IsNew (err e) = Unit {0}
IsNew panic = Unit {0}
IsNew stuck = Unit {0}

either-IsNew : (b : Bool) (m n : Result Sink) → IsNew m → IsNew n → IsNew (if b then m else n)
either-IsNew true m n h k = h
either-IsNew false m n h k = k

unless-IsNew : (e : Option Error) (m : Result Sink) → IsNew m → IsNew (unless e m)
unfolding unless
unless-IsNew none m h = h
unless-IsNew (some e) m h = tt

start_command_sink-IsNew :
    (os : Process) (mode command : List ℕ) → IsNew (start_command_sink os mode command)
unfolding start_command_sink
start_command_sink-IsNew os mode command =
    unless-IsNew (os.stdin_pipe command) _ (unless-IsNew (os.start command) _ (refl, refl, refl))

new_sink-IsNew : (os : Process) (cfg : OutputConfig) → IsNew (new_sink os cfg)
unfolding new_sink
new_sink-IsNew os cfg =
    either-IsNew (bytes_eq cfg.mode mode_stdout) _ _ (refl, refl, refl)
      (either-IsNew (bytes_eq cfg.mode mode_ffmpeg) _ _ (start_command_sink-IsNew os _ _) (
        either-IsNew (bytes_eq cfg.mode mode_ffplay) _ _ (start_command_sink-IsNew os _ _) (
          either-IsNew (bytes_eq cfg.mode mode_command) _ _
            (either-IsNew (length cfg.pipe_cmd == 0) _ _ tt (start_command_sink-IsNew os _ _)) tt)))

module _ (os : Process) (command : List ℕ) where
  -- The output of the command behind n calls of Close: it has been waited for once, or not at all.
  record IsClosed (n : ℕ) (s : Sink) : Type 0 where
    has_command : s.cmd ≡ some command
    counted : s.closes ≡ n
    once :
        ((s.waited ≡ none) × (s.waits ≡ 0))
        ⊎ ((s.waited ≡ some (os.wait command 0)) × (s.waits ≡ 1))

  wait_once-IsClosed :
      (n : ℕ) (waited : Option (Option Error)) (s : Sink)
      → s.waited ≡ waited
      → IsClosed n s
      → ((wait_once os command waited s).0 ≡ os.wait command 0)
        × IsClosed n ((wait_once os command waited s).1)
  unfolding wait_once
  wait_once-IsClosed n none s e h = elim h.once [
    | inl (_, zeroth) ↦ (
      ap (os.wait command) zeroth,
      record {
        has_command = h.has_command;
        counted = h.counted;
        once = inr (ap (λ k. some (os.wait command k)) zeroth, ap (λ k. k + 1) zeroth);
      },
    )
    | inr (was, _) ↦ cc
  ]
  wait_once-IsClosed n (some x) s e h = elim h.once [ inl (was, _) ↦ cc | inr (was, _) ↦ (cc, h) ]

  close_piped-IsClosed :
      (n : ℕ) (stdin : Option Error) (s : Sink)
      → IsClosed n s
      → ((close_piped os command stdin s).0 ≡ first_error stdin (os.wait command 0))
        × IsClosed n ((close_piped os command stdin s).1)
  unfolding close_piped first_error
  close_piped-IsClosed n (some e) s h = (refl, h)
  close_piped-IsClosed n none s h = wait_once-IsClosed n s.waited s refl h

  close-IsClosed :
      (n : ℕ) (s : Sink)
      → IsClosed n s
      → (s' : Sink) × (close os (some s)
          ≡ (first_error (os.close_stdin command n) (os.wait command 0), some s'))
        × IsClosed (suc n) s'
  unfolding close close_of
  close-IsClosed n s h =
      let s1 : Sink = record s { closes = s.closes + 1 } in
      let closing : IsClosed (suc n) s1 = record {
        has_command = h.has_command;
        counted = omega (arith, h.counted);
        once = h.once;
      } in
      let (e, closed) = close_piped-IsClosed (suc n) (os.close_stdin command s.closes) s1 closing in
      (
        (close_piped os command (os.close_stdin command s.closes) s1).1,
        ap (λ c. ((close_of os c s).0, some (close_of os c s).1)) h.has_command
            ∙ ap (λ x. (x, some (close_piped os command (os.close_stdin command s.closes) s1).1))
                (e
                  ∙ ap (λ k. first_error (os.close_stdin command k) (os.wait command 0)) h.counted),
        closed,
      )

  close_times-IsClosed :
      (n : ℕ) (s : Sink)
      → IsClosed 0 s
      → (s' : Sink) × (close_times os n (some s) ≡ some s') × IsClosed n s'
  unfolding close_times
  close_times-IsClosed zero s h = (s, refl, h)
  close_times-IsClosed (suc n) s h =
      let (s1, e1, h1) = close_times-IsClosed n s h in
      let (s2, e2, h2) = close-IsClosed n s1 h1 in
      (s2, ap (λ x. (close os x).1) e1 ∙ ap (λ (x : Option Error × Option Sink). x.1) e2, h2)

  at_most_once : (n : ℕ) (s : Sink) → IsClosed n s → s.waits ≤ 1
  at_most_once n s h = elim h.once [
    | inl (_, zeroth) ↦ omega (arith, zeroth)
    | inr (_, first) ↦ omega (arith, first)
  ]

-- However often the output of a command, as `NewSink` made it, is closed: each Close returns the error
-- of closing the pipe this time, and where there is none the error, or nil, of the one Wait for the
-- command; and the command is waited for at most once.
pub close-close_times :
    (os : Process) (cfg : OutputConfig) (s : Sink) (command : List ℕ) (n : ℕ)
    → new_sink os cfg ≡ ok s
    → s.cmd ≡ some command
    → (s' : Sink) × (close_times os n (some s) ≡ some s')
      × (s'.waits ≤ 1)
      × ((close os (some s')).0 ≡ first_error (os.close_stdin command n) (os.wait command 0))
close-close_times os cfg s command n made piped =
    let (waited, waits, closes) = subst IsNew made (new_sink-IsNew os cfg) in
    let (s1, e1, h1) =
      close_times-IsClosed os command n s
        (record { has_command = piped; counted = closes; once = inl (waited, waits) }) in
    let (s2, e2, h2) = close-IsClosed os command n s1 h1 in
    (s1, e1, at_most_once os command n s1 h1, ap (λ (x : Option Error × Option Sink). x.0) e2)
