-- ===== src/CommandLine/Laws.antt =====
-- What the command line's checks are good for.
use moqsub.Common.{
  ℕ, ◌<◌, ◌≡◌, ◌≢◌, ◌⊎◌, refl, ◌∙◌, inl, inr, List, [], ◌∷◌, Bool-cases, true, none, some, ◌==◌,
  if◌then◌else◌, if-eq_true, if-eq_false, arith, length, bytes_eq, bytes_eq→eq, bytes_eq→neq, subst,
}
use moqsub.Common.Result.{Error, message, ok, err, ok-injective}
use moqsub.Media.{
  OutputConfig, Process, Sink, mode_stdout, mode_ffmpeg, mode_ffplay, mode_command, default_ffmpeg,
  default_ffplay, choose, unless, start_command_sink, new_sink,
}
use moqsub.CommandLine.{
  Flags, is_output_mode, parse_flags, config_of, exit_code, Ran, returned, panicked, hung,
  after_run, main_of, main,
}
use moqsub.Runner.Control.{is_canceled}
use moqsub.Session.Start.{Config}

-- The output is opened: on stdout in the mode of that name, else on a command that is not empty.
abbrev pub Opens : Process → OutputConfig → Type 0
Opens os cfg =
    (s : Sink) × (new_sink os cfg ≡ ok s)
    × (s.waited ≡ none)
    × (((cfg.mode ≡ mode_stdout) × (s.cmd ≡ none))
        ⊎ ((cfg.mode ≢ mode_stdout)
            × ((command : List ℕ) × (s.cmd ≡ some command) × (0 < length command))))

empty : (v : List ℕ) → (length v == 0) ≡ true → v ≡ []
empty [] h = refl
empty (b ∷ bs) h = ground arith

choose_some : (v fallback : List ℕ) → 0 < length fallback → 0 < length (choose v fallback)
unfolding choose
choose_some v fallback h = elim (Bool-cases (length v == 0)) [
  | inl e ↦ rw e h
  | inr e ↦ rw e (ground arith)
]

module _ (os : Process)
    (starts : (command : List ℕ) → (os.stdin_pipe command ≡ none) × (os.start command ≡ none)) where
  start_command_sink-ok :
      (mode command : List ℕ)
      → start_command_sink os mode command
        ≡ ok (record { mode = mode; cmd = some command; waited = none; waits = 0; closes = 0 })
  unfolding start_command_sink unless
  start_command_sink-ok mode command = rw ((starts command).0, (starts command).1) refl

  command_mode :
      (cfg : OutputConfig)
      → bytes_eq cfg.mode mode_command ≡ true
      → cfg.mode ≢ mode_stdout
      → new_sink os cfg ≡ (
          if length cfg.pipe_cmd == 0
          then err (message "pipe command is required when mode=command" [])
          else start_command_sink os cfg.mode cfg.pipe_cmd)
      → ((cfg.mode ≡ mode_command)
          × (cfg.pipe_cmd ≡ [])
          × (new_sink os cfg ≡ err (message "pipe command is required when mode=command" [])))
        ⊎ Opens os cfg
  command_mode cfg e piped same = elim (Bool-cases (length cfg.pipe_cmd == 0)) [
    | inl none_given ↦ inl (
      bytes_eq→eq cfg.mode mode_command e,
      empty cfg.pipe_cmd none_given,
      same ∙ if-eq_true _ _ _ none_given,
    )
    | inr given ↦ inr (
      _,
      same ∙ if-eq_false _ _ _ given ∙ start_command_sink-ok _ _,
      refl,
      inr (piped, (cfg.pipe_cmd, refl, ground arith)),
    )
  ]

  new_sink-Opens :
      (cfg : OutputConfig)
      → is_output_mode cfg.mode ≡ true
      → ((cfg.mode ≡ mode_command)
          × (cfg.pipe_cmd ≡ [])
          × (new_sink os cfg ≡ err (message "pipe command is required when mode=command" [])))
        ⊎ Opens os cfg
  unfolding new_sink is_output_mode
  new_sink-Opens cfg h = elim (Bool-cases (bytes_eq cfg.mode mode_stdout)) [
    | inl e ↦ inr (_, if-eq_true _ _ _ e, refl, inl (bytes_eq→eq cfg.mode mode_stdout e, refl))
    | inr e0 ↦ elim (Bool-cases (bytes_eq cfg.mode mode_ffmpeg)) [
      | inl e ↦ inr (
        _,
        if-eq_false _ _ _ e0 ∙ if-eq_true _ _ _ e ∙ start_command_sink-ok _ _,
        refl,
        inr (
          bytes_eq→neq cfg.mode mode_stdout e0,
          (_, refl, choose_some cfg.ffmpeg_cmd default_ffmpeg (omega arith)),
        ),
      )
      | inr e1 ↦ elim (Bool-cases (bytes_eq cfg.mode mode_ffplay)) [
        | inl e ↦ inr (
          _,
          if-eq_false _ _ _ e0
              ∙ if-eq_false _ _ _ e1
              ∙ if-eq_true _ _ _ e
              ∙ start_command_sink-ok _ _,
          refl,
          inr (
            bytes_eq→neq cfg.mode mode_stdout e0,
            (_, refl, choose_some cfg.ffplay_cmd default_ffplay (omega arith)),
          ),
        )
        | inr e2 ↦
            let e3 : bytes_eq cfg.mode mode_command ≡ true = rw (e0, e1, e2) at h in
            command_mode cfg e3 (bytes_eq→neq cfg.mode mode_stdout e0) (
              if-eq_false _ _ _ e0
              ∙ if-eq_false _ _ _ e1
              ∙ if-eq_false _ _ _ e2
              ∙ if-eq_true _ _ _ e3)
      ]
    ]
  ]

-- A command line that is accepted gives an output that is opened, on a system on which every command
-- starts: stdout in the mode "stdout", and in each other mode a command that is not empty. The one
-- exception is the mode "command" without a command, which is refused with an error.
pub parse_flags-new_sink :
    (os : Process) (f : Flags) (cfg : Config) (format : List ℕ)
    → ((command : List ℕ) → (os.stdin_pipe command ≡ none) × (os.start command ≡ none))
    → parse_flags f ≡ ok (cfg, format)
    → ((f.output ≡ mode_command)
        × (f.pipe_cmd ≡ [])
        × (new_sink os cfg.output ≡ err (message "pipe command is required when mode=command" [])))
      ⊎ Opens os cfg.output
unfolding parse_flags config_of
parse_flags-new_sink os f cfg format starts e = elim (Bool-cases (is_output_mode f.output)) [
  | inl known ↦
      let made : Config × List ℕ = (config_of f, f.log_format) in
      let e' : ok made ≡ ok (cfg, format) = rw known at e in
      subst
        (λ (c : Config × List ℕ).
          ((f.output ≡ mode_command)
            × (f.pipe_cmd ≡ [])
            × (new_sink os c.0.output
                ≡ err (message "pipe command is required when mode=command" [])))
          ⊎ Opens os c.0.output)
        (ok-injective e') (new_sink-Opens os starts (config_of f).output known)
  | inr unknown ↦ let e' = rw unknown at e in cc
]

after_run-eq_zero :
    (x : Ran)
    → after_run x ≡ some 0
    → (x ≡ returned none) ⊎ ((e : Error) × (x ≡ returned (some e)) × (is_canceled e ≡ true))
unfolding after_run exit_code
after_run-eq_zero (returned none) h = inl refl
after_run-eq_zero (returned (some e)) h = elim (Bool-cases (is_canceled e)) [
  | inl c ↦ inr (e, refl, c)
  | inr c ↦ let h1 = rw c at h in ground arith
]
after_run-eq_zero panicked h = ground arith
after_run-eq_zero hung h = cc

-- The exit code is 0 only where the command line is accepted and `Run` returns without an error or
-- with one that says that the context was canceled.
main-eq_zero :
    (run : Config → Ran) (f : Flags)
    → main run f ≡ some 0
    → (is_output_mode f.output ≡ true)
      × ((run (config_of f) ≡ returned none)
          ⊎ ((e : Error) × (run (config_of f) ≡ returned (some e)) × (is_canceled e ≡ true)))
unfolding main main_of parse_flags
main-eq_zero run f h = elim (Bool-cases (is_output_mode f.output)) [
  | inr unknown ↦ let h1 = rw unknown at h in ground arith
  | inl known ↦ let h1 = rw known at h in (known, after_run-eq_zero (run (config_of f)) h1)
]
