-- ===== src/Runner/Streams.antt =====
-- A stream that the peer opens, whatever it carries.
use moqsub.Common.{ℕ, ◌≡◌, ◌⊎◌, true}
use moqsub.Common.Result.{Ends}
use moqsub.Reader.{Reader}
use moqsub.Subgroup.{is_subgroup_stream_type}
use moqsub.Subgroup.Progress.{Returns}
use moqsub.Runner.{Runner, Outcome}

-- The handler of a stream of this type comes to an end: with a value or an error, and only on a subgroup
-- stream perhaps with a panic.
abbrev pub EndsByType : {W : Type 0} → (stream_type : ℕ) → Outcome W → Type 0
EndsByType stream_type o = Ends o.1 ⊎ ((is_subgroup_stream_type stream_type ≡ true) × Returns o.1)
