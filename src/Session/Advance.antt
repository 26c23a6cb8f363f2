-- ===== src/Session/Advance.antt =====
-- The waits of `bootstrapFromCatalog` lead to its end.
use moqsub.Common.{ℕ, zero, suc, List, if◌then◌else◌, ◌==◌, Option, none, some}
use moqsub.Common.Result.{Error, Result}
use moqsub.Catalog.{CatalogRoot}
use moqsub.Runner.{Runner}
use moqsub.Session.{Streams}
use moqsub.Session.Waits.{Wake, timed_out}
use moqsub.Session.Machine.{Phase, resume}
use moqsub.Session.Rank.{waits_left}

-- The result of a wait, or else that of its timer.
unfoldable pub or_timer : {A : Type 0} → Option A → Option A → A → A
or_timer (some x) timer stay = x
or_timer none (some x) stay = x
or_timer none none stay = stay

module _ {W : Type 0} (write_to : List ℕ → W → Option Error × W) (elapsed : ℕ → ℕ) (net : Streams)
    (unmarshal : List ℕ → Result CatalogRoot) (indent : List ℕ → Option (List ℕ)) where
  -- A run of the bootstrap: before the n-th wait the other goroutines change the state by `others n`,
  -- and `wakes n` is the case of the `select`, or else the timer.
  module _ (wakes : ℕ → Wake) (others : ℕ → Runner W → Runner W) where
    unfoldable pub wait_with : ℕ → Phase × Runner W → Phase × Runner W
    wait_with n (phase, r) =
        or_timer (resume write_to elapsed net unmarshal indent (wakes n) phase (others n r))
          (resume write_to elapsed net unmarshal indent timed_out phase (others n r)) (phase, r)

    unfoldable pub wait_all : (waits n : ℕ) → Phase × Runner W → Phase × Runner W
    wait_all zero n x = x
    wait_all (suc waits) n (phase, r) =
        let rest = wait_all waits (suc n) (wait_with n (phase, r)) in
        if waits_left phase == 0 then (phase, r) else rest
