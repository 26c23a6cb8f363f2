-- ===== src/Session/Rank.antt =====
-- How many waits of `bootstrapFromCatalog` are left behind a wait, and that its timer ends each.
use moqsub.Common.{
  ℕ, String, ◌<◌, ◌≤◌, inl, inr, List, Bool, true, false, if◌then◌else◌, Option, none, some,
  Option-cases, arith, length, get_elem?,
}
use moqsub.Common.Result.{Error, Result, ok, err, panic, stuck}
use moqsub.Registry.{TrackRole, Pointer}
use moqsub.Catalog.{CatalogRoot}
use moqsub.Runner.{Runner, Outcome, write_payload}
use moqsub.Session.{Streams}
use moqsub.Runner.Steps.{subscribe}
use moqsub.Session.Subscribe.{send_subscribe_message}
use moqsub.Session.Waits.{
  Wake, received, timed_out, done, failed, wait_ok_of, wait_subscribe_ok, wait_object_of,
  wait_first_object,
}
use moqsub.Session.Machine.{
  Phase, awaiting_setup, receiving, stopped, awaiting_catalog_ok, awaiting_catalog,
  awaiting_media_ok, awaiting_init_ok, awaiting_init, finished, choose_tracks, after_send,
  after_wait, subscribe_then, start_bootstrap, after_choice, after_init_write, resume_setup, resume,
}

-- The waits of the bootstrap that are left.
unfoldable pub waits_left : Phase → ℕ
waits_left awaiting_setup = 6
waits_left (awaiting_catalog_ok p) = 5
waits_left (awaiting_catalog p) = 4
waits_left (awaiting_init_ok p init media) = 3
waits_left (awaiting_init p init media) = 2
waits_left (awaiting_media_ok p) = 1
waits_left receiving = 0
waits_left (finished e) = 0
waits_left (stopped why) = 0

-- Where the case of the `select` comes, fewer than n waits are left behind it.
abbrev pub IfAtMost : {W : Type 0} → ℕ → Option (Phase × Runner W) → Type 0
IfAtMost n none = Unit {0}
IfAtMost n (some (phase, r)) = waits_left phase < n

-- It comes.
abbrev pub Comes : {A : Type 0} → Option A → Type 0
Comes none = ⊥
Comes (some x) = Unit {0}

either-IfAtMost :
    {W : Type 0} (b : Bool) (n : ℕ) (x : Phase × Runner W)
    → waits_left x.0 < n
    → IfAtMost n (if b then some x else none)
either-IfAtMost true n x h = h
either-IfAtMost false n x h = tt

module _ {W : Type 0} where
  pub after_send_left :
      (phase : Phase) (o : Outcome W) → waits_left (after_send phase o).0 ≤ waits_left phase
  unfolding after_send waits_left
  after_send_left phase (r, ok x) = omega arith
  after_send_left phase (r, err e) = omega arith
  after_send_left phase (r, panic) = omega arith
  after_send_left phase (r, stuck) = omega arith

  after_wait-IfAtMost :
      {A : Type 0} (n : ℕ) (f : String) (k : A → Runner W → Phase × Runner W)
      (o : Option (Runner W × Result A))
      → 0 < n
      → ((x : A) (r : Runner W) → waits_left (k x r).0 < n)
      → IfAtMost n (after_wait f k o)
  unfolding after_wait waits_left
  after_wait-IfAtMost n f k none pos h = tt
  after_wait-IfAtMost n f k (some (r, ok x)) pos h = h x r
  after_wait-IfAtMost n f k (some (r, err e)) pos h = omega arith
  after_wait-IfAtMost n f k (some (r, panic)) pos h = omega arith
  after_wait-IfAtMost n f k (some (r, stuck)) pos h = omega arith

  after_wait-Comes :
      {A : Type 0} (f : String) (k : A → Runner W → Phase × Runner W)
      (o : Option (Runner W × Result A))
      → Comes o
      → Comes (after_wait f k o)
  unfolding after_wait
  after_wait-Comes f k none h = h
  after_wait-Comes f k (some (r, ok x)) h = tt
  after_wait-Comes f k (some (r, err e)) h = tt
  after_wait-Comes f k (some (r, panic)) h = tt
  after_wait-Comes f k (some (r, stuck)) h = tt

  wait_subscribe_ok-Comes : (p : Pointer) (r : Runner W) → Comes (wait_subscribe_ok timed_out p r)
  unfolding wait_subscribe_ok wait_ok_of
  wait_subscribe_ok-Comes p r = elim (Option-cases (get_elem? r.subs.heap p)) [
    | inl e ↦ rw (wait_subscribe_ok, e) tt
    | inr (sub, e) ↦ rw (wait_subscribe_ok, e) tt
  ]

  wait_first_object-Comes : (p : Pointer) (r : Runner W) → Comes (wait_first_object timed_out p r)
  unfolding wait_first_object wait_object_of
  wait_first_object-Comes p r = elim (Option-cases (get_elem? r.subs.heap p)) [
    | inl e ↦ rw (wait_first_object, e) tt
    | inr (sub, e) ↦ rw (wait_first_object, e) tt
  ]

module _ {W : Type 0} (write_to : List ℕ → W → Option Error × W) (elapsed : ℕ → ℕ) (net : Streams)
    (unmarshal : List ℕ → Result CatalogRoot) (indent : List ℕ → Option (List ℕ)) where
  subscribe_then_left :
      (n : ℕ) (next : Pointer → Phase) (name : List ℕ) (role : TrackRole) (r : Runner W)
      → waits_left (next (length r.subs.heap)) < n
      → waits_left (subscribe_then write_to elapsed net unmarshal indent next name role r).0 < n
  unfolding subscribe_then
  subscribe_then_left n next name role r h =
      let few =
        after_send_left (next (length r.subs.heap))
          (send_subscribe_message net (length r.subs.heap) (subscribe name role r)) in
      omega (arith, few)

  after_choice_left :
      (payload : List ℕ) (choice : Result (CatalogRoot × List ℕ × List ℕ)) (r : Runner W)
      → waits_left (after_choice write_to elapsed net unmarshal indent payload choice r).0 < 4
  unfolding after_choice waits_left
  after_choice_left payload (ok (root, media, init)) r =
      subscribe_then_left 4 (λ p. awaiting_init_ok p init media) init _ _ (omega arith)
  after_choice_left payload (err e) r = omega arith
  after_choice_left payload panic r = omega arith
  after_choice_left payload stuck r = omega arith

  after_init_write_left :
      (init media payload : List ℕ) (o : Option Error × Runner W)
      → waits_left (after_init_write write_to elapsed net unmarshal indent init media payload o).0
        < 2
  unfolding after_init_write waits_left
  after_init_write_left init media payload (some e, r) = omega arith
  after_init_write_left init media payload (none, r) =
      subscribe_then_left 2 (λ p. awaiting_media_ok p) media _ _ (omega arith)

  start_bootstrap_left :
      (r : Runner W) → waits_left (start_bootstrap write_to elapsed net unmarshal indent r).0 < 6
  unfolding start_bootstrap waits_left
  start_bootstrap_left r = subscribe_then_left 6 (λ p. awaiting_catalog_ok p) _ _ r (omega arith)

  resume_setup-IfAtMost :
      (wake : Wake) (r : Runner W)
      → IfAtMost 6 (resume_setup write_to elapsed net unmarshal indent wake r)
  unfolding resume_setup waits_left
  resume_setup-IfAtMost received r = either-IfAtMost r.peer_setup_seen 6 _ (start_bootstrap_left r)
  resume_setup-IfAtMost timed_out r = start_bootstrap_left r
  resume_setup-IfAtMost (done e) r = omega arith
  resume_setup-IfAtMost (failed e) r = tt

  -- In the phases of the bootstrap each wait leaves fewer.
  pub resume-IfAtMost :
      (wake : Wake) (phase : Phase) (r : Runner W)
      → 0 < waits_left phase
      → IfAtMost (waits_left phase) (resume write_to elapsed net unmarshal indent wake phase r)
  unfolding resume waits_left
  resume-IfAtMost wake awaiting_setup r h = resume_setup-IfAtMost wake r
  resume-IfAtMost wake (awaiting_catalog_ok p) r h =
      after_wait-IfAtMost 5 _ _ (wait_subscribe_ok wake p r) (omega arith) (λ x r1. omega arith)
  resume-IfAtMost wake (awaiting_catalog p) r h =
      after_wait-IfAtMost 4 _ _ (wait_first_object wake p r) (omega arith)
        (λ x r1. after_choice_left x (choose_tracks unmarshal x) r1)
  resume-IfAtMost wake (awaiting_init_ok p init media) r h =
      after_wait-IfAtMost 3 _ _ (wait_subscribe_ok wake p r) (omega arith) (λ x r1. omega arith)
  resume-IfAtMost wake (awaiting_init p init media) r h =
      after_wait-IfAtMost 2 _ _ (wait_first_object wake p r) (omega arith)
        (λ x r1. after_init_write_left init media x (write_payload write_to elapsed x r1))
  resume-IfAtMost wake (awaiting_media_ok p) r h =
      after_wait-IfAtMost 1 _ _ (wait_subscribe_ok wake p r) (omega arith) (λ x r1. omega arith)
  resume-IfAtMost wake receiving r h = absurd (omega arith)
  resume-IfAtMost wake (finished e) r h = absurd (omega arith)
  resume-IfAtMost wake (stopped why) r h = absurd (omega arith)

  pub resume-Comes :
      (phase : Phase) (r : Runner W)
      → 0 < waits_left phase
      → Comes (resume write_to elapsed net unmarshal indent timed_out phase r)
  unfolding resume resume_setup waits_left
  resume-Comes awaiting_setup r h = tt
  resume-Comes (awaiting_catalog_ok p) r h = after_wait-Comes _ _ _ (wait_subscribe_ok-Comes p r)
  resume-Comes (awaiting_catalog p) r h = after_wait-Comes _ _ _ (wait_first_object-Comes p r)
  resume-Comes (awaiting_init_ok p init media) r h =
      after_wait-Comes _ _ _ (wait_subscribe_ok-Comes p r)
  resume-Comes (awaiting_init p init media) r h =
      after_wait-Comes _ _ _ (wait_first_object-Comes p r)
  resume-Comes (awaiting_media_ok p) r h = after_wait-Comes _ _ _ (wait_subscribe_ok-Comes p r)
  resume-Comes receiving r h = absurd (omega arith)
  resume-Comes (finished e) r h = absurd (omega arith)
  resume-Comes (stopped why) r h = absurd (omega arith)
