-- ===== src/Session/Moves.antt =====
-- From one wait of `Run` to the next.
use moqsub.Common.{
  ℕ, ◌≡◌, inl, inr, subst, ap, List, [], Bool, true, false, Option, none, some, arith,
  if◌then◌else◌, Bool-cases,
}
use moqsub.Common.Result.{Error, Result, ok, err, panic, stuck}
use moqsub.Registry.{TrackRole, role_catalog, role_init, role_media, Pointer}
use moqsub.Catalog.{CatalogRoot, catalog_track_name}
use moqsub.Runner.{Runner, rich_add, write_payload}
use moqsub.Runner.Control.{is_canceled, is_stream_error}
use moqsub.Runner.Media.{write_all}
use moqsub.Session.{Streams}
use moqsub.Session.Waits.{
  Wake, received, timed_out, done, failed, wait_subscribe_ok, wait_first_object,
}
use moqsub.Session.Machine.{
  by_panic, by_call, Phase, awaiting_setup, receiving, stopped, awaiting_catalog_ok,
  awaiting_catalog, awaiting_media_ok, awaiting_init_ok, awaiting_init, finished, choose_tracks,
  start_bootstrap, after_choice, after_init_write, on_failure, resume_receiving, resume_setup,
  resume,
}
use moqsub.Session.Heap.{RoleAt, RoleAt-last, All-append_one}
use moqsub.Session.Reach.{made, Placed, Silent, Output}
use moqsub.Session.Waited.{
  KeptIn, IfKept, after_wait-Kept, wait_subscribe_ok-After, Taken, wait_first_object-After,
  wait_catalog-After,
}
use moqsub.Session.Subscribed.{KeptAt, finished-Kept, subscribe_then-Kept}

catalog_not_media : ¬ (role_catalog ≡ role_media)
catalog_not_media e = cc

init_not_media : ¬ (role_init ≡ role_media)
init_not_media e = cc

module _ {W : Type 0} (write_to : List ℕ → W → Option Error × W) (elapsed : ℕ → ℕ)
    (Published : TrackRole → List ℕ → Type 0) (w0 : W) where
  on_failure-Kept :
      (e : Error) (r : Runner W)
      → KeptIn write_to elapsed Published w0 receiving r
      → KeptAt write_to elapsed Published w0 (on_failure e r)
  unfolding on_failure
  on_failure-Kept e r h = elim (Bool-cases (is_canceled e)) [
    | inl c ↦ rw c (finished-Kept write_to elapsed Published w0 receiving none r h).0
    | inr c ↦ elim (Bool-cases (is_stream_error e)) [
      | inl s ↦ rw (c, s) h
      | inr s ↦ rw (c, s) (finished-Kept write_to elapsed Published w0 receiving (some e) r h).0
    ]
  ]

  module _ (net : Streams) (unmarshal : List ℕ → Result CatalogRoot)
      (indent : List ℕ → Option (List ℕ)) where
    start_bootstrap-Kept :
        (r : Runner W)
        → KeptIn write_to elapsed Published w0 awaiting_setup r
        → KeptAt write_to elapsed Published w0
            (start_bootstrap write_to elapsed net unmarshal indent r)
    unfolding start_bootstrap made Placed Output Silent
    start_bootstrap-Kept r h =
        let few = h.few in
        subscribe_then-Kept write_to elapsed Published w0 net unmarshal indent
          (λ p. awaiting_catalog_ok p) catalog_track_name role_catalog r h.registry
          (omega (arith, few)) h.held tt
          (All-append_one _ r.subs.heap _ h.output.0 catalog_not_media, h.output.1)

    after_choice-Kept :
        (p : Pointer) (payload : List ℕ) (choice : Result (CatalogRoot × List ℕ × List ℕ))
        (r : Runner W)
        → KeptIn write_to elapsed Published w0 (awaiting_catalog p) r
        → KeptAt write_to elapsed Published w0
            (after_choice write_to elapsed net unmarshal indent payload choice r)
    unfolding after_choice made Placed Output Silent rich_add
    after_choice-Kept p payload (ok (root, media, init)) r h =
        let few = h.few in
        subscribe_then-Kept write_to elapsed Published w0 net unmarshal indent
          (λ p. awaiting_init_ok p init media) init role_init _ h.registry (omega (arith, few))
          h.held (RoleAt-last r.subs.heap _)
          (All-append_one _ r.subs.heap _ h.output.0 init_not_media, h.output.1)
    after_choice-Kept p payload (err e) r h =
        (finished-Kept write_to elapsed Published w0 (awaiting_catalog p) (some e) r h).0
    after_choice-Kept p payload panic r h =
        (finished-Kept write_to elapsed Published w0 (awaiting_catalog p) none r h).1 by_panic
    after_choice-Kept p payload stuck r h =
        (finished-Kept write_to elapsed Published w0 (awaiting_catalog p) none r h).1 by_call

    -- The write of the init segment is the first, whether it fails or not.
    after_init_write-Kept :
        (p : Pointer) (init media payload : List ℕ) (failure : Option Error) (r : Runner W)
        → KeptIn write_to elapsed Published w0 (awaiting_init p init media) r
        → Published role_init payload
        → KeptAt write_to elapsed Published w0 (
            after_init_write write_to elapsed net unmarshal indent init media payload
              (failure, record r { sink = (write_to payload r.sink).1 }))
    unfolding after_init_write made Placed Output Silent rich_add write_all
    after_init_write-Kept p init media payload none r h new =
        let few = h.few in
        subscribe_then-Kept write_to elapsed Published w0 net unmarshal indent
          (λ p. awaiting_media_ok p) media role_media _ h.registry (omega (arith, few)) h.held tt
          (payload, [], new, tt, ap (λ w. (write_to payload w).1) h.output.1)
    after_init_write-Kept p init media payload (some e) r h new =
        let few = h.few in
        record {
          registry = h.registry;
          few = omega (arith, few);
          held = h.held;
          placed = tt;
          output = inr (payload, [], new, tt, ap (λ w. (write_to payload w).1) h.output.1);
        }

    resume_setup-Kept :
        (wake : Wake) (r : Runner W)
        → KeptIn write_to elapsed Published w0 awaiting_setup r
        → IfKept write_to elapsed Published w0
            (resume_setup write_to elapsed net unmarshal indent wake r)
    unfolding resume_setup
    resume_setup-Kept received r h = either-Kept r.peer_setup_seen _ (start_bootstrap-Kept r h)
      where
        either-Kept :
            (b : Bool) (x : Phase × Runner W)
            → KeptAt write_to elapsed Published w0 x
            → IfKept write_to elapsed Published w0 (if b then some x else none)
        either-Kept true x k = k
        either-Kept false x k = tt
    resume_setup-Kept timed_out r h = start_bootstrap-Kept r h
    resume_setup-Kept (done e) r h =
        (finished-Kept write_to elapsed Published w0 awaiting_setup (some e) r h).0
    resume_setup-Kept (failed e) r h = tt

    resume_receiving-Kept :
        (wake : Wake) (r : Runner W)
        → KeptIn write_to elapsed Published w0 receiving r
        → IfKept write_to elapsed Published w0 (resume_receiving wake r)
    unfolding resume_receiving
    resume_receiving-Kept received r h = tt
    resume_receiving-Kept timed_out r h = tt
    resume_receiving-Kept (done e) r h =
        (finished-Kept write_to elapsed Published w0 receiving none r h).0
    resume_receiving-Kept (failed e) r h = on_failure-Kept e r h

    -- The wait for the init segment is on a subscription of its role.
    resume_init-Kept :
        (wake : Wake) (p : Pointer) (init media : List ℕ) (r : Runner W)
        → KeptIn write_to elapsed Published w0 (awaiting_init p init media) r
        → RoleAt role_init p r.subs.heap
        → IfKept write_to elapsed Published w0
            (resume write_to elapsed net unmarshal indent wake (awaiting_init p init media) r)
    unfolding resume write_payload
    resume_init-Kept wake p init media r h (sub, e, role) =
        after_wait-Kept write_to elapsed Published w0 (awaiting_init p init media) "init object: %w"
          (Taken write_to elapsed Published w0 (awaiting_init p init media) sub.role) _
          (wait_first_object wake p r)
          (wait_first_object-After write_to elapsed Published w0 (awaiting_init p init media) wake p
            r sub e h)
          (λ payload r1 k.
            after_init_write-Kept p init media payload (write_to payload r1.sink).0 r1 k.0
              (subst (λ q. Published q payload) role k.1))

    pub resume-Kept :
        (wake : Wake) (phase : Phase) (r : Runner W)
        → KeptIn write_to elapsed Published w0 phase r
        → IfKept write_to elapsed Published w0
            (resume write_to elapsed net unmarshal indent wake phase r)
    unfolding resume made Placed Output
    resume-Kept wake awaiting_setup r h = resume_setup-Kept wake r h
    resume-Kept wake (awaiting_catalog_ok p) r h =
        after_wait-Kept write_to elapsed Published w0 (awaiting_catalog_ok p)
          "catalog subscribe: %w" _ _ (wait_subscribe_ok wake p r)
          (wait_subscribe_ok-After write_to elapsed Published w0 (awaiting_catalog_ok p) wake p r h)
          (λ x r1 k. record {
            registry = k.registry;
            few = k.few;
            held = k.held;
            placed = k.placed;
            output = k.output;
          })
    resume-Kept wake (awaiting_catalog p) r h =
        after_wait-Kept write_to elapsed Published w0 (awaiting_catalog p) "catalog object: %w" _ _
          (wait_first_object wake p r)
          (wait_catalog-After write_to elapsed Published w0 (awaiting_catalog p) wake p r h)
          (λ payload r1 k. after_choice-Kept p payload (choose_tracks unmarshal payload) r1 k)
    resume-Kept wake (awaiting_init_ok p init media) r h =
        after_wait-Kept write_to elapsed Published w0 (awaiting_init_ok p init media)
          "init subscribe: %w" _ _ (wait_subscribe_ok wake p r)
          (wait_subscribe_ok-After write_to elapsed Published w0 (awaiting_init_ok p init media)
            wake p r h)
          (λ x r1 k. record {
            registry = k.registry;
            few = k.few;
            held = k.held;
            placed = k.placed;
            output = k.output;
          })
    resume-Kept wake (awaiting_init p init media) r h =
        resume_init-Kept wake p init media r h h.placed
    resume-Kept wake (awaiting_media_ok p) r h =
        after_wait-Kept write_to elapsed Published w0 (awaiting_media_ok p) "media subscribe: %w" _
          _ (wait_subscribe_ok wake p r)
          (wait_subscribe_ok-After write_to elapsed Published w0 (awaiting_media_ok p) wake p r h)
          (λ x r1 k. record {
            registry = k.registry;
            few = k.few;
            held = k.held;
            placed = k.placed;
            output = k.output;
          })
    resume-Kept wake receiving r h = resume_receiving-Kept wake r h
    resume-Kept wake (finished e) r h = tt
    resume-Kept wake (stopped why) r h = tt
