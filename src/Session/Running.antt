-- ===== src/Session/Running.antt =====
-- Between its waits the main goroutine calls what returns.
use moqsub.Common.{
  ℕ, inl, inr, List, [], Bool, true, false, not, Bool-cases, Option, none, some, Option-cases,
  if◌then◌else◌, ◌==◌, length,
}
use moqsub.Common.Result.{Error, Result, ok, err, panic, stuck, Ends, Ends-bind, Ends-wrap}
use moqsub.Registry.{
  TrackRole, TrackSubscription, Pointer, alloc_request_id, register, new_track_subscription,
}
use moqsub.Catalog.{
  CatalogRoot, parse_catalog, is_empty, first_video, first_other, resolve_media_track,
}
use moqsub.Runner.{Runner, write_payload}
use moqsub.Runner.Steps.{subscribe}
use moqsub.Runner.Control.{is_canceled, is_stream_error}
use moqsub.Session.{Url, Streams}
use moqsub.Session.Setup.{send_client_setup}
use moqsub.Session.Waits.{
  Wake, received, timed_out, done, failed, wait_subscribe_ok, wait_first_object,
}
use moqsub.Session.Machine.{
  Phase, awaiting_setup, receiving, stopped, awaiting_catalog_ok, awaiting_catalog,
  awaiting_media_ok, awaiting_init_ok, awaiting_init, finished, choose_tracks, subscribe_then,
  start_bootstrap, after_choice, after_init_write, on_failure, resume_receiving, resume_setup,
  resume, begin,
}
use moqsub.Session.Heap.{RoleAt-last}
use moqsub.Session.Subscribed.{send_subscribe_message-keeps}
use moqsub.Session.Sends.{Answers, send_subscribe_message-Ends, send_client_setup-Ends}
use moqsub.Session.NoPanic.{
  At, Stands, StandsAt, IfStands, after_send-Stands, after_wait-Stands, wait_subscribe_ok-Calm,
  wait_first_object-Calm,
}

parse_catalog-Ends :
    (unmarshal : List ℕ → Result CatalogRoot) (payload : List ℕ)
    → Ends (unmarshal payload)
    → Ends (parse_catalog unmarshal payload)
unfolding parse_catalog
parse_catalog-Ends unmarshal payload h =
    Ends-bind _ _ (Ends-wrap "parse catalog json: %w" [] (unmarshal payload) h)
      (λ root _. elim (Bool-cases (not (root.version == 1))) [ inl e ↦ rw e tt | inr e ↦ rw e tt ])

resolve_media_track-Ends : (root : CatalogRoot) → Ends (resolve_media_track root [])
unfolding resolve_media_track is_empty
resolve_media_track-Ends root = elim (Option-cases (first_video root.tracks)) [
  | inr (name, e) ↦ rw (Ends, e) tt
  | inl e ↦ elim (Option-cases (first_other root.tracks)) [
    | inr (name, e1) ↦ rw (Ends, e, e1) tt
    | inl e1 ↦ rw (Ends, e, e1) tt
  ]
]

choose_tracks-Ends :
    (unmarshal : List ℕ → Result CatalogRoot) (payload : List ℕ)
    → Ends (unmarshal payload)
    → Ends (choose_tracks unmarshal payload)
unfolding choose_tracks
choose_tracks-Ends unmarshal payload h =
    Ends-bind _ _ (parse_catalog-Ends unmarshal payload h)
      (λ root _. Ends-bind _ _ (resolve_media_track-Ends root) (λ media _. tt))

module _ {W : Type 0} (write_to : List ℕ → W → Option Error × W) (elapsed : ℕ → ℕ) (net : Streams)
    (unmarshal : List ℕ → Result CatalogRoot) (indent : List ℕ → Option (List ℕ))
    (control : Answers net.open_control) (opens : (n : ℕ) → Answers (net.open_request n))
    (decodes : (payload : List ℕ) → Ends (unmarshal payload)) where
  subscribe_then-Stands :
      (next : Pointer → Phase) (name : List ℕ) (role : TrackRole) (r : Runner W)
      → ((p : Pointer) (heap : List TrackSubscription) → At p heap → Stands (next p) heap)
      → StandsAt (subscribe_then write_to elapsed net unmarshal indent next name role r)
  unfolding subscribe_then subscribe new_track_subscription alloc_request_id register
  subscribe_then-Stands next name role r stands =
      let (sub, at, _) = RoleAt-last r.subs.heap _ in
      after_send-Stands (next (length r.subs.heap)) _
        (send_subscribe_message-Ends net (length r.subs.heap) (subscribe name role r) sub at
          (opens (length r.sent)))
        (rw (send_subscribe_message-keeps net (length r.subs.heap) (subscribe name role r)).0
          (stands (length r.subs.heap) _ (sub, at)))

  start_bootstrap-Stands :
      (r : Runner W) → StandsAt (start_bootstrap write_to elapsed net unmarshal indent r)
  unfolding start_bootstrap
  start_bootstrap-Stands r =
      subscribe_then-Stands (λ p. awaiting_catalog_ok p) _ _ r (λ p heap h. unfold Stands in h)

  after_choice-Stands :
      (payload : List ℕ) (choice : Result (CatalogRoot × List ℕ × List ℕ)) (r : Runner W)
      → Ends choice
      → StandsAt (after_choice write_to elapsed net unmarshal indent payload choice r)
  unfolding after_choice Stands
  after_choice-Stands payload (ok (root, media, init)) r h =
      subscribe_then-Stands (λ p. awaiting_init_ok p init media) init _ _ (λ p heap k. k)
  after_choice-Stands payload (err e) r h = tt
  after_choice-Stands payload panic r h = h
  after_choice-Stands payload stuck r h = h

  after_init_write-Stands :
      (init media payload : List ℕ) (o : Option Error × Runner W)
      → StandsAt (after_init_write write_to elapsed net unmarshal indent init media payload o)
  unfolding after_init_write Stands
  after_init_write-Stands init media payload (none, r) =
      subscribe_then-Stands (λ p. awaiting_media_ok p) media _ _ (λ p heap k. k)
  after_init_write-Stands init media payload (some e, r) = tt

  on_failure-Stands : (e : Error) (r : Runner W) → StandsAt (on_failure e r)
  unfolding on_failure Stands
  on_failure-Stands e r = elim (Bool-cases (is_canceled e)) [
    | inl c ↦ rw c tt
    | inr c ↦ elim (Bool-cases (is_stream_error e)) [ inl s ↦ rw (c, s) tt | inr s ↦ rw (c, s) tt ]
  ]

  resume_setup-Stands :
      (wake : Wake) (r : Runner W)
      → IfStands (resume_setup write_to elapsed net unmarshal indent wake r)
  unfolding resume_setup Stands
  resume_setup-Stands received r = either r.peer_setup_seen _ (start_bootstrap-Stands r)
    where
      either :
          (b : Bool) (x : Phase × Runner W) → StandsAt x → IfStands (if b then some x else none)
      either true x h = h
      either false x h = tt
  resume_setup-Stands timed_out r = start_bootstrap-Stands r
  resume_setup-Stands (done e) r = tt
  resume_setup-Stands (failed e) r = tt

  resume_receiving-Stands : (wake : Wake) (r : Runner W) → IfStands (resume_receiving wake r)
  unfolding resume_receiving Stands
  resume_receiving-Stands received r = tt
  resume_receiving-Stands timed_out r = tt
  resume_receiving-Stands (done e) r = tt
  resume_receiving-Stands (failed e) r = on_failure-Stands e r

  pub resume-Stands :
      (wake : Wake) (phase : Phase) (r : Runner W)
      → Stands phase r.subs.heap
      → IfStands (resume write_to elapsed net unmarshal indent wake phase r)
  unfolding resume Stands
  resume-Stands wake awaiting_setup r h = resume_setup-Stands wake r
  resume-Stands wake (awaiting_catalog_ok p) r h =
      after_wait-Stands (λ r1. At p r1.subs.heap) _ _ (wait_subscribe_ok wake p r)
        (wait_subscribe_ok-Calm wake p r h) (λ x r1 k. k)
  resume-Stands wake (awaiting_catalog p) r h =
      after_wait-Stands (λ r1. Unit {0}) _ _ (wait_first_object wake p r)
        (wait_first_object-Calm wake p r h)
        (λ payload r1 k.
          after_choice-Stands payload (choose_tracks unmarshal payload) r1
            (choose_tracks-Ends unmarshal payload (decodes payload)))
  resume-Stands wake (awaiting_init_ok p init media) r h =
      after_wait-Stands (λ r1. At p r1.subs.heap) _ _ (wait_subscribe_ok wake p r)
        (wait_subscribe_ok-Calm wake p r h) (λ x r1 k. k)
  resume-Stands wake (awaiting_init p init media) r h =
      after_wait-Stands (λ r1. Unit {0}) _ _ (wait_first_object wake p r)
        (wait_first_object-Calm wake p r h)
        (λ payload r1 k.
          after_init_write-Stands init media payload (write_payload write_to elapsed payload r1))
  resume-Stands wake (awaiting_media_ok p) r h =
      after_wait-Stands (λ r1. At p r1.subs.heap) _ _ (wait_subscribe_ok wake p r)
        (wait_subscribe_ok-Calm wake p r h) (λ x r1 k. tt)
  resume-Stands wake receiving r h = resume_receiving-Stands wake r
  resume-Stands wake (finished e) r h = tt
  resume-Stands wake (stopped why) r h = tt

  pub begin-Stands :
      (url : Url) (r : Runner W) → StandsAt (begin write_to elapsed net unmarshal indent url r)
  unfolding begin
  begin-Stands url r =
      after_send-Stands awaiting_setup (send_client_setup net url r)
        (send_client_setup-Ends net url r control) (unfold Stands in tt)
