-- ===== src/Session/Machine.antt =====
-- internal/app/subscriptions.go: `bootstrapFromCatalog`, and internal/app/run.go: `Run` behind the
-- connection. The code between two of its waits is one step: a phase is the wait at which it stands.
use moqsub.Common.{ℕ, String, List, [], ◌∷◌, Option, none, some, if◌then◌else◌, length}
use moqsub.Common.Result.{Error, wrapped, text, num, Result, ok, err, panic, stuck, ◌>>=◌}
use moqsub.RichLog.{Event, dir_local}
use moqsub.Registry.{TrackRole, role_catalog, role_init, role_media, Pointer}
use moqsub.Catalog.{
  CatalogRoot, catalog_track_name, parse_catalog, resolve_media_track, init_track_name,
}
use moqsub.Runner.{Runner, Outcome, add_uint64, fmt, field, rich_add, count_written, write_payload}
use moqsub.Runner.Control.{is_canceled, is_stream_error}
use moqsub.Runner.Steps.{subscribe}
use moqsub.Session.{Url, Streams}
use moqsub.Session.Setup.{send_client_setup}
use moqsub.Session.Subscribe.{send_subscribe_message}
use moqsub.Session.Waits.{
  Wake, received, timed_out, done, failed, wait_subscribe_ok, wait_first_object,
}

-- Why the main goroutine goes no further: a run-time panic, or a call that never returns, such as the
-- opening of a stream for which the relay gives no credit.
pub data Stop : Type 0 where
  by_panic by_call : Stop

-- `finished` is the return of `Run`, with its error or nil.
pub data Phase : Type 0 where
  awaiting_setup receiving : Phase
  awaiting_catalog_ok awaiting_catalog awaiting_media_ok : Pointer → Phase
  awaiting_init_ok awaiting_init : Pointer → (init media : List ℕ) → Phase
  finished : Option Error → Phase
  stopped : Stop → Phase

-- What a catalog is read for: its tracks, and the media and init tracks that are chosen.
unfoldable pub choose_tracks :
    (List ℕ → Result CatalogRoot) → List ℕ → Result (CatalogRoot × List ℕ × List ℕ)
choose_tracks unmarshal payload = do
  root ← parse_catalog unmarshal payload
  media ← resolve_media_track root []
  ok (root, media, init_track_name root media)

-- `formatCatalogJSON`: the bytes themselves where `json.Indent` fails.
unfoldable pub format_catalog_json : (List ℕ → Option (List ℕ)) → List ℕ → List ℕ
format_catalog_json indent payload = elim (indent payload) [ none ↦ payload | some pretty ↦ pretty ]

unfoldable pub catalog_event : (body payload : List ℕ) → CatalogRoot → (media init : List ℕ) → Event
catalog_event body payload root media init = record {
  dir = dir_local;
  channel = fmt "catalog" [];
  name = "CATALOG PARSED";
  summary =
      fmt "%d track(s) · init %s · media %s"
        (num (length root.tracks) ∷ text init ∷ text media ∷ []);
  fields =
      field "catalog_bytes" "%d" (num (length payload) ∷ [])
      ∷ field "namespace" "%s" (text root.common_track_fields.namespace ∷ [])
      ∷ field "packaging" "%s" (text root.common_track_fields.packaging ∷ [])
      ∷ field "init_track" "%s" (text init ∷ [])
      ∷ field "media_track" "%s" (text media ∷ [])
      ∷ [];
  body = body;
  objects = none;
}

unfoldable pub init_event : (init payload : List ℕ) → Event
init_event init payload = record {
  dir = dir_local;
  channel = fmt "output sink" [];
  name = "INIT SEGMENT WRITTEN";
  summary = fmt "track %s · %d bytes to output" (text init ∷ num (length payload) ∷ []);
  fields =
      field "track" "%s" (text init ∷ []) ∷ field "bytes" "%d" (num (length payload) ∷ []) ∷ [];
  body = [];
  objects = none;
}

module _ {W : Type 0} where
  -- The phase behind a call of which `Run` returns the error as it is.
  unfoldable pub after_send : Phase → Outcome W → Phase × Runner W
  after_send phase (r, ok x) = (phase, r)
  after_send phase (r, err e) = (finished (some e), r)
  after_send phase (r, panic) = (stopped by_panic, r)
  after_send phase (r, stuck) = (stopped by_call, r)

  -- What follows a wait, of which the error is wrapped.
  unfoldable pub after_wait :
      {A : Type 0}
      → String
      → (A → Runner W → Phase × Runner W)
      → Option (Runner W × Result A)
      → Option (Phase × Runner W)
  after_wait f k none = none
  after_wait f k (some (r, ok x)) = some (k x r)
  after_wait f k (some (r, err e)) = some (finished (some (wrapped f [] e)), r)
  after_wait f k (some (r, panic)) = some (stopped by_panic, r)
  after_wait f k (some (r, stuck)) = some (stopped by_call, r)

  -- The loop of `Run`: the reset of a stream is counted.
  unfoldable pub on_failure : Error → Runner W → Phase × Runner W
  on_failure e r =
      if is_canceled e
      then (finished none, r)
      else if is_stream_error e
      then (let st = record (r.stats) { stream_resets = add_uint64 r.stats.stream_resets 1 } in
          (receiving, record r { stats = st }))
      else (finished (some e), r)

  unfoldable pub resume_receiving : Wake → Runner W → Option (Phase × Runner W)
  resume_receiving received r = none
  resume_receiving timed_out r = none
  resume_receiving (done e) r = some (finished none, r)
  resume_receiving (failed e) r = some (on_failure e r)

module _ {W : Type 0} (write_to : List ℕ → W → Option Error × W) (elapsed : ℕ → ℕ) (net : Streams)
    (unmarshal : List ℕ → Result CatalogRoot) (indent : List ℕ → Option (List ℕ)) where
  -- `newTrackSubscription` and `sendSubscribeMessage`, up to the wait for the answer.
  unfoldable pub subscribe_then :
      (Pointer → Phase) → (track_name : List ℕ) → TrackRole → Runner W → Phase × Runner W
  subscribe_then next track_name role r =
      after_send (next (length r.subs.heap))
        (send_subscribe_message net (length r.subs.heap) (subscribe track_name role r))

  unfoldable pub start_bootstrap : Runner W → Phase × Runner W
  start_bootstrap r = subscribe_then (λ p. awaiting_catalog_ok p) catalog_track_name role_catalog r

  -- Behind the catalog's payload.
  unfoldable pub after_choice :
      List ℕ → Result (CatalogRoot × List ℕ × List ℕ) → Runner W → Phase × Runner W
  after_choice payload (ok (root, media, init)) r =
      subscribe_then (λ p. awaiting_init_ok p init media) init role_init
        (rich_add (catalog_event (format_catalog_json indent payload) payload root media init) r)
  after_choice payload (err e) r = (finished (some e), r)
  after_choice payload panic r = (stopped by_panic, r)
  after_choice payload stuck r = (stopped by_call, r)

  -- Behind the write of the init segment.
  unfoldable pub after_init_write :
      (init media payload : List ℕ) → Option Error × Runner W → Phase × Runner W
  after_init_write init media payload (some e, r) =
      (finished (some (wrapped "write init: %w" [] e)), r)
  after_init_write init media payload (none, r) =
      subscribe_then (λ p. awaiting_media_ok p) media role_media
        (rich_add (init_event init payload)
          (record r { stats = count_written (length payload) r.stats }))

  unfoldable pub resume_setup : Wake → Runner W → Option (Phase × Runner W)
  resume_setup received r = if r.peer_setup_seen then some (start_bootstrap r) else none
  resume_setup timed_out r = some (start_bootstrap r)
  resume_setup (done e) r = some (finished (some e), r)
  resume_setup (failed e) r = none

  -- From one wait to the next: `none` where the case of the `select` cannot be taken.
  unfoldable pub resume : Wake → Phase → Runner W → Option (Phase × Runner W)
  resume wake awaiting_setup r = resume_setup wake r
  resume wake (awaiting_catalog_ok p) r =
      after_wait "catalog subscribe: %w" (λ x r1. (awaiting_catalog p, r1))
        (wait_subscribe_ok wake p r)
  resume wake (awaiting_catalog p) r =
      after_wait "catalog object: %w"
        (λ payload r1. after_choice payload (choose_tracks unmarshal payload) r1)
        (wait_first_object wake p r)
  resume wake (awaiting_init_ok p init media) r =
      after_wait "init subscribe: %w" (λ x r1. (awaiting_init p init media, r1))
        (wait_subscribe_ok wake p r)
  resume wake (awaiting_init p init media) r =
      after_wait "init object: %w"
        (λ payload r1.
          after_init_write init media payload (write_payload write_to elapsed payload r1))
        (wait_first_object wake p r)
  resume wake (awaiting_media_ok p) r =
      after_wait "media subscribe: %w" (λ x r1. (receiving, r1)) (wait_subscribe_ok wake p r)
  resume wake receiving r = resume_receiving wake r
  resume wake (finished e) r = none
  resume wake (stopped why) r = none

  -- `Run` behind the connection and the output.
  unfoldable pub begin : Url → Runner W → Phase × Runner W
  begin url r = after_send awaiting_setup (send_client_setup net url r)
