-- ===== src/Session/Subscribed.antt =====
-- What is kept where `Run` subscribes to a track, and where it ends.
use moqsub.Common.{
  ℕ, suc, ◌≤◌, ◌≡◌, ◌⊎◌, inl, inr, refl, List, [], ◌∷◌, ◌++◌, Option, none, some, Option-cases, All,
  arith, length, get_elem?, false,
}
use moqsub.Common.Result.{Error, Result, ok, err, panic, stuck, Result-cases}
use moqsub.Frame.{Writer}
use moqsub.Registry.{
  TrackRole, TrackSubscription, Pointer, alloc_request_id, register, new_track_subscription,
  first_object_channel,
}
use moqsub.Registry.Laws.{IsRegistry, new_track_subscription-IsRegistry, length-snoc}
use moqsub.Catalog.{CatalogRoot}
use moqsub.Runner.{Runner, Outcome, rich_add}
use moqsub.Runner.Steps.{subscribe}
use moqsub.Session.{Url, Streams}
use moqsub.Session.Setup.{client_path, after_setup, send_client_setup}
use moqsub.Session.Subscribe.{after_subscribe, send_subscribe_message}
use moqsub.Session.Machine.{
  Stop, by_panic, by_call, Phase, awaiting_setup, receiving, stopped, awaiting_catalog_ok,
  awaiting_catalog, awaiting_media_ok, awaiting_init_ok, awaiting_init, finished, after_send,
  subscribe_then,
}
use moqsub.Session.Heap.{Holds, All-append_one, Holds-new}
use moqsub.Session.Reach.{made, Placed, InitFirst, Silent, Output, Kept}

pub made_few : (phase : Phase) → made phase ≤ 3
unfolding made
made_few awaiting_setup = omega arith
made_few (awaiting_catalog_ok p) = omega arith
made_few (awaiting_catalog p) = omega arith
made_few (awaiting_init_ok p init media) = omega arith
made_few (awaiting_init p init media) = omega arith
made_few (awaiting_media_ok p) = omega arith
made_few receiving = omega arith
made_few (finished e) = omega arith
made_few (stopped why) = omega arith

module _ {W : Type 0} (net : Streams) where
  after_subscribe-keeps :
      (sub : TrackSubscription) (m : Result Writer) (r : Runner W)
      → ((after_subscribe net sub m r).0.subs ≡ r.subs)
        × ((after_subscribe net sub m r).0.sink ≡ r.sink)
  unfolding after_subscribe rich_add
  after_subscribe-keeps sub (ok written) r = (refl, refl)
  after_subscribe-keeps sub (err e) r = (refl, refl)
  after_subscribe-keeps sub panic r = (refl, refl)
  after_subscribe-keeps sub stuck r = (refl, refl)

  pub send_subscribe_message-keeps :
      (p : Pointer) (r : Runner W)
      → ((send_subscribe_message net p r).0.subs ≡ r.subs)
        × ((send_subscribe_message net p r).0.sink ≡ r.sink)
  unfolding send_subscribe_message
  send_subscribe_message-keeps p r = elim (Option-cases (get_elem? r.subs.heap p)) [
    | inl e ↦ rw (send_subscribe_message, e) (refl, refl)
    | inr (sub, e) ↦ rw (send_subscribe_message, e) (after_subscribe-keeps sub _ r)
  ]

  after_setup-keeps :
      (path authority : List ℕ) (stream : Writer) (m : Result Writer) (r : Runner W)
      → ((after_setup net path authority stream m r).0.subs ≡ r.subs)
        × ((after_setup net path authority stream m r).0.sink ≡ r.sink)
  unfolding after_setup rich_add
  after_setup-keeps path authority stream (ok written) r = (refl, refl)
  after_setup-keeps path authority stream (err e) r = (refl, refl)
  after_setup-keeps path authority stream panic r = (refl, refl)
  after_setup-keeps path authority stream stuck r = (refl, refl)

  pub send_client_setup-keeps :
      (url : Url) (r : Runner W)
      → ((send_client_setup net url r).0.subs ≡ r.subs)
        × ((send_client_setup net url r).0.sink ≡ r.sink)
  unfolding send_client_setup
  send_client_setup-keeps url r = elim (Result-cases net.open_control) [
    | inl (stream, e) ↦
        rw (send_client_setup, e) (after_setup-keeps (client_path url) url.host stream _ r)
    | inr (inl (x, e)) ↦ rw (send_client_setup, e) (refl, refl)
    | inr (inr (inl e)) ↦ rw (send_client_setup, e) (refl, refl)
    | inr (inr (inr e)) ↦ rw (send_client_setup, e) (refl, refl)
  ]

module _ {W : Type 0} (write_to : List ℕ → W → Option Error × W) (elapsed : ℕ → ℕ)
    (Published : TrackRole → List ℕ → Type 0) (w0 : W) where
  -- A phase and a state that fits it.
  abbrev pub KeptAt : Phase × Runner W → Type 0
  KeptAt (phase, r) = Kept write_to elapsed Published w0 phase r.subs r.sink

  Output-either :
      (phase : Phase) (heap : List TrackSubscription) (w : W)
      → Output write_to elapsed Published w0 phase heap w
      → Silent write_to elapsed Published w0 heap w ⊎ InitFirst write_to elapsed Published w0 w
  unfolding Output
  Output-either awaiting_setup heap w h = inl h
  Output-either (awaiting_catalog_ok p) heap w h = inl h
  Output-either (awaiting_catalog p) heap w h = inl h
  Output-either (awaiting_init_ok p init media) heap w h = inl h
  Output-either (awaiting_init p init media) heap w h = inl h
  Output-either (awaiting_media_ok p) heap w h = inr h
  Output-either receiving heap w h = inr h
  Output-either (finished e) heap w h = h
  Output-either (stopped why) heap w h = h

  -- Every phase may end, in an error, in a panic or in a call that never returns.
  pub finished-Kept :
      (phase : Phase) (e : Option Error) (r : Runner W)
      → KeptAt (phase, r)
      → KeptAt (finished e, r) × ((why : Stop) → KeptAt (stopped why, r))
  unfolding made Placed Output
  finished-Kept phase e r h =
      let few = h.few in
      let bound = made_few phase in
      let out = Output-either phase r.subs.heap r.sink h.output in
      (
        record {
          registry = h.registry;
          few = omega (arith, few, bound);
          held = h.held;
          placed = tt;
          output = out;
        },
        λ why. record {
          registry = h.registry;
          few = omega (arith, few, bound);
          held = h.held;
          placed = tt;
          output = out;
        },
      )

  pub after_send-Kept :
      (phase : Phase) (o : Outcome W) → KeptAt (phase, o.0) → KeptAt (after_send phase o)
  unfolding after_send
  after_send-Kept phase (r, ok x) h = h
  after_send-Kept phase (r, err e) h = (finished-Kept phase (some e) r h).0
  after_send-Kept phase (r, panic) h = (finished-Kept phase none r h).1 by_panic
  after_send-Kept phase (r, stuck) h = (finished-Kept phase none r h).1 by_call

  -- The subscription that is made.
  abbrev pub new_one : TrackRole → List ℕ → Runner W → TrackSubscription
  new_one role name r = record {
    request_id = r.subs.next_id;
    namespace = r.namespace;
    track_name = name;
    role = role;
    ok_ch = none;
    first_obj_ch = first_object_channel role;
    got_first = false;
  }

  pub subscribe_then-Kept :
      (net : Streams) (unmarshal : List ℕ → Result CatalogRoot) (indent : List ℕ → Option (List ℕ))
      (next : Pointer → Phase) (name : List ℕ) (role : TrackRole) (r : Runner W)
      → IsRegistry r.subs
      → suc (length r.subs.heap) ≤ made (next (length r.subs.heap))
      → All (Holds Published) r.subs.heap
      → Placed (next (length r.subs.heap)) (r.subs.heap ++ new_one role name r ∷ [])
      → Output write_to elapsed Published w0
          (next (length r.subs.heap))
          (r.subs.heap ++ new_one role name r ∷ [])
          r.sink
      → KeptAt (subscribe_then write_to elapsed net unmarshal indent next name role r)
  unfolding subscribe_then subscribe new_track_subscription alloc_request_id register
  subscribe_then-Kept net unmarshal indent next name role r reg few held placed output =
      after_send-Kept (next (length r.subs.heap)) _ (
        let bound = made_few (next (length r.subs.heap)) in
        rw ((send_subscribe_message-keeps net _ _).0, (send_subscribe_message-keeps net _ _).1)
          (record {
            registry =
                new_track_subscription-IsRegistry r.namespace name role r.subs reg
                  (omega (arith, few, bound));
            few = rw (length-snoc) few;
            held = All-append_one _ r.subs.heap _ held (λ x. Holds-new Published role x);
            placed = placed;
            output = output;
          }))
