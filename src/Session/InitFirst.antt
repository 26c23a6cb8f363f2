-- ===== src/Session/InitFirst.antt =====
-- What every order of a session's steps keeps.
use moqsub.Common.{ℕ, ◌≤◌, ◌≡◌, inl, inr, refl, subst, List, Option, length, arith}
use moqsub.Common.Result.{Error, Result}
use moqsub.Registry.{TrackRole, SubscriptionRegistry, new_subscription_registry}
use moqsub.Registry.Laws.{IsRegistry, new_subscription_registry-IsRegistry}
use moqsub.Catalog.{CatalogRoot}
use moqsub.Runner.{Runner}
use moqsub.Runner.Keeps.{dispatch_control_message_subs}
use moqsub.Session.{Url, Streams}
use moqsub.Session.Setup.{send_client_setup}
use moqsub.Session.Start.{new_runner, start-AtSession}
use moqsub.Session.Machine.{
  Phase, awaiting_setup, receiving, stopped, awaiting_catalog_ok, awaiting_catalog,
  awaiting_media_ok, awaiting_init_ok, awaiting_init, finished, begin,
}
use moqsub.Session.Keeps.{receive_object-keeps}
use moqsub.Session.KeepsAnswers.{on_request_message-keeps, dispatch_control_message_sink}
use moqsub.Session.Reach.{
  made, Placed, Silent, Written, Output, Kept, Reach, began, resumed, object, request_message,
  control_message,
}
use moqsub.Session.Kept.{Kept-Stable}
use moqsub.Session.Subscribed.{KeptAt, after_send-Kept, send_client_setup-keeps, made_few}
use moqsub.Session.Waited.{IfKept}
use moqsub.Session.Moves.{resume-Kept}

module _ {W : Type 0} (write_to : List ℕ → W → Option Error × W) (elapsed : ℕ → ℕ)
    (Published : TrackRole → List ℕ → Type 0) (w0 : W) where
  new-Kept : Kept write_to elapsed Published w0 awaiting_setup new_subscription_registry w0
  unfolding made Placed Output Silent
  new-Kept = record {
    registry = new_subscription_registry-IsRegistry;
    few = omega arith;
    held = tt;
    placed = tt;
    output = (tt, refl);
  }

  Output-Written :
      (phase : Phase) (reg : SubscriptionRegistry) (w : W)
      → Output write_to elapsed Published w0 phase reg.heap w
      → Written write_to elapsed Published w0 phase w
  unfolding Output Written Silent
  Output-Written awaiting_setup reg w h = h.1
  Output-Written (awaiting_catalog_ok p) reg w h = h.1
  Output-Written (awaiting_catalog p) reg w h = h.1
  Output-Written (awaiting_init_ok p init media) reg w h = h.1
  Output-Written (awaiting_init p init media) reg w h = h.1
  Output-Written (awaiting_media_ok p) reg w h = h
  Output-Written receiving reg w h = h
  Output-Written (finished e) reg w (inl h) = inl h.1
  Output-Written (finished e) reg w (inr h) = inr h
  Output-Written (stopped why) reg w (inl h) = inl h.1
  Output-Written (stopped why) reg w (inr h) = inr h

  module _ (net : Streams) (unmarshal : List ℕ → Result CatalogRoot)
      (indent : List ℕ → Option (List ℕ)) where
    begin-Kept :
        (url : Url) (r : Runner W)
        → r.subs ≡ new_subscription_registry
        → r.sink ≡ w0
        → KeptAt write_to elapsed Published w0 (begin write_to elapsed net unmarshal indent url r)
    unfolding begin
    begin-Kept url r subs sink =
        after_send-Kept write_to elapsed Published w0 awaiting_setup (send_client_setup net url r) (
          rw
            (
              (send_client_setup-keeps net url r).0,
              (send_client_setup-keeps net url r).1,
              subs,
              sink,
            )
            new-Kept)

    Reach-Kept :
        (phase : Phase) (r : Runner W)
        → Reach write_to elapsed Published w0 net unmarshal indent phase r
        → Kept write_to elapsed Published w0 phase r.subs r.sink
    unfolding new_runner
    Reach-Kept phase r (began cfg dialed _ _ e) =
        start-AtSession write_to elapsed net unmarshal indent (KeptAt write_to elapsed Published w0)
          w0 (λ url c rich. begin-Kept url (new_runner c rich w0) refl refl) cfg dialed phase r e
    Reach-Kept phase r (resumed wake from to r0 r1 h e) =
        subst (IfKept write_to elapsed Published w0) e (
          resume-Kept write_to elapsed Published w0 net unmarshal indent wake from r0
            (Reach-Kept from r0 h))
    Reach-Kept phase r (object _ r0 stream_id header sub obj h new) =
        receive_object-keeps write_to elapsed Published (Kept write_to elapsed Published w0 phase)
          (Kept-Stable write_to elapsed Published w0 phase) stream_id header sub obj r0 new
          (Reach-Kept phase r0 h)
    Reach-Kept phase r (request_message _ r0 stream_id p sub t payload h lt) =
        on_request_message-keeps write_to elapsed Published
          (Kept write_to elapsed Published w0 phase)
          (Kept-Stable write_to elapsed Published w0 phase) stream_id p sub t payload r0 lt
          (Reach-Kept phase r0 h)
    Reach-Kept phase r (control_message _ r0 t payload h) =
        rw (dispatch_control_message_subs, dispatch_control_message_sink) (Reach-Kept phase r0 h)

    -- In every order of a session's steps, from the start of `Run` on: up to the end of the wait for
    -- the init segment nothing is written; from then on what was written first is an object that the
    -- relay sent on an init track, and all that follows are objects that it sent on media tracks.
    -- Behind the end of `Run`, with an error, without one, in a panic or in a call that never returns, one
    -- of the two holds.
    pub Reach-Written :
        (phase : Phase) (r : Runner W)
        → Reach write_to elapsed Published w0 net unmarshal indent phase r
        → Written write_to elapsed Published w0 phase r.sink
    Reach-Written phase r h = Output-Written phase r.subs r.sink (Reach-Kept phase r h).output

    -- In every order of a session's steps the registry stays well-formed, with at most three
    -- subscriptions: number k has request ID 2 k and is registered under it, and aliases are bound to
    -- subscriptions that exist.
    pub Reach-IsRegistry :
        (phase : Phase) (r : Runner W)
        → Reach write_to elapsed Published w0 net unmarshal indent phase r
        → IsRegistry r.subs × (length r.subs.heap ≤ 3)
    Reach-IsRegistry phase r h =
        let kept = Reach-Kept phase r h in
        let few = kept.few in
        let bound = made_few phase in (kept.registry, omega (arith, few, bound))
