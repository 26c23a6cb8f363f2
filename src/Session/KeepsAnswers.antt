-- ===== src/Session/KeepsAnswers.antt =====
-- What the goroutines of the request streams and of the control stream keep of a session's registry and
-- its output.
use moqsub.Common.{ℕ, ◌<◌, ◌≡◌, refl, inl, inr, List, Bool-cases, Option, ◌==◌, length}
use moqsub.Common.Result.{Error, Result, ok, err, panic, stuck}
use moqsub.Message.{
  SubscribeOkMessage, RequestErrorMessage, decode_subscribe_ok, decode_request_error,
}
use moqsub.Registry.{TrackRole, TrackSubscription, Pointer, SubscriptionRegistry}
use moqsub.Runner.{Runner, change_sub, rich_add}
use moqsub.Runner.Requests.{
  msg_subscribe_ok, msg_request_error, on_subscribe_ok, on_request_error, on_request_message,
}
use moqsub.KeyValue.{SetupMessage, decode_setup}
use moqsub.Runner.Control.{msg_setup, msg_go_away, on_setup, dispatch_control_message}
use moqsub.Session.Keeps.{Stable, offer_result-Quiet}

module _ {W : Type 0} (write_to : List ℕ → W → Option Error × W) (elapsed : ℕ → ℕ)
    (Published : TrackRole → List ℕ → Type 0) (Q : SubscriptionRegistry → W → Type 0)
    (stable : Stable write_to Published Q) where
  on_subscribe_ok-keeps :
      (stream_id : ℕ) (p : Pointer) (sub : TrackSubscription) (m : Result SubscribeOkMessage)
      (r : Runner W)
      → p < length r.subs.heap
      → Q r.subs r.sink
      → Q (on_subscribe_ok stream_id p sub m r).1.subs (on_subscribe_ok stream_id p sub m r).1.sink
  unfolding on_subscribe_ok rich_add change_sub
  on_subscribe_ok-keeps stream_id p sub (ok msg) r lt h =
      stable.changed _ p _ _ (offer_result-Quiet _) (stable.bound p msg.track_alias r.subs _ lt h)
  on_subscribe_ok-keeps stream_id p sub (err e) r lt h = h
  on_subscribe_ok-keeps stream_id p sub panic r lt h = h
  on_subscribe_ok-keeps stream_id p sub stuck r lt h = h

  on_request_error-keeps :
      (p : Pointer) (sub : TrackSubscription) (m : Result RequestErrorMessage) (r : Runner W)
      → Q r.subs r.sink
      → Q (on_request_error p sub m r).1.subs (on_request_error p sub m r).1.sink
  unfolding on_request_error rich_add change_sub
  on_request_error-keeps p sub (ok msg) r h = stable.changed _ p _ _ (offer_result-Quiet _) h
  on_request_error-keeps p sub (err e) r h = h
  on_request_error-keeps p sub panic r h = h
  on_request_error-keeps p sub stuck r h = h

  pub on_request_message-keeps :
      (stream_id : ℕ) (p : Pointer) (sub : TrackSubscription) (msg_type : ℕ) (payload : List ℕ)
      (r : Runner W)
      → p < length r.subs.heap
      → Q r.subs r.sink
      → Q
          (on_request_message stream_id p sub msg_type payload r).1.subs
          (on_request_message stream_id p sub msg_type payload r).1.sink
  unfolding on_request_message
  on_request_message-keeps stream_id p sub t payload r lt h =
      elim (Bool-cases (t == msg_subscribe_ok)) [
        | inl e ↦ rw e (on_subscribe_ok-keeps stream_id p sub (decode_subscribe_ok payload) r lt h)
        | inr e ↦ elim (Bool-cases (t == msg_request_error)) [
          | inl e1 ↦ rw (e, e1) (on_request_error-keeps p sub (decode_request_error payload) r h)
          | inr e1 ↦ rw (e, e1) h
        ]
      ]

module _ {W : Type 0} where
  on_setup_sink : (m : Result SetupMessage) (r : Runner W) → (on_setup m r).0.sink ≡ r.sink
  unfolding on_setup rich_add
  on_setup_sink (ok m) r = refl
  on_setup_sink (err e) r = refl
  on_setup_sink panic r = refl
  on_setup_sink stuck r = refl

  pub dispatch_control_message_sink :
      (t : ℕ) (payload : List ℕ) (r : Runner W)
      → (dispatch_control_message t payload r).0.sink ≡ r.sink
  unfolding dispatch_control_message rich_add
  dispatch_control_message_sink t payload r = elim (Bool-cases (t == msg_setup)) [
    | inl e ↦ rw e (on_setup_sink (decode_setup payload) r)
    | inr e ↦ elim (Bool-cases (t == msg_go_away)) [
      | inl e1 ↦ rw (e, e1) refl
      | inr e1 ↦ rw (e, e1) refl
    ]
  ]
