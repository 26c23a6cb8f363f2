-- ===== src/Session/Waits.antt =====
-- internal/app/subscriptions.go: `waitSubscribeOK` and `waitFirstObject`. Which case of a `select` comes is
-- the choice of the run-time system: it is an argument, and a case that cannot come yet gives `none`.
use moqsub.Common.{ℕ, List, [], ◌∷◌, Option, none, some, get_elem?}
use moqsub.Common.Result.{Error, message, text, Result, ok, err, panic}
use moqsub.Registry.{SubscribeResult, TrackSubscription, Pointer}
use moqsub.Runner.{Runner, Outcome, change_sub}

-- The case of a `select` that is taken: the value on the channel, the end of the context with its error,
-- the timer, or an error on `errCh`.
pub data Wake : Type 0 where
  received timed_out : Wake
  done failed : Error → Wake

-- A value is taken from a channel of capacity 1.
unfoldable pub drain_ok : TrackSubscription → TrackSubscription
drain_ok sub = record sub { ok_ch = none }

unfoldable pub drain_object : TrackSubscription → TrackSubscription
drain_object sub = record sub { first_obj_ch = some none }

-- `res.err`, nil or not.
unfoldable pub subscribe_result : SubscribeResult → Result (Unit {0})
subscribe_result res = elim res.failure [ none ↦ ok tt | some e ↦ err e ]

module _ {W : Type 0} where
  unfoldable pub take_ok : Pointer → Option SubscribeResult → Runner W → Option (Outcome W)
  take_ok p none r = none
  take_ok p (some res) r = some (change_sub drain_ok p r, subscribe_result res)

  unfoldable pub wait_ok_of : Wake → Pointer → TrackSubscription → Runner W → Option (Outcome W)
  wait_ok_of received p sub r = take_ok p sub.ok_ch r
  wait_ok_of (done e) p sub r = some (r, err e)
  wait_ok_of timed_out p sub r =
      some (r, err (message "timeout waiting subscribe_ok for %q" (text sub.track_name ∷ [])))
  wait_ok_of (failed e) p sub r = none

  unfoldable pub wait_subscribe_ok : Wake → Pointer → Runner W → Option (Outcome W)
  wait_subscribe_ok wake p r = elim (get_elem? r.subs.heap p) [
    | none ↦ some (r, panic)
    | some sub ↦ wait_ok_of wake p sub r
  ]

  -- A nil channel never has a value.
  unfoldable pub take_object :
      Pointer → Option (Option (List ℕ)) → Runner W → Option (Runner W × Result (List ℕ))
  take_object p none r = none
  take_object p (some none) r = none
  take_object p (some (some payload)) r = some (change_sub drain_object p r, ok payload)

  unfoldable pub wait_object_of :
      Wake → Pointer → TrackSubscription → Runner W → Option (Runner W × Result (List ℕ))
  wait_object_of received p sub r = take_object p sub.first_obj_ch r
  wait_object_of (done e) p sub r = some (r, err e)
  wait_object_of timed_out p sub r =
      some (r, err (message "timeout waiting first object for %q" (text sub.track_name ∷ [])))
  wait_object_of (failed e) p sub r = none

  unfoldable pub wait_first_object : Wake → Pointer → Runner W → Option (Runner W × Result (List ℕ))
  wait_first_object wake p r = elim (get_elem? r.subs.heap p) [
    | none ↦ some (r, panic)
    | some sub ↦ wait_object_of wake p sub r
  ]
