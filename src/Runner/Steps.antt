-- ===== src/Runner/Steps.antt =====
-- The goroutines of a session as steps on its state, in any order: a subscription is made, a stream's loop
-- takes one object or one message. Between two steps of one stream any others may come.
use moqsub.Common.{ℕ, ◌^◌, ◌<◌, ◌≡◌, List, Option, length}
use moqsub.Common.Result.{Error}
use moqsub.Subgroup.{SubgroupHeader, SubgroupObject}
use moqsub.Registry.{
  TrackRole, TrackSubscription, Pointer, new_subscription_registry, new_track_subscription,
}
use moqsub.Registry.Laws.{
  IsRegistry, new_subscription_registry-IsRegistry, new_track_subscription-IsRegistry,
}
use moqsub.Runner.{Runner}
use moqsub.Runner.Keeps.{
  receive_object-IsRegistry, on_request_message-IsRegistry, dispatch_control_message_subs,
}
use moqsub.Runner.Subgroups.{receive_object}
use moqsub.Runner.Requests.{on_request_message}
use moqsub.Runner.Control.{dispatch_control_message}

-- `Runner.newTrackSubscription`
unfoldable pub subscribe : {W : Type 0} → (track_name : List ℕ) → TrackRole → Runner W → Runner W
subscribe track_name role r = record r {
  subs = (new_track_subscription r.namespace track_name role r.subs).1;
}

module _ {W : Type 0} (write_to : List ℕ → W → Option Error × W) (elapsed : ℕ → ℕ) where
  -- A state behind any number of steps from one with an empty registry.
  pub data Reachable : Runner W → Type 0 where
    start : (r : Runner W) → r.subs ≡ new_subscription_registry → Reachable r
    subscribed :
        (r : Runner W) (track_name : List ℕ) (role : TrackRole)
        → Reachable r
        → length r.subs.heap < 2 ^ 63
        → Reachable (subscribe track_name role r)
    object :
        (r : Runner W) (stream_id : ℕ) (header : SubgroupHeader) (sub : Option Pointer)
        (obj : SubgroupObject)
        → Reachable r
        → Reachable ((receive_object write_to elapsed stream_id header sub obj r).0)
    request_message :
        (r : Runner W) (stream_id : ℕ) (p : Pointer) (sub : TrackSubscription) (msg_type : ℕ)
        (payload : List ℕ)
        → Reachable r
        → p < length r.subs.heap
        → Reachable ((on_request_message stream_id p sub msg_type payload r).1)
    control_message :
        (r : Runner W) (msg_type : ℕ) (payload : List ℕ)
        → Reachable r
        → Reachable ((dispatch_control_message msg_type payload r).0)

  -- In every order of the steps, with fewer than 2^63 subscriptions before each new one, the
  -- registry stays well-formed: subscription k has request ID 2 k and is registered under it, and
  -- aliases are bound to subscriptions that exist.
  pub Reachable-IsRegistry : (r : Runner W) → Reachable r → IsRegistry r.subs
  unfolding subscribe
  Reachable-IsRegistry r (start _ e) = rw e new_subscription_registry-IsRegistry
  Reachable-IsRegistry r (subscribed q name role h small) =
      unfold subscribe in
      new_track_subscription-IsRegistry q.namespace name role q.subs (Reachable-IsRegistry q h)
        small
  Reachable-IsRegistry r (object q stream_id header sub obj h) =
      receive_object-IsRegistry write_to elapsed stream_id header sub obj q
        (Reachable-IsRegistry q h)
  Reachable-IsRegistry r (request_message q stream_id p sub t payload h lt) =
      on_request_message-IsRegistry stream_id p sub t payload q lt (Reachable-IsRegistry q h)
  Reachable-IsRegistry r (control_message q t payload h) =
      rw dispatch_control_message_subs (Reachable-IsRegistry q h)
