-- ===== src/Runner/Keeps.antt =====
-- The steps of a session keep the registry well-formed.
use moqsub.Common.{
  ℕ, ◌<◌, ◌≡◌, refl, inl, inr, List, Bool, true, false, not, Bool-cases, Option, none, some,
  Option-cases, ◌==◌, if◌then◌else◌, length, get_elem?,
}
use moqsub.Common.Result.{Error, Result, ok, err, panic, stuck}
use moqsub.KeyValue.{SetupMessage, decode_setup}
use moqsub.Message.{
  SubscribeOkMessage, RequestErrorMessage, decode_subscribe_ok, decode_request_error,
}
use moqsub.Subgroup.{SubgroupHeader, SubgroupObject}
use moqsub.Registry.{
  TrackRole, role_catalog, role_init, role_media, TrackSubscription, Pointer, keep_first,
  offer_result,
}
use moqsub.Registry.Laws.{IsRegistry, change-IsRegistry, bind_alias-IsRegistry}
use moqsub.Runner.{
  Runner, Outcome, change_sub, rich_add, write_payload, record_first_object, count_if_written,
  deliver_as, deliver_subgroup_object,
}
use moqsub.Runner.Subgroups.{record_delivery, deliver_mapped, receive_object}
use moqsub.Runner.Requests.{
  msg_subscribe_ok, msg_request_error, on_subscribe_ok, on_request_error, on_request_message,
}
use moqsub.Runner.Control.{msg_setup, msg_go_away, on_setup, dispatch_control_message}

keep_first_same_id :
    (payload : List ℕ) (sub : TrackSubscription)
    → (keep_first payload sub).request_id ≡ sub.request_id
unfolding keep_first
keep_first_same_id payload sub = elim (Bool-cases sub.got_first) [
  | inl h ↦ rw h refl
  | inr h ↦ rw h refl
]

module _ {W : Type 0} where
  change_sub-IsRegistry :
      (f : TrackSubscription → TrackSubscription) (p : Pointer) (r : Runner W)
      → ((sub : TrackSubscription) → (f sub).request_id ≡ sub.request_id)
      → IsRegistry r.subs
      → IsRegistry ((change_sub f p r).subs)
  unfolding change_sub
  change_sub-IsRegistry f p r same h = change-IsRegistry f p r.subs same h

module _ {W : Type 0} (write_to : List ℕ → W → Option Error × W) (elapsed : ℕ → ℕ) where
  pub record_first_object_subs :
      (r : Runner W) → (record_first_object write_to elapsed r).subs ≡ r.subs
  unfolding record_first_object
  record_first_object_subs r = elim (Bool-cases (not (r.stats.first_object_nanos == 0))) [
    | inl h ↦ rw h refl
    | inr h ↦ rw h refl
  ]

  pub count_if_written_subs :
      (n : ℕ) (o : Option Error × Runner W)
      → (count_if_written write_to elapsed n o).0.subs ≡ o.1.subs
  unfolding count_if_written
  count_if_written_subs n (some e, r) = refl
  count_if_written_subs n (none, r) = refl

  deliver_as-IsRegistry :
      (role : TrackRole) (p : Pointer) (payload : List ℕ) (r : Runner W)
      → IsRegistry r.subs
      → IsRegistry ((deliver_as write_to elapsed role p payload r).0.subs)
  unfolding deliver_as write_payload
  deliver_as-IsRegistry role_catalog p payload r h =
      change_sub-IsRegistry _ p r (keep_first_same_id payload) h
  deliver_as-IsRegistry role_init p payload r h =
      change_sub-IsRegistry _ p r (keep_first_same_id payload) h
  deliver_as-IsRegistry role_media p payload r h =
      rw (count_if_written_subs, record_first_object_subs) h

  deliver_subgroup_object-IsRegistry :
      (p : Pointer) (payload : List ℕ) (r : Runner W)
      → IsRegistry r.subs
      → IsRegistry ((deliver_subgroup_object write_to elapsed p payload r).0.subs)
  unfolding deliver_subgroup_object
  deliver_subgroup_object-IsRegistry p payload r h = elim (Option-cases (get_elem? r.subs.heap p)) [
    | inl e ↦ rw (deliver_subgroup_object, e) h
    | inr (sub, e) ↦ rw (deliver_subgroup_object, e) (deliver_as-IsRegistry sub.role p payload r h)
  ]

  pub record_delivery_subs :
      (stream_id : ℕ) (header : SubgroupHeader) (p : Pointer) (obj : SubgroupObject) (o : Outcome W)
      → (record_delivery write_to elapsed stream_id header p obj o).0.subs ≡ o.0.subs
  unfolding record_delivery
  record_delivery_subs stream_id header p obj (r, ok x) = refl
  record_delivery_subs stream_id header p obj (r, err e) = refl
  record_delivery_subs stream_id header p obj (r, panic) = refl
  record_delivery_subs stream_id header p obj (r, stuck) = refl

  deliver_mapped-IsRegistry :
      (stream_id : ℕ) (header : SubgroupHeader) (sub : Option Pointer) (obj : SubgroupObject)
      (r : Runner W)
      → IsRegistry r.subs
      → IsRegistry ((deliver_mapped write_to elapsed stream_id header sub obj r).0.subs)
  unfolding deliver_mapped
  deliver_mapped-IsRegistry stream_id header none obj r h = h
  deliver_mapped-IsRegistry stream_id header (some p) obj r h =
      rw (record_delivery_subs) (deliver_subgroup_object-IsRegistry p obj.payload r h)

  either-IsRegistry :
      (b : Bool) (o o' : Outcome W)
      → IsRegistry (o.0.subs)
      → IsRegistry (o'.0.subs)
      → IsRegistry ((if b then o else o').0.subs)
  either-IsRegistry true o o' h h' = h
  either-IsRegistry false o o' h h' = h'

  pub receive_object-IsRegistry :
      (stream_id : ℕ) (header : SubgroupHeader) (sub : Option Pointer) (obj : SubgroupObject)
      (r : Runner W)
      → IsRegistry r.subs
      → IsRegistry ((receive_object write_to elapsed stream_id header sub obj r).0.subs)
  unfolding receive_object
  receive_object-IsRegistry stream_id header sub obj r h =
      either-IsRegistry obj.is_status_object _ _ h
        (deliver_mapped-IsRegistry stream_id header sub obj _ h)

module _ {W : Type 0} where
  on_subscribe_ok-IsRegistry :
      (stream_id : ℕ) (p : Pointer) (sub : TrackSubscription) (m : Result SubscribeOkMessage)
      (r : Runner W)
      → p < length r.subs.heap
      → IsRegistry r.subs
      → IsRegistry ((on_subscribe_ok stream_id p sub m r).1.subs)
  unfolding on_subscribe_ok rich_add
  on_subscribe_ok-IsRegistry stream_id p sub (ok msg) r lt h =
      change_sub-IsRegistry (offer_result _) p _ (unfold offer_result in λ s. refl)
        (bind_alias-IsRegistry r.subs p msg.track_alias lt h)
  on_subscribe_ok-IsRegistry stream_id p sub (err e) r lt h = h
  on_subscribe_ok-IsRegistry stream_id p sub panic r lt h = h
  on_subscribe_ok-IsRegistry stream_id p sub stuck r lt h = h

  on_request_error-IsRegistry :
      (p : Pointer) (sub : TrackSubscription) (m : Result RequestErrorMessage) (r : Runner W)
      → IsRegistry r.subs
      → IsRegistry ((on_request_error p sub m r).1.subs)
  unfolding on_request_error rich_add
  on_request_error-IsRegistry p sub (ok msg) r h =
      change_sub-IsRegistry (offer_result _) p _ (unfold offer_result in λ s. refl) h
  on_request_error-IsRegistry p sub (err e) r h = h
  on_request_error-IsRegistry p sub panic r h = h
  on_request_error-IsRegistry p sub stuck r h = h

  pub on_request_message-IsRegistry :
      (stream_id : ℕ) (p : Pointer) (sub : TrackSubscription) (msg_type : ℕ) (payload : List ℕ)
      (r : Runner W)
      → p < length r.subs.heap
      → IsRegistry r.subs
      → IsRegistry ((on_request_message stream_id p sub msg_type payload r).1.subs)
  unfolding on_request_message
  on_request_message-IsRegistry stream_id p sub t payload r lt h =
      elim (Bool-cases (t == msg_subscribe_ok)) [
        | inl e ↦
            rw e (on_subscribe_ok-IsRegistry stream_id p sub (decode_subscribe_ok payload) r lt h)
        | inr e ↦ elim (Bool-cases (t == msg_request_error)) [
          | inl e1 ↦
              rw (e, e1) (on_request_error-IsRegistry p sub (decode_request_error payload) r h)
          | inr e1 ↦ rw (e, e1) h
        ]
      ]

  on_setup_subs : (m : Result SetupMessage) (r : Runner W) → (on_setup m r).0.subs ≡ r.subs
  unfolding on_setup rich_add
  on_setup_subs (ok m) r = refl
  on_setup_subs (err e) r = refl
  on_setup_subs panic r = refl
  on_setup_subs stuck r = refl

  pub dispatch_control_message_subs :
      (t : ℕ) (payload : List ℕ) (r : Runner W)
      → (dispatch_control_message t payload r).0.subs ≡ r.subs
  unfolding dispatch_control_message rich_add
  dispatch_control_message_subs t payload r = elim (Bool-cases (t == msg_setup)) [
    | inl e ↦ rw e (on_setup_subs (decode_setup payload) r)
    | inr e ↦ elim (Bool-cases (t == msg_go_away)) [
      | inl e1 ↦ rw (e, e1) refl
      | inr e1 ↦ rw (e, e1) refl
    ]
  ]
