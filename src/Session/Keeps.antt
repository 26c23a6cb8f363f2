-- ===== src/Session/Keeps.antt =====
-- What the goroutines of a session's streams keep of its registry and its output.
use moqsub.Common.{
  ℕ, ◌<◌, ◌≡◌, refl, inl, inr, List, Bool, true, false, not, Bool-cases, Option, none, some,
  Option-cases, ◌==◌, if◌then◌else◌, length, get_elem?,
}
use moqsub.Common.Result.{Error, ok, err, panic, stuck}
use moqsub.Subgroup.{SubgroupHeader, SubgroupObject}
use moqsub.Registry.{
  TrackRole, role_catalog, role_init, role_media, TrackSubscription, Pointer, SubscriptionRegistry,
  change, keep_first, bind_alias, offer_result,
}
use moqsub.Runner.{
  Runner, Outcome, change_sub, write_payload, record_first_object, count_if_written, deliver_as,
  deliver_subgroup_object,
}
use moqsub.Runner.Subgroups.{record_delivery, deliver_mapped, receive_object}
use moqsub.Runner.Keeps.{record_first_object_subs, count_if_written_subs, record_delivery_subs}

-- A change of a subscription that keeps its request ID and its role, and puts nothing into its channel for
-- the first object.
pub record Quiet (f : TrackSubscription → TrackSubscription) : Type 0 where
  pub same_id : (sub : TrackSubscription) → (f sub).request_id ≡ sub.request_id
  pub same_role : (sub : TrackSubscription) → (f sub).role ≡ sub.role
  pub no_object :
      (sub : TrackSubscription) (x : List ℕ)
      → (f sub).first_obj_ch ≡ some (some x)
      → sub.first_obj_ch ≡ some (some x)

pub offer_result-Quiet : (res : _) → Quiet (offer_result res)
unfolding offer_result
offer_result-Quiet res = record {
  same_id = λ sub. refl;
  same_role = λ sub. refl;
  no_object = λ sub x e. e;
}

-- A statement about the registry and the output which no goroutine of a stream can break: an answer
-- arrives, an alias is bound, a first object is kept, a fragment is written.
pub record Stable {W : Type 0} (write_to : List ℕ → W → Option Error × W)
    (Published : TrackRole → List ℕ → Type 0) (Q : SubscriptionRegistry → W → Type 0) : Type 0 where
  pub changed :
      (f : TrackSubscription → TrackSubscription) (p : Pointer) (reg : SubscriptionRegistry) (w : W)
      → Quiet f
      → Q reg w
      → Q (record reg { heap = change f p reg.heap }) w
  pub bound :
      (p : Pointer) (alias : ℕ) (reg : SubscriptionRegistry) (w : W)
      → p < length reg.heap
      → Q reg w
      → Q (bind_alias reg p alias) w
  pub kept :
      (p : Pointer) (payload : List ℕ) (sub : TrackSubscription) (reg : SubscriptionRegistry)
      (w : W)
      → get_elem? reg.heap p ≡ some sub
      → Published sub.role payload
      → Q reg w
      → Q (record reg { heap = change (keep_first payload) p reg.heap }) w
  pub wrote :
      (p : Pointer) (payload : List ℕ) (sub : TrackSubscription) (reg : SubscriptionRegistry)
      (w : W)
      → get_elem? reg.heap p ≡ some sub
      → sub.role ≡ role_media
      → Published sub.role payload
      → Q reg w
      → Q reg (write_to payload w).1

module _ {W : Type 0} (write_to : List ℕ → W → Option Error × W) (elapsed : ℕ → ℕ)
    (Published : TrackRole → List ℕ → Type 0) (Q : SubscriptionRegistry → W → Type 0)
    (stable : Stable write_to Published Q) where
  record_first_object_sink : (r : Runner W) → (record_first_object write_to elapsed r).sink ≡ r.sink
  unfolding record_first_object
  record_first_object_sink r = elim (Bool-cases (not (r.stats.first_object_nanos == 0))) [
    | inl h ↦ rw h refl
    | inr h ↦ rw h refl
  ]

  count_if_written_sink :
      (n : ℕ) (o : Option Error × Runner W)
      → (count_if_written write_to elapsed n o).0.sink ≡ o.1.sink
  unfolding count_if_written
  count_if_written_sink n (some e, r) = refl
  count_if_written_sink n (none, r) = refl

  deliver_as-keeps :
      (role : TrackRole) (p : Pointer) (payload : List ℕ) (r : Runner W) (sub : TrackSubscription)
      → get_elem? r.subs.heap p ≡ some sub
      → sub.role ≡ role
      → Published sub.role payload
      → Q r.subs r.sink
      → Q
          (deliver_as write_to elapsed role p payload r).0.subs
          (deliver_as write_to elapsed role p payload r).0.sink
  unfolding deliver_as change_sub write_payload
  deliver_as-keeps role_catalog p payload r sub at same new h =
      stable.kept p payload sub r.subs r.sink at new h
  deliver_as-keeps role_init p payload r sub at same new h =
      stable.kept p payload sub r.subs r.sink at new h
  deliver_as-keeps role_media p payload r sub at same new h =
      rw
        (
          count_if_written_subs, count_if_written_sink, record_first_object_subs,
          record_first_object_sink,
        )
        (stable.wrote p payload sub r.subs r.sink at same new h)

  record_delivery_sink :
      (stream_id : ℕ) (header : SubgroupHeader) (p : Pointer) (obj : SubgroupObject) (o : Outcome W)
      → (record_delivery write_to elapsed stream_id header p obj o).0.sink ≡ o.0.sink
  unfolding record_delivery
  record_delivery_sink stream_id header p obj (r, ok x) = refl
  record_delivery_sink stream_id header p obj (r, err e) = refl
  record_delivery_sink stream_id header p obj (r, panic) = refl
  record_delivery_sink stream_id header p obj (r, stuck) = refl

  deliver_subgroup_object-keeps :
      (p : Pointer) (payload : List ℕ) (r : Runner W)
      → ((s : TrackSubscription) → get_elem? r.subs.heap p ≡ some s → Published s.role payload)
      → Q r.subs r.sink
      → Q
          (deliver_subgroup_object write_to elapsed p payload r).0.subs
          (deliver_subgroup_object write_to elapsed p payload r).0.sink
  unfolding deliver_subgroup_object
  deliver_subgroup_object-keeps p payload r new h = elim (Option-cases (get_elem? r.subs.heap p)) [
    | inl e ↦ rw (deliver_subgroup_object, e) h
    | inr (sub, e) ↦
        rw (deliver_subgroup_object, e)
          (deliver_as-keeps sub.role p payload r sub e refl (new sub e) h)
  ]

  deliver_mapped-keeps :
      (stream_id : ℕ) (header : SubgroupHeader) (sub : Option Pointer) (obj : SubgroupObject)
      (r : Runner W)
      → ((p : Pointer) (s : TrackSubscription)
          → sub ≡ some p
          → get_elem? r.subs.heap p ≡ some s
          → Published s.role obj.payload)
      → Q r.subs r.sink
      → Q
          (deliver_mapped write_to elapsed stream_id header sub obj r).0.subs
          (deliver_mapped write_to elapsed stream_id header sub obj r).0.sink
  unfolding deliver_mapped
  deliver_mapped-keeps stream_id header none obj r new h = h
  deliver_mapped-keeps stream_id header (some p) obj r new h =
      rw (record_delivery_subs, record_delivery_sink)
        (deliver_subgroup_object-keeps p obj.payload r (λ s e. new p s refl e) h)

  either-keeps :
      (b : Bool) (o o' : Outcome W)
      → Q o.0.subs o.0.sink
      → Q o'.0.subs o'.0.sink
      → Q (if b then o else o').0.subs (if b then o else o').0.sink
  either-keeps true o o' h h' = h
  either-keeps false o o' h h' = h'

  pub receive_object-keeps :
      (stream_id : ℕ) (header : SubgroupHeader) (sub : Option Pointer) (obj : SubgroupObject)
      (r : Runner W)
      → ((p : Pointer) (s : TrackSubscription)
          → sub ≡ some p
          → get_elem? r.subs.heap p ≡ some s
          → Published s.role obj.payload)
      → Q r.subs r.sink
      → Q
          (receive_object write_to elapsed stream_id header sub obj r).0.subs
          (receive_object write_to elapsed stream_id header sub obj r).0.sink
  unfolding receive_object
  receive_object-keeps stream_id header sub obj r new h =
      either-keeps obj.is_status_object _ _ h
        (deliver_mapped-keeps stream_id header sub obj _ new h)
