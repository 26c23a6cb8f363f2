-- ===== src/Session/NoPanic.antt =====
-- The main goroutine at its waits: it is stopped neither by a panic nor by a call.
use moqsub.Common.{
  ℕ, zero, suc, ◌≡◌, refl, inl, inr, List, [], ◌∷◌, String, Option, none, some, Option-cases,
  get_elem?,
}
use moqsub.Common.Result.{Result, ok, err, panic, stuck, Ends}
use moqsub.Registry.{TrackSubscription, Pointer, SubscribeResult, change}
use moqsub.Runner.{Runner, Outcome, change_sub}
use moqsub.Session.Waits.{
  Wake, received, timed_out, done, failed, drain_ok, subscribe_result, take_ok, wait_ok_of,
  wait_subscribe_ok, take_object, wait_object_of, wait_first_object,
}
use moqsub.Session.Machine.{
  Phase, awaiting_setup, receiving, stopped, awaiting_catalog_ok, awaiting_catalog,
  awaiting_media_ok, awaiting_init_ok, awaiting_init, finished, after_send, after_wait,
}

-- p refers to a subscription.
abbrev pub At : Pointer → List TrackSubscription → Type 0
At p heap = (sub : TrackSubscription) × (get_elem? heap p ≡ some sub)

-- Neither a panic nor a call that never returns has come, and the subscription that is waited for exists.
unfoldable pub Stands : Phase → List TrackSubscription → Type 0
Stands awaiting_setup heap = Unit {0}
Stands (awaiting_catalog_ok p) heap = At p heap
Stands (awaiting_catalog p) heap = At p heap
Stands (awaiting_init_ok p init media) heap = At p heap
Stands (awaiting_init p init media) heap = At p heap
Stands (awaiting_media_ok p) heap = At p heap
Stands receiving heap = Unit {0}
Stands (finished e) heap = Unit {0}
Stands (stopped why) heap = ⊥

At-change :
    (f : TrackSubscription → TrackSubscription) (p q : Pointer) (heap : List TrackSubscription)
    → At q heap
    → At q (change f p heap)
unfolding change
At-change f p q [] h = h
At-change f zero zero (s ∷ heap) h = (f s, refl)
At-change f zero (suc q) (s ∷ heap) h = h
At-change f (suc p) zero (s ∷ heap) h = h
At-change f (suc p) (suc q) (s ∷ heap) h = At-change f p q heap h

-- A goroutine keeps the subscriptions that exist, and so where the main goroutine stands.
pub Stands-keep :
    (phase : Phase) (heap heap' : List TrackSubscription)
    → ((p : Pointer) → At p heap → At p heap')
    → Stands phase heap
    → Stands phase heap'
unfolding Stands
Stands-keep awaiting_setup heap heap' keep h = h
Stands-keep (awaiting_catalog_ok p) heap heap' keep h = keep p h
Stands-keep (awaiting_catalog p) heap heap' keep h = keep p h
Stands-keep (awaiting_init_ok p init media) heap heap' keep h = keep p h
Stands-keep (awaiting_init p init media) heap heap' keep h = keep p h
Stands-keep (awaiting_media_ok p) heap heap' keep h = keep p h
Stands-keep receiving heap heap' keep h = h
Stands-keep (finished e) heap heap' keep h = h
Stands-keep (stopped why) heap heap' keep h = h

-- What a wait comes to: no panic, and with a value P of the state.
abbrev pub Calm : {W A : Type 0} → (Runner W → Type 0) → Option (Runner W × Result A) → Type 0
Calm P none = Unit {0}
Calm P (some (r, ok x)) = P r
Calm P (some (r, err e)) = Unit {0}
Calm P (some (r, panic)) = ⊥
Calm P (some (r, stuck)) = ⊥

abbrev pub StandsAt : {W : Type 0} → Phase × Runner W → Type 0
StandsAt (phase, r) = Stands phase r.subs.heap

abbrev pub IfStands : {W : Type 0} → Option (Phase × Runner W) → Type 0
IfStands none = Unit {0}
IfStands (some x) = StandsAt x

module _ {W : Type 0} where
  pub after_send-Stands :
      (phase : Phase) (o : Outcome W)
      → Ends o.1
      → Stands phase o.0.subs.heap
      → StandsAt (after_send phase o)
  unfolding after_send Stands
  after_send-Stands phase (r, ok x) h k = k
  after_send-Stands phase (r, err e) h k = tt
  after_send-Stands phase (r, panic) h k = h
  after_send-Stands phase (r, stuck) h k = h

  pub after_wait-Stands :
      {A : Type 0} (P : Runner W → Type 0) (f : String) (k : A → Runner W → Phase × Runner W)
      (o : Option (Runner W × Result A))
      → Calm P o
      → ((x : A) (r : Runner W) → P r → StandsAt (k x r))
      → IfStands (after_wait f k o)
  unfolding after_wait Stands
  after_wait-Stands P f k none h go = tt
  after_wait-Stands P f k (some (r, ok x)) h go = go x r h
  after_wait-Stands P f k (some (r, err e)) h go = tt
  after_wait-Stands P f k (some (r, panic)) h go = h
  after_wait-Stands P f k (some (r, stuck)) h go = h

  subscribe_result-Calm :
      (P : Runner W → Type 0) (res : SubscribeResult) (r : Runner W)
      → P r
      → Calm P (some (r, subscribe_result res))
  unfolding subscribe_result
  subscribe_result-Calm P res r h = elim (Option-cases res.failure) [
    | inl e ↦ rw (subscribe_result, e) h
    | inr (x, e) ↦ rw (subscribe_result, e) tt
  ]

  wait_ok_of-Calm :
      (wake : Wake) (p : Pointer) (sub : TrackSubscription) (ch : Option SubscribeResult)
      (r : Runner W)
      → sub.ok_ch ≡ ch
      → At p r.subs.heap
      → Calm (λ r1. At p r1.subs.heap) (wait_ok_of wake p sub r)
  unfolding wait_ok_of take_ok change_sub
  wait_ok_of-Calm received p sub none r e h = rw (wait_ok_of, take_ok, e) tt
  wait_ok_of-Calm received p sub (some res) r e h =
      rw (wait_ok_of, take_ok, e)
        (subscribe_result-Calm (λ r1. At p r1.subs.heap) res (change_sub drain_ok p r)
          (At-change drain_ok p p r.subs.heap h))
  wait_ok_of-Calm timed_out p sub ch r e h = tt
  wait_ok_of-Calm (done x) p sub ch r e h = tt
  wait_ok_of-Calm (failed x) p sub ch r e h = tt

  pub wait_subscribe_ok-Calm :
      (wake : Wake) (p : Pointer) (r : Runner W)
      → At p r.subs.heap
      → Calm (λ r1. At p r1.subs.heap) (wait_subscribe_ok wake p r)
  unfolding wait_subscribe_ok
  wait_subscribe_ok-Calm wake p r (sub, e) =
      rw (wait_subscribe_ok, e) (wait_ok_of-Calm wake p sub sub.ok_ch r refl (sub, e))

  take_object-Calm :
      (p : Pointer) (ch : Option (Option (List ℕ))) (r : Runner W)
      → Calm (λ r1. Unit {0}) (take_object p ch r)
  unfolding take_object
  take_object-Calm p none r = tt
  take_object-Calm p (some none) r = tt
  take_object-Calm p (some (some x)) r = tt

  wait_object_of-Calm :
      (wake : Wake) (p : Pointer) (sub : TrackSubscription) (r : Runner W)
      → Calm (λ r1. Unit {0}) (wait_object_of wake p sub r)
  unfolding wait_object_of
  wait_object_of-Calm received p sub r = take_object-Calm p sub.first_obj_ch r
  wait_object_of-Calm timed_out p sub r = tt
  wait_object_of-Calm (done x) p sub r = tt
  wait_object_of-Calm (failed x) p sub r = tt

  pub wait_first_object-Calm :
      (wake : Wake) (p : Pointer) (r : Runner W)
      → At p r.subs.heap
      → Calm (λ r1. Unit {0}) (wait_first_object wake p r)
  unfolding wait_first_object
  wait_first_object-Calm wake p r (sub, e) =
      rw (wait_first_object, e) (wait_object_of-Calm wake p sub r)
