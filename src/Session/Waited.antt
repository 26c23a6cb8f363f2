-- ===== src/Session/Waited.antt =====
-- What the waits of a session keep, and what they hand on.
use moqsub.Common.{
  ℕ, ◌≡◌, inl, inr, refl, List, Option, none, some, Option-cases, get_elem?, String,
}
use moqsub.Common.Result.{Error, Result, ok, err, panic, stuck}
use moqsub.Registry.{TrackRole, TrackSubscription, Pointer, SubscribeResult}
use moqsub.Runner.{Runner, change_sub}
use moqsub.Session.Waits.{
  Wake, received, timed_out, done, failed, drain_ok, drain_object, subscribe_result, take_ok,
  wait_ok_of, wait_subscribe_ok, take_object, wait_object_of, wait_first_object,
}
use moqsub.Session.Machine.{by_panic, by_call, Phase, after_wait}
use moqsub.Session.Heap.{Holds, All-at}
use moqsub.Session.Keeps.{Quiet}
use moqsub.Session.Reach.{Kept}
use moqsub.Session.Kept.{Kept-Stable}
use moqsub.Session.Subscribed.{KeptAt, finished-Kept}

drain_ok-Quiet : Quiet drain_ok
unfolding drain_ok
drain_ok-Quiet = record { same_id = λ sub. refl; same_role = λ sub. refl; no_object = λ sub x e. e }

drain_object-Quiet : Quiet drain_object
unfolding drain_object
drain_object-Quiet = record {
  same_id = λ sub. refl;
  same_role = λ sub. refl;
  no_object = λ sub x e. cc;
}

-- What a wait comes to: P of a value, E of the state behind an error.
abbrev pub After :
    {W A : Type 0}
    → (A → Runner W → Type 0)
    → (Runner W → Type 0)
    → Option (Runner W × Result A)
    → Type 0
After P E none = Unit {0}
After P E (some (r, ok x)) = P x r
After P E (some (r, err e)) = E r
After P E (some (r, panic)) = E r
After P E (some (r, stuck)) = E r

module _ {W : Type 0} (write_to : List ℕ → W → Option Error × W) (elapsed : ℕ → ℕ)
    (Published : TrackRole → List ℕ → Type 0) (w0 : W) where
  abbrev pub KeptIn : Phase → Runner W → Type 0
  KeptIn phase r = Kept write_to elapsed Published w0 phase r.subs r.sink

  abbrev pub IfKept : Option (Phase × Runner W) → Type 0
  IfKept none = Unit {0}
  IfKept (some x) = KeptAt write_to elapsed Published w0 x

  pub after_wait-Kept :
      {A : Type 0} (phase : Phase) (f : String) (P : A → Runner W → Type 0)
      (k : A → Runner W → Phase × Runner W) (o : Option (Runner W × Result A))
      → After P (KeptIn phase) o
      → ((x : A) (r : Runner W) → P x r → KeptAt write_to elapsed Published w0 (k x r))
      → IfKept (after_wait f k o)
  unfolding after_wait
  after_wait-Kept phase f P k none h go = tt
  after_wait-Kept phase f P k (some (r, ok x)) h go = go x r h
  after_wait-Kept phase f P k (some (r, err e)) h go =
      (finished-Kept write_to elapsed Published w0 phase _ r h).0
  after_wait-Kept phase f P k (some (r, panic)) h go =
      (finished-Kept write_to elapsed Published w0 phase none r h).1 by_panic
  after_wait-Kept phase f P k (some (r, stuck)) h go =
      (finished-Kept write_to elapsed Published w0 phase none r h).1 by_call

  subscribe_result-After :
      (phase : Phase) (res : SubscribeResult) (r : Runner W)
      → KeptIn phase r
      → After (λ x r1. KeptIn phase r1) (KeptIn phase) (some (r, subscribe_result res))
  unfolding subscribe_result
  subscribe_result-After phase res r h = elim (Option-cases res.failure) [
    | inl e ↦ rw (subscribe_result, e) h
    | inr (x, e) ↦ rw (subscribe_result, e) h
  ]

  take_ok-After :
      (phase : Phase) (p : Pointer) (ch : Option SubscribeResult) (r : Runner W)
      → KeptIn phase r
      → After (λ x r1. KeptIn phase r1) (KeptIn phase) (take_ok p ch r)
  unfolding take_ok change_sub
  take_ok-After phase p none r h = tt
  take_ok-After phase p (some res) r h =
      subscribe_result-After phase res (change_sub drain_ok p r) (
        (Kept-Stable write_to elapsed Published w0 phase).changed drain_ok p r.subs r.sink
          drain_ok-Quiet h)

  wait_ok_of-After :
      (phase : Phase) (wake : Wake) (p : Pointer) (sub : TrackSubscription) (r : Runner W)
      → KeptIn phase r
      → After (λ x r1. KeptIn phase r1) (KeptIn phase) (wait_ok_of wake p sub r)
  unfolding wait_ok_of
  wait_ok_of-After phase received p sub r h = take_ok-After phase p sub.ok_ch r h
  wait_ok_of-After phase timed_out p sub r h = h
  wait_ok_of-After phase (done e) p sub r h = h
  wait_ok_of-After phase (failed e) p sub r h = tt

  pub wait_subscribe_ok-After :
      (phase : Phase) (wake : Wake) (p : Pointer) (r : Runner W)
      → KeptIn phase r
      → After (λ x r1. KeptIn phase r1) (KeptIn phase) (wait_subscribe_ok wake p r)
  unfolding wait_subscribe_ok
  wait_subscribe_ok-After phase wake p r h = elim (Option-cases (get_elem? r.subs.heap p)) [
    | inl e ↦ rw (wait_subscribe_ok, e) h
    | inr (sub, e) ↦ rw (wait_subscribe_ok, e) (wait_ok_of-After phase wake p sub r h)
  ]

  -- The object that is taken was published on the subscription's track.
  abbrev pub Taken : Phase → TrackRole → List ℕ → Runner W → Type 0
  Taken phase role payload r = KeptIn phase r × Published role payload

  take_object-After :
      (phase : Phase) (p : Pointer) (sub : TrackSubscription) (ch : Option (Option (List ℕ)))
      (r : Runner W)
      → sub.first_obj_ch ≡ ch
      → Holds Published sub
      → KeptIn phase r
      → After (Taken phase sub.role) (KeptIn phase) (take_object p ch r)
  unfolding take_object change_sub
  take_object-After phase p sub none r e held h = tt
  take_object-After phase p sub (some none) r e held h = tt
  take_object-After phase p sub (some (some x)) r e held h = (
    (Kept-Stable write_to elapsed Published w0 phase).changed drain_object p r.subs r.sink
        drain_object-Quiet h,
    held x e,
  )

  wait_object_of-After :
      (phase : Phase) (wake : Wake) (p : Pointer) (sub : TrackSubscription) (r : Runner W)
      → Holds Published sub
      → KeptIn phase r
      → After (Taken phase sub.role) (KeptIn phase) (wait_object_of wake p sub r)
  unfolding wait_object_of
  wait_object_of-After phase received p sub r held h =
      take_object-After phase p sub sub.first_obj_ch r refl held h
  wait_object_of-After phase timed_out p sub r held h = h
  wait_object_of-After phase (done e) p sub r held h = h
  wait_object_of-After phase (failed e) p sub r held h = tt

  pub wait_first_object-After :
      (phase : Phase) (wake : Wake) (p : Pointer) (r : Runner W) (sub : TrackSubscription)
      → get_elem? r.subs.heap p ≡ some sub
      → KeptIn phase r
      → After (Taken phase sub.role) (KeptIn phase) (wait_first_object wake p r)
  unfolding wait_first_object
  wait_first_object-After phase wake p r sub e h =
      rw (wait_first_object, e)
        (wait_object_of-After phase wake p sub r (All-at _ p r.subs.heap sub e h.held) h)

  pub wait_catalog-After :
      (phase : Phase) (wake : Wake) (p : Pointer) (r : Runner W)
      → KeptIn phase r
      → After (λ (x : List ℕ) r1. KeptIn phase r1) (KeptIn phase) (wait_first_object wake p r)
  unfolding wait_first_object
  wait_catalog-After phase wake p r h = elim (Option-cases (get_elem? r.subs.heap p)) [
    | inl e ↦ rw (wait_first_object, e) h
    | inr (sub, e) ↦
        forget sub.role (wait_first_object wake p r)
          (wait_first_object-After phase wake p r sub e h)
  ]
    where
      forget :
          (role : TrackRole) (o : Option (Runner W × Result (List ℕ)))
          → After (Taken phase role) (KeptIn phase) o
          → After (λ (x : List ℕ) r1. KeptIn phase r1) (KeptIn phase) o
      forget role none k = tt
      forget role (some (r1, ok x)) k = k.0
      forget role (some (r1, err e)) k = k
      forget role (some (r1, panic)) k = k
      forget role (some (r1, stuck)) k = k
