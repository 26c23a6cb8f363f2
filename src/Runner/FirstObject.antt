-- ===== src/Runner/FirstObject.antt =====
-- `deliverSubgroupObject` on the tracks of which the first object alone is wanted.
use moqsub.Common.{
  ℕ, zero, suc, ◌≡◌, refl, ap, ◌∙◌, inl, inr, List, [], ◌∷◌, true, false, Bool-cases, Option,
  if-eq_true, if-eq_false,
}
use moqsub.Common.Result.{Error}
use moqsub.Registry.{role_catalog, role_init, TrackSubscription, Pointer, change, keep_first}
use moqsub.Runner.{Runner, change_sub, deliver_as}

keep_first_later :
    (y : List ℕ) (sub : TrackSubscription) → sub.got_first ≡ true → keep_first y sub ≡ sub
unfolding keep_first
keep_first_later y sub h = if-eq_true sub.got_first _ _ h

keep_first_now :
    (x : List ℕ) (sub : TrackSubscription)
    → sub.got_first ≡ false
    → (keep_first x sub).got_first ≡ true
unfolding keep_first
keep_first_now x sub h =
    ap (λ (s : TrackSubscription). s.got_first) (if-eq_false sub.got_first _ _ h)

keep_first-keep_first :
    (x y : List ℕ) (sub : TrackSubscription) → keep_first y (keep_first x sub) ≡ keep_first x sub
keep_first-keep_first x y sub = elim (Bool-cases sub.got_first) [
  | inl h ↦
      keep_first_later y (keep_first x sub)
        (ap (λ (s : TrackSubscription). s.got_first) (keep_first_later x sub h) ∙ h)
  | inr h ↦ keep_first_later y (keep_first x sub) (keep_first_now x sub h)
]

change-keep_first :
    (x y : List ℕ) (p : Pointer) (subs : List TrackSubscription)
    → change (keep_first y) p (change (keep_first x) p subs) ≡ change (keep_first x) p subs
unfolding change
change-keep_first x y p [] = refl
change-keep_first x y zero (sub ∷ subs) = ap (λ s. s ∷ subs) (keep_first-keep_first x y sub)
change-keep_first x y (suc p) (sub ∷ subs) = ap (λ l. sub ∷ l) (change-keep_first x y p subs)

module _ {W : Type 0} (write_to : List ℕ → W → Option Error × W) (elapsed : ℕ → ℕ) where
  -- Of a catalog and of an init track the first object alone counts: a second delivery leaves the state
  -- that the first one left. The output is not written to.
  pub deliver_as_first :
      (p : Pointer) (x y : List ℕ) (r : Runner W)
      → (deliver_as write_to elapsed role_catalog p y
            (deliver_as write_to elapsed role_catalog p x r).0
          ≡ deliver_as write_to elapsed role_catalog p x r)
        × (deliver_as write_to elapsed role_init p y (deliver_as write_to elapsed role_init p x r).0
            ≡ deliver_as write_to elapsed role_init p x r)
        × ((deliver_as write_to elapsed role_catalog p x r).0.sink ≡ r.sink)
        × ((deliver_as write_to elapsed role_init p x r).0.sink ≡ r.sink)
  unfolding deliver_as change_sub
  deliver_as_first p x y r = (
    rw (change-keep_first x y p r.subs.heap) refl,
    rw (change-keep_first x y p r.subs.heap) refl,
    refl,
    refl,
  )
