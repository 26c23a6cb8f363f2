-- ===== src/Session/Answers.antt =====
-- What the waits of `bootstrapFromCatalog` get of the streams' goroutines.
use moqsub.Common.{
  ℕ, zero, suc, ◌≡◌, refl, ap, ◌∙◌, sym, List, [], ◌∷◌, true, false, ◌==◌, ==_iff, Option, none,
  some, get_elem?, if-eq_true, if-eq_false, subst, inl, inr, ◌⊎◌,
}
use moqsub.Common.Result.{Error, ok, err}
use moqsub.Message.{
  SubscribeOkMessage, RequestErrorMessage, decode_subscribe_ok, decode_request_error,
}
use moqsub.Registry.{
  role_catalog, role_init, TrackSubscription, Pointer, SubscribeResult, change, keep_first,
  bind_alias, find, lookup_alias, offer, offer_object, offer_result,
}
use moqsub.Runner.{Runner, Outcome, change_sub, rich_add, deliver_as, deliver_subgroup_object}
use moqsub.Runner.Requests.{
  msg_subscribe_ok, msg_request_error, on_subscribe_ok, on_request_error, on_request_message,
  format_subscribe_reject_error,
}
use moqsub.Session.Waits.{
  received, drain_ok, drain_object, subscribe_result, take_ok, wait_ok_of, wait_subscribe_ok,
  take_object, wait_object_of, wait_first_object,
}

pub get_elem?-change :
    (f : TrackSubscription → TrackSubscription) (p : Pointer) (heap : List TrackSubscription)
    (sub : TrackSubscription)
    → get_elem? heap p ≡ some sub
    → get_elem? (change f p heap) p ≡ some (f sub)
unfolding change
get_elem?-change f p [] sub e = cc
get_elem?-change f zero (s ∷ subs) sub e = let same : s ≡ sub = cc in ap (λ x. some (f x)) same
get_elem?-change f (suc p) (s ∷ subs) sub e = get_elem?-change f p subs sub e

find-first : (k p : ℕ) (m : List (ℕ × Pointer)) → find k ((k, p) ∷ m) ≡ some p
unfolding find
find-first k p m = if-eq_true (k == k) _ _ ((==_iff k k).1 refl)

module _ {W : Type 0} (p : Pointer) (sub : TrackSubscription) where
  -- The wait behind an answer on an empty channel.
  wait-offer_result :
      (res : SubscribeResult) (r : Runner W)
      → get_elem? r.subs.heap p ≡ some sub
      → sub.ok_ch ≡ none
      → wait_subscribe_ok received p (change_sub (offer_result res) p r)
        ≡ some (change_sub drain_ok p (change_sub (offer_result res) p r), subscribe_result res)
  unfolding wait_subscribe_ok wait_ok_of take_ok change_sub offer_result offer
  wait-offer_result res r at empty =
      rw (wait_subscribe_ok, get_elem?-change (offer_result res) p r.subs.heap sub at, empty) refl

  module _ (stream_id : ℕ) (r : Runner W) (at : get_elem? r.subs.heap p ≡ some sub)
      (empty : sub.ok_ch ≡ none) where
    -- Up to an answer `waitSubscribeOK` blocks. Behind a SUBSCRIBE_OK that decodes it returns without
    -- an error, and the answer's alias leads to the subscription; behind a REQUEST_ERROR that decodes
    -- it returns the error that names the request, the code and the reason.
    pub wait_subscribe_ok-on_request_message :
        (wait_subscribe_ok received p r ≡ none)
        × ((payload : List ℕ) (m : SubscribeOkMessage)
            → decode_subscribe_ok payload ≡ ok m
            → (r1 : Runner W) × (wait_subscribe_ok received p
                  (on_request_message stream_id p sub msg_subscribe_ok payload r).1
                ≡ some (r1, ok tt))
              × (lookup_alias r1.subs m.track_alias ≡ some p))
        × ((payload : List ℕ) (m : RequestErrorMessage)
            → decode_request_error payload ≡ ok m
            → (r1 : Runner W) × (wait_subscribe_ok received p
                  (on_request_message stream_id p sub msg_request_error payload r).1
                ≡ some (
                  r1,
                  err (format_subscribe_reject_error sub.namespace sub.track_name sub.role m),
                )))
    unfolding on_request_message on_subscribe_ok on_request_error rich_add lookup_alias bind_alias
        subscribe_result change_sub wait_subscribe_ok wait_ok_of take_ok
    wait_subscribe_ok-on_request_message = (
      rw (wait_subscribe_ok, at, empty) refl,
      λ payload m e. (
        change_sub drain_ok p (on_request_message stream_id p sub msg_subscribe_ok payload r).1,
        rw e (wait-offer_result _ _ at empty),
        rw e (find-first m.track_alias p r.subs.by_alias),
      ),
      λ payload m e. (
        change_sub drain_ok p (on_request_message stream_id p sub msg_request_error payload r).1,
        rw e (wait-offer_result _ _ at empty),
      ),
    )

module _ {W : Type 0} (write_to : List ℕ → W → Option Error × W) (elapsed : ℕ → ℕ) where
  deliver-keep_first :
      (p : Pointer) (sub : TrackSubscription) (x : List ℕ) (r : Runner W)
      → get_elem? r.subs.heap p ≡ some sub
      → (sub.role ≡ role_catalog) ⊎ (sub.role ≡ role_init)
      → deliver_subgroup_object write_to elapsed p x r ≡ (change_sub (keep_first x) p r, ok tt)
  unfolding deliver_subgroup_object deliver_as
  deliver-keep_first p sub x r at (inl role) = rw (deliver_subgroup_object, at, role) refl
  deliver-keep_first p sub x r at (inr role) = rw (deliver_subgroup_object, at, role) refl

  wait-empty :
      (p : Pointer) (sub : TrackSubscription) (r : Runner W)
      → get_elem? r.subs.heap p ≡ some sub
      → sub.first_obj_ch ≡ some none
      → wait_first_object received p r ≡ none
  unfolding wait_first_object wait_object_of take_object
  wait-empty p sub r at empty = rw (wait_first_object, at, empty) refl

  wait-full :
      (p : Pointer) (sub : TrackSubscription) (x : List ℕ) (r : Runner W)
      → get_elem? r.subs.heap p ≡ some sub
      → sub.first_obj_ch ≡ some (some x)
      → wait_first_object received p r ≡ some (change_sub drain_object p r, ok x)
  unfolding wait_first_object wait_object_of take_object
  wait-full p sub x r at full = rw (wait_first_object, at, full) refl

  module _ (p : Pointer) (sub : TrackSubscription) (x y : List ℕ) (r : Runner W)
      (at : get_elem? r.subs.heap p ≡ some sub)
      (role : (sub.role ≡ role_catalog) ⊎ (sub.role ≡ role_init)) (fresh : sub.got_first ≡ false)
      (empty : sub.first_obj_ch ≡ some none) where
    -- The subscription behind its first object.
    abbrev kept : TrackSubscription
    kept = record sub { got_first = true; first_obj_ch = some (some x) }

    keep_first-kept : keep_first x sub ≡ kept
    unfolding keep_first offer_object offer
    keep_first-kept = if-eq_false sub.got_first _ _ fresh ∙ rw empty refl

    abbrev delivered : Runner W
    delivered = (deliver_subgroup_object write_to elapsed p x r).0

    at_delivered : get_elem? delivered.subs.heap p ≡ some kept
    unfolding change_sub
    at_delivered =
        subst (λ (o : Outcome W). get_elem? o.0.subs.heap p ≡ some kept)
          (sym (deliver-keep_first p sub x r at role))
          (get_elem?-change (keep_first x) p r.subs.heap sub at ∙ ap (λ s. some s) keep_first-kept)

    abbrev taken : Runner W
    taken = change_sub drain_object p delivered

    at_taken : get_elem? taken.subs.heap p ≡ some (drain_object kept)
    unfolding change_sub
    at_taken = get_elem?-change drain_object p delivered.subs.heap kept at_delivered

    -- Of a catalog or an init track the wait gets the first object that is delivered, once: it blocks
    -- before, it returns that object's payload then, and behind it an object that is delivered later
    -- leaves it blocked.
    pub wait_first_object-deliver :
        (wait_first_object received p r ≡ none)
        × (wait_first_object received p delivered ≡ some (taken, ok x))
        × (wait_first_object received p (deliver_subgroup_object write_to elapsed p y taken).0
            ≡ none)
    unfolding drain_object keep_first change_sub
    wait_first_object-deliver = (
      wait-empty p sub r at empty,
      wait-full p kept x delivered at_delivered refl,
      wait-empty p (keep_first y (drain_object kept))
          (deliver_subgroup_object write_to elapsed p y taken).0
          (rw (deliver-keep_first p (drain_object kept) y taken at_taken role)
            (get_elem?-change (keep_first y) p taken.subs.heap (drain_object kept) at_taken))
          refl,
    )
