-- ===== src/Registry/Laws.antt =====
-- The registry's invariant and its lookups.
use moqsub.Common.{
  ℕ, zero, suc, ◌+◌, ◌*◌, ◌%◌, ◌^◌, ◌<◌, ◌≡◌, ◌≢◌, refl, sym, subst, ap, ◌∙◌, ◌⊎◌, inl, inr, List,
  [], ◌∷◌, ◌++◌, true, false, Bool-cases, none, some, Option-cases, ◌==◌, ==_iff, arith, length,
  length-append, All,
}
use moqsub.Registry.{
  TrackRole, TrackSubscription, Pointer, SubscriptionRegistry, new_subscription_registry, find,
  alloc_request_id, register, bind_alias, by_request_or_none, by_alias_or, lookup_alias,
  lookup_delivery, new_track_subscription, change,
}

-- The requests of the first n subscriptions, newest first: subscription k has request ID 2 k.
abbrev pub requests_up_to : ℕ → List (ℕ × Pointer)
requests_up_to zero = []
requests_up_to (suc n) = (2 * n, n) ∷ requests_up_to n

-- The subscription at each place k of the heap has request ID 2 k.
abbrev pub NumberedFrom : ℕ → List TrackSubscription → Type 0
NumberedFrom k [] = Unit {0}
NumberedFrom k (sub ∷ subs) = (sub.request_id ≡ 2 * k) × NumberedFrom (suc k) subs

-- A well-formed registry: subscription k has request ID 2 k and is registered under it, under no
-- other and no ID twice; the next ID is free; and every alias is bound to a subscription.
pub record IsRegistry (reg : SubscriptionRegistry) : Type 0 where
  pub numbered : NumberedFrom 0 reg.heap
  pub registered : reg.by_request ≡ requests_up_to (length reg.heap)
  pub next : reg.next_id ≡ (2 * length reg.heap) % 2 ^ 64
  pub bound : All (λ (b : ℕ × Pointer). b.1 < length reg.heap) reg.by_alias

pub new_subscription_registry-IsRegistry : IsRegistry new_subscription_registry
new_subscription_registry-IsRegistry = record {
  numbered = tt;
  registered = refl;
  next = refl;
  bound = tt;
}

NumberedFrom-append :
    (k : ℕ) (subs : List TrackSubscription) (sub : TrackSubscription)
    → NumberedFrom k subs
    → sub.request_id ≡ 2 * (k + length subs)
    → NumberedFrom k (subs ++ sub ∷ [])
NumberedFrom-append k [] sub h e = (omega arith, tt)
NumberedFrom-append k (s ∷ subs) sub h e =
    (h.0, NumberedFrom-append (suc k) subs sub h.1 (omega arith))

All-bound_more :
    (n : ℕ) (m : List (ℕ × Pointer))
    → All (λ (b : ℕ × Pointer). b.1 < n) m
    → All (λ (b : ℕ × Pointer). b.1 < suc n) m
All-bound_more n [] h = tt
All-bound_more n (b ∷ m) h = (omega arith, All-bound_more n m h.1)

pub length-snoc :
    (subs : List TrackSubscription) (sub : TrackSubscription)
    → length (subs ++ sub ∷ []) ≡ suc (length subs)
length-snoc [] sub = refl
length-snoc (s ∷ subs) sub = ap suc (length-snoc subs sub)

-- A new subscription keeps the registry well-formed, as long as fewer than 2^63 were made. It is
-- the one at the end of the heap, its request ID is twice its number, and it is registered under it.
pub new_track_subscription-IsRegistry :
    (namespace track_name : List ℕ) (role : TrackRole) (reg : SubscriptionRegistry)
    → IsRegistry reg
    → length reg.heap < 2 ^ 63
    → IsRegistry ((new_track_subscription namespace track_name role reg).1)
unfolding new_track_subscription alloc_request_id register
new_track_subscription-IsRegistry namespace track_name role reg h small = record {
  numbered = NumberedFrom-append 0 reg.heap _ h.numbered (omega (arith, h.next));
  registered = rw (length-snoc, h.registered, even_id) refl;
  next = omega (arith, h.next, length-append reg.heap);
  bound = rw (length-snoc) (All-bound_more (length reg.heap) reg.by_alias h.bound);
}
  where
    even_id : reg.next_id ≡ 2 * length reg.heap
    even_id = omega (arith, h.next)

pub length-change :
    (f : TrackSubscription → TrackSubscription) (p : Pointer) (subs : List TrackSubscription)
    → length (change f p subs) ≡ length subs
unfolding change
length-change f p [] = refl
length-change f zero (sub ∷ subs) = refl
length-change f (suc p) (sub ∷ subs) = ap suc (length-change f p subs)

NumberedFrom-change :
    (f : TrackSubscription → TrackSubscription) (k : ℕ) (p : Pointer)
    (subs : List TrackSubscription)
    → ((sub : TrackSubscription) → (f sub).request_id ≡ sub.request_id)
    → NumberedFrom k subs
    → NumberedFrom k (change f p subs)
unfolding change
NumberedFrom-change f k p [] same h = tt
NumberedFrom-change f k zero (sub ∷ subs) same h = (same sub ∙ h.0, h.1)
NumberedFrom-change f k (suc p) (sub ∷ subs) same h =
    (h.0, NumberedFrom-change f (suc k) p subs same h.1)

-- A change of a subscription that leaves its request ID alone keeps the registry well-formed.
pub change-IsRegistry :
    (f : TrackSubscription → TrackSubscription) (p : Pointer) (reg : SubscriptionRegistry)
    → ((sub : TrackSubscription) → (f sub).request_id ≡ sub.request_id)
    → IsRegistry reg
    → IsRegistry (record reg { heap = change f p reg.heap })
change-IsRegistry f p reg same h = record {
  numbered = NumberedFrom-change f 0 p reg.heap same h.numbered;
  registered = rw (length-change) h.registered;
  next = rw (length-change) h.next;
  bound = rw (length-change) h.bound;
}

pub bind_alias-IsRegistry :
    (reg : SubscriptionRegistry) (p : Pointer) (alias : ℕ)
    → p < length reg.heap
    → IsRegistry reg
    → IsRegistry (bind_alias reg p alias)
unfolding bind_alias
bind_alias-IsRegistry reg p alias lt h = record {
  numbered = h.numbered;
  registered = h.registered;
  next = h.next;
  bound = (lt, h.bound);
}

find-requests_up_to : (n k : ℕ) → k < n → find (2 * k) (requests_up_to n) ≡ some k
unfolding find
find-requests_up_to zero k h = absurd (omega arith)
find-requests_up_to (suc n) k h = elim (Bool-cases (2 * k == 2 * n)) [
  | inl e ↦ rw e (ap some (ground arith))
  | inr e ↦ rw e (find-requests_up_to n k (ground arith))
]

find_in_requests :
    (n id : ℕ) (p : Pointer) → find id (requests_up_to n) ≡ some p → (p < n) × (id ≡ 2 * p)
unfolding find
find_in_requests zero id p h = cc
find_in_requests (suc n) id p h = elim (Bool-cases (id == 2 * n)) [
  | inl e ↦ let h1 = rw e at h in let q : n ≡ p = cc in (omega arith, ground arith)
  | inr e ↦ let h1 = rw e at h in let (lt, eq) = find_in_requests n id p h1 in (omega arith, eq)
]

no_request : (n id : ℕ) → find id (requests_up_to n) ≡ none → (k : Pointer) → k < n → id ≢ 2 * k
no_request n id h k lt e =
    let found : find id (requests_up_to n) ≡ some k =
      subst (λ i. find i (requests_up_to n) ≡ some k) (sym e) (find-requests_up_to n k lt) in
    cc

find_bound :
    (n alias : ℕ) (m : List (ℕ × Pointer)) (p : Pointer)
    → All (λ (b : ℕ × Pointer). b.1 < n) m
    → find alias m ≡ some p
    → p < n
unfolding find
find_bound n alias [] p h e = cc
find_bound n alias ((a, q) ∷ m) p h e = elim (Bool-cases (alias == a)) [
  | inl t ↦ let e1 = rw t at e in let eq : q ≡ p = cc in omega (arith, h.0)
  | inr t ↦ let e1 = rw t at e in find_bound n alias m p h.1 e1
]

-- In a well-formed registry a subgroup stream goes to the subscription last bound to its alias; else,
-- as pending, to the one whose request ID the alias is; else, where the alias is the request ID of
-- no subscription, to none. The subscription exists.
pub lookup_delivery-cases :
    (reg : SubscriptionRegistry) (alias : ℕ)
    → IsRegistry reg
    → ((p : Pointer) × (p < length reg.heap)
        × (lookup_alias reg alias ≡ some p)
        × (lookup_delivery reg alias ≡ (some p, false)))
      ⊎ ((p : Pointer) × (p < length reg.heap)
          × (lookup_alias reg alias ≡ none)
          × (alias ≡ 2 * p)
          × (lookup_delivery reg alias ≡ (some p, true)))
      ⊎ ((lookup_alias reg alias ≡ none)
          × ((k : Pointer) → k < length reg.heap → alias ≢ 2 * k)
          × (lookup_delivery reg alias ≡ (none, false)))
unfolding lookup_alias lookup_delivery by_alias_or by_request_or_none
lookup_delivery-cases reg alias h = elim (Option-cases (find alias reg.by_alias)) [
  | inl e ↦ elim (Option-cases (find alias reg.by_request)) [
    | inl e1 ↦
        inr (inr (e, no_request (length reg.heap) alias (rw (← h.registered) e1), rw (e, e1) refl))
    | inr (p, e1) ↦
        let (lt, eq) = find_in_requests (length reg.heap) alias p (rw (← h.registered) e1) in
        inr (inl (p, lt, e, eq, rw (e, e1) refl))
  ]
  | inr (p, e) ↦ inl (p, find_bound (length reg.heap) alias reg.by_alias p h.bound e, e, rw e refl)
]

-- In a well-formed registry, while no alias is bound to the request ID of a subscription, the
-- stream with this ID for its alias is delivered to that subscription, as pending; once
-- `bindAlias` has bound the alias, to the one it was bound to.
pub lookup_delivery-bind_alias :
    (reg : SubscriptionRegistry) (k p : Pointer)
    → IsRegistry reg
    → k < length reg.heap
    → lookup_alias reg (2 * k) ≡ none
    → (lookup_delivery reg (2 * k) ≡ (some k, true))
      × (lookup_delivery (bind_alias reg p (2 * k)) (2 * k) ≡ (some p, false))
unfolding lookup_alias lookup_delivery by_alias_or by_request_or_none bind_alias
lookup_delivery-bind_alias reg k p h lt e = (
  rw (e, h.registered, find-requests_up_to (length reg.heap) k lt) refl,
  unfold find in rw ((==_iff (2 * k) (2 * k)).1 refl) refl,
)
