-- ===== src/Registry.antt =====
-- internal/app/subscriptions.go: the subscriptions and their registry. A pointer to a subscription is
-- its place in `heap`; the fields that other goroutines change are changed there. A channel of
-- capacity 1 is what it holds; a nil channel is `none`.
pub mod Laws
use moqsub.Common.{
  ℕ, zero, suc, ◌+◌, ◌%◌, ◌^◌, ◌∙◌, List, [], ◌∷◌, ◌++◌, Bool, true, false, Option, none, some,
  ◌==◌, if◌then◌else◌, length, get_elem?,
}
use moqsub.Common.Result.{Error}

pub data TrackRole : Type 0 where
  role_catalog role_init role_media : TrackRole

-- `err` is the error, `none` for nil.
pub record SubscribeResult : Type 0 where
  pub alias : ℕ
  pub failure : Option Error

-- The field `stream`, which nothing reads, is left out.
pub record TrackSubscription : Type 0 where
  pub request_id : ℕ
  pub namespace : List ℕ
  pub track_name : List ℕ
  pub role : TrackRole
  pub ok_ch : Option SubscribeResult
  pub first_obj_ch : Option (Option (List ℕ))
  pub got_first : Bool

abbrev pub Pointer : Type 0
Pointer = ℕ

pub record SubscriptionRegistry : Type 0 where
  pub heap : List TrackSubscription
  pub by_request : List (ℕ × Pointer)
  pub by_alias : List (ℕ × Pointer)
  pub next_id : ℕ

abbrev pub new_subscription_registry : SubscriptionRegistry
new_subscription_registry = record { heap = []; by_request = []; by_alias = []; next_id = 0 }

-- A map's lookup, and its assignment: the newest pair of a key counts.
unfoldable pub find : ℕ → List (ℕ × Pointer) → Option Pointer
find k [] = none
find k ((k1, p) ∷ m) = if k == k1 then some p else find k m

unfoldable pub alloc_request_id : SubscriptionRegistry → ℕ × SubscriptionRegistry
alloc_request_id reg = (reg.next_id, record reg { next_id = (reg.next_id + 2) % 2 ^ 64 })

unfoldable pub register : SubscriptionRegistry → (request_id : ℕ) → Pointer → SubscriptionRegistry
register reg request_id p = record reg { by_request = (request_id, p) ∷ reg.by_request }

unfoldable pub bind_alias : SubscriptionRegistry → Pointer → ℕ → SubscriptionRegistry
bind_alias reg p alias = record reg { by_alias = (alias, p) ∷ reg.by_alias }

unfoldable pub lookup_alias : SubscriptionRegistry → ℕ → Option Pointer
lookup_alias reg alias = find alias reg.by_alias

-- What `lookupDelivery` falls back to, and whether the alias is pending.
unfoldable pub by_request_or_none : Option Pointer → Option Pointer × Bool
by_request_or_none (some p) = (some p, true)
by_request_or_none none = (none, false)

unfoldable pub by_alias_or : Option Pointer → Option Pointer × Bool → Option Pointer × Bool
by_alias_or (some p) other = (some p, false)
by_alias_or none other = other

unfoldable pub lookup_delivery : SubscriptionRegistry → ℕ → Option Pointer × Bool
lookup_delivery reg track_alias =
    by_alias_or (find track_alias reg.by_alias)
      (by_request_or_none (find track_alias reg.by_request))

-- `make(chan []byte, 1)` for the roles that wait for a first object.
unfoldable pub first_object_channel : TrackRole → Option (Option (List ℕ))
first_object_channel role_catalog = some none
first_object_channel role_init = some none
first_object_channel role_media = none

unfoldable pub new_track_subscription :
    (namespace track_name : List ℕ)
    → TrackRole
    → SubscriptionRegistry
    → Pointer × SubscriptionRegistry
new_track_subscription namespace track_name role reg =
    let (request_id, reg1) = alloc_request_id reg in
    let sub : TrackSubscription = record {
      request_id = request_id;
      namespace = namespace;
      track_name = track_name;
      role = role;
      ok_ch = none;
      first_obj_ch = first_object_channel role;
      got_first = false;
    } in
    let p = length reg1.heap in
    (p, register (record reg1 { heap = reg1.heap ++ sub ∷ [] }) request_id p)

-- A change of the subscription that a pointer refers to.
unfoldable pub change :
    (TrackSubscription → TrackSubscription)
    → Pointer
    → List TrackSubscription
    → List TrackSubscription
change f p [] = []
change f zero (sub ∷ subs) = f sub ∷ subs
change f (suc p) (sub ∷ subs) = sub ∷ change f p subs

-- `select { case ch <- v: default: }` on a channel of capacity 1.
unfoldable pub offer : {A : Type 0} → A → Option A → Option A
offer v none = some v
offer v (some w) = some w

-- The same on a channel that may be nil, which never takes a value.
unfoldable pub offer_object : List ℕ → Option (Option (List ℕ)) → Option (Option (List ℕ))
offer_object payload none = none
offer_object payload (some ch) = some (offer payload ch)

unfoldable pub offer_result : SubscribeResult → TrackSubscription → TrackSubscription
offer_result res sub = record sub { ok_ch = offer res sub.ok_ch }

-- What `deliverSubgroupObject` does for a track of which the first object alone is wanted.
unfoldable pub keep_first : List ℕ → TrackSubscription → TrackSubscription
keep_first payload sub =
    if sub.got_first
    then sub
    else record sub { got_first = true; first_obj_ch = offer_object payload sub.first_obj_ch }
