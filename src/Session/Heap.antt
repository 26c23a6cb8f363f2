-- ===== src/Session/Heap.antt =====
-- What a change of one subscription leaves of the others, and of its own role.
use moqsub.Common.{
  ℕ, zero, suc, ◌≡◌, refl, ap, ◌∙◌, List, [], ◌∷◌, ◌++◌, some, All, length, get_elem?, inl, inr,
  Bool-cases, Option, none, if-eq_true, if-eq_false, sym, subst,
}
use moqsub.Registry.{
  TrackRole, role_catalog, role_init, role_media, TrackSubscription, Pointer, change, keep_first,
  offer_object, offer, first_object_channel,
}

-- The subscription that p refers to has this role.
abbrev pub RoleAt : TrackRole → Pointer → List TrackSubscription → Type 0
RoleAt role p heap = (sub : TrackSubscription) × (get_elem? heap p ≡ some sub) × (sub.role ≡ role)

pub some-injective : {A : Type 0} {a b : A} → some a ≡ some b → a ≡ b
some-injective h = cc

pub All-change :
    (P : TrackSubscription → Type 0) (f : TrackSubscription → TrackSubscription) (p : Pointer)
    (heap : List TrackSubscription)
    → ((sub : TrackSubscription) → get_elem? heap p ≡ some sub → P sub → P (f sub))
    → All P heap
    → All P (change f p heap)
unfolding change
All-change P f p [] h all = all
All-change P f zero (sub ∷ subs) h all = (h sub refl all.0, all.1)
All-change P f (suc p) (sub ∷ subs) h all = (all.0, All-change P f p subs h all.1)

pub All-at :
    (P : TrackSubscription → Type 0) (p : Pointer) (heap : List TrackSubscription)
    (sub : TrackSubscription)
    → get_elem? heap p ≡ some sub
    → All P heap
    → P sub
All-at P p [] sub e all = cc
All-at P zero (s ∷ subs) sub e all = subst P (some-injective e) all.0
All-at P (suc p) (s ∷ subs) sub e all = All-at P p subs sub e all.1

pub All-append_one :
    (P : TrackSubscription → Type 0) (heap : List TrackSubscription) (sub : TrackSubscription)
    → All P heap
    → P sub
    → All P (heap ++ sub ∷ [])
All-append_one P [] sub all h = (h, tt)
All-append_one P (s ∷ subs) sub all h = (all.0, All-append_one P subs sub all.1 h)

pub RoleAt-change :
    (f : TrackSubscription → TrackSubscription) (p : Pointer)
    → ((sub : TrackSubscription) → (f sub).role ≡ sub.role)
    → (role : TrackRole) (q : Pointer) (heap : List TrackSubscription) → RoleAt role q heap
    → RoleAt role q (change f p heap)
unfolding change
RoleAt-change f p same role q [] (sub, e, h) = cc
RoleAt-change f zero same role zero (s ∷ subs) (sub, e, h) =
    (f s, refl, same s ∙ ap (λ (x : TrackSubscription). x.role) (some-injective e) ∙ h)
RoleAt-change f zero same role (suc q) (s ∷ subs) at = at
RoleAt-change f (suc p) same role zero (s ∷ subs) at = at
RoleAt-change f (suc p) same role (suc q) (s ∷ subs) at = RoleAt-change f p same role q subs at

pub RoleAt-append :
    (role : TrackRole) (q : Pointer) (heap : List TrackSubscription) (sub : TrackSubscription)
    → RoleAt role q heap
    → RoleAt role q (heap ++ sub ∷ [])
RoleAt-append role q [] sub (s, e, h) = cc
RoleAt-append role zero (s ∷ subs) sub at = at
RoleAt-append role (suc q) (s ∷ subs) sub at = RoleAt-append role q subs sub at

pub RoleAt-last :
    (heap : List TrackSubscription) (sub : TrackSubscription)
    → RoleAt sub.role (length heap) (heap ++ sub ∷ [])
RoleAt-last [] sub = (sub, refl, refl)
RoleAt-last (s ∷ subs) sub = RoleAt-last subs sub

-- What the channel for a first object holds was sent to a subscription of its role.
abbrev pub Holds : (TrackRole → List ℕ → Type 0) → TrackSubscription → Type 0
Holds Published sub = (x : List ℕ) → sub.first_obj_ch ≡ some (some x) → Published sub.role x

pub keep_first_same :
    (payload : List ℕ) (sub : TrackSubscription)
    → ((keep_first payload sub).request_id ≡ sub.request_id)
      × ((keep_first payload sub).role ≡ sub.role)
unfolding keep_first
keep_first_same payload sub = elim (Bool-cases sub.got_first) [
  | inl h ↦ rw h (refl, refl)
  | inr h ↦ rw h (refl, refl)
]

Holds-offer :
    (P : List ℕ → Type 0) (payload x : List ℕ) (ch : Option (Option (List ℕ)))
    → P payload
    → (ch ≡ some (some x) → P x)
    → offer_object payload ch ≡ some (some x)
    → P x
unfolding offer_object offer
Holds-offer P payload x none new old e = cc
Holds-offer P payload x (some none) new old e = subst P (some-injective (some-injective e)) new
Holds-offer P payload x (some (some y)) new old e = old e

pub Holds-keep_first :
    (Published : TrackRole → List ℕ → Type 0) (payload : List ℕ) (sub : TrackSubscription)
    → Published sub.role payload
    → Holds Published sub
    → Holds Published (keep_first payload sub)
unfolding keep_first
Holds-keep_first Published payload sub new old = elim (Bool-cases sub.got_first) [
  | inl h ↦ subst (Holds Published) (sym (if-eq_true sub.got_first _ _ h)) old
  | inr h ↦
      subst (Holds Published) (sym (if-eq_false sub.got_first _ _ h))
        (λ x. Holds-offer (Published sub.role) payload x sub.first_obj_ch new (old x))
]

-- A new channel is empty.
pub Holds-new :
    (Published : TrackRole → List ℕ → Type 0) (role : TrackRole) (x : List ℕ)
    → first_object_channel role ≡ some (some x)
    → Published role x
unfolding first_object_channel
Holds-new Published role_catalog x e = cc
Holds-new Published role_init x e = cc
Holds-new Published role_media x e = cc
