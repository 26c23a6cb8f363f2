-- ===== src/Session/Kept.antt =====
-- What a session keeps in each phase, whatever the streams' goroutines do.
use moqsub.Common.{
  ℕ, ◌≡◌, inl, inr, refl, ap, ◌∙◌, sym, subst, List, [], ◌∷◌, ◌++◌, Option, All-append, arith,
  get_elem?, some,
}
use moqsub.Common.Result.{Error}
use moqsub.Registry.{
  TrackRole, role_init, role_media, TrackSubscription, Pointer, SubscriptionRegistry, change,
  keep_first, bind_alias,
}
use moqsub.Registry.Laws.{change-IsRegistry, bind_alias-IsRegistry, length-change}
use moqsub.Runner.Media.{write_all}
use moqsub.Session.Machine.{
  Phase, awaiting_setup, receiving, stopped, awaiting_catalog_ok, awaiting_catalog,
  awaiting_media_ok, awaiting_init_ok, awaiting_init, finished,
}
use moqsub.Session.Heap.{
  Holds, All-change, RoleAt-change, keep_first_same, Holds-keep_first, All-at, some-injective,
}
use moqsub.Session.Keeps.{Stable}
use moqsub.Session.Reach.{Placed, InitFirst, Silent, Output, Kept}

Placed-change :
    (f : TrackSubscription → TrackSubscription) (p : Pointer)
    → ((sub : TrackSubscription) → (f sub).role ≡ sub.role)
    → (phase : Phase) (heap : List TrackSubscription) → Placed phase heap
    → Placed phase (change f p heap)
unfolding Placed
Placed-change f p same awaiting_setup heap h = tt
Placed-change f p same (awaiting_catalog_ok q) heap h = tt
Placed-change f p same (awaiting_catalog q) heap h = tt
Placed-change f p same (awaiting_init_ok q init media) heap h =
    RoleAt-change f p same role_init q heap h
Placed-change f p same (awaiting_init q init media) heap h =
    RoleAt-change f p same role_init q heap h
Placed-change f p same (awaiting_media_ok q) heap h = tt
Placed-change f p same receiving heap h = tt
Placed-change f p same (finished e) heap h = tt
Placed-change f p same (stopped why) heap h = tt

module _ {W : Type 0} (write_to : List ℕ → W → Option Error × W) (elapsed : ℕ → ℕ) where
  pub write_all-append :
      (ps : List (List ℕ)) (p : List ℕ) (w : W)
      → write_all write_to elapsed (ps ++ p ∷ []) w
        ≡ (write_to p (write_all write_to elapsed ps w)).1
  unfolding write_all
  write_all-append [] p w = refl
  write_all-append (q ∷ ps) p w = write_all-append ps p (write_to q w).1

module _ {W : Type 0} (write_to : List ℕ → W → Option Error × W) (elapsed : ℕ → ℕ)
    (Published : TrackRole → List ℕ → Type 0) (w0 : W) where
  Silent-change :
      (f : TrackSubscription → TrackSubscription) (p : Pointer) (heap : List TrackSubscription)
      (w : W)
      → ((sub : TrackSubscription) → (f sub).role ≡ sub.role)
      → Silent write_to elapsed Published w0 heap w
      → Silent write_to elapsed Published w0 (change f p heap) w
  unfolding Silent
  Silent-change f p heap w same (quiet, e) =
      (All-change _ f p heap (λ sub at h. λ media. h (sym (same sub) ∙ media)) quiet, e)

  InitFirst-write :
      (payload : List ℕ) (w : W)
      → Published role_media payload
      → InitFirst write_to elapsed Published w0 w
      → InitFirst write_to elapsed Published w0 (write_to payload w).1
  InitFirst-write payload w new (init, fragments, i, all, e) = (
    init,
    fragments ++ payload ∷ [],
    i,
    All-append _ fragments (payload ∷ []) all (new, tt),
    ap (λ v. (write_to payload v).1) e
        ∙ sym (write_all-append write_to elapsed (init ∷ fragments) payload w0),
  )

  -- A media subscription in a silent session would be a contradiction.
  Silent-write :
      {A : Type 0} (p : Pointer) (sub : TrackSubscription) (heap : List TrackSubscription) (w : W)
      → get_elem? heap p ≡ some sub
      → sub.role ≡ role_media
      → Silent write_to elapsed Published w0 heap w
      → A
  unfolding Silent
  Silent-write p sub heap w at media (quiet, e) = absurd (All-at _ p heap sub at quiet media)

  Output-change :
      (phase : Phase) (f : TrackSubscription → TrackSubscription) (p : Pointer)
      (heap : List TrackSubscription) (w : W)
      → ((sub : TrackSubscription) → (f sub).role ≡ sub.role)
      → Output write_to elapsed Published w0 phase heap w
      → Output write_to elapsed Published w0 phase (change f p heap) w
  unfolding Output
  Output-change awaiting_setup f p heap w same h = Silent-change f p heap w same h
  Output-change (awaiting_catalog_ok q) f p heap w same h = Silent-change f p heap w same h
  Output-change (awaiting_catalog q) f p heap w same h = Silent-change f p heap w same h
  Output-change (awaiting_init_ok q init media) f p heap w same h = Silent-change f p heap w same h
  Output-change (awaiting_init q init media) f p heap w same h = Silent-change f p heap w same h
  Output-change (awaiting_media_ok q) f p heap w same h = h
  Output-change receiving f p heap w same h = h
  Output-change (finished e) f p heap w same (inl h) = inl (Silent-change f p heap w same h)
  Output-change (finished e) f p heap w same (inr h) = inr h
  Output-change (stopped why) f p heap w same (inl h) = inl (Silent-change f p heap w same h)
  Output-change (stopped why) f p heap w same (inr h) = inr h

  Output-write :
      (phase : Phase) (p : Pointer) (payload : List ℕ) (sub : TrackSubscription)
      (heap : List TrackSubscription) (w : W)
      → get_elem? heap p ≡ some sub
      → sub.role ≡ role_media
      → Published role_media payload
      → Output write_to elapsed Published w0 phase heap w
      → Output write_to elapsed Published w0 phase heap (write_to payload w).1
  unfolding Output
  Output-write awaiting_setup p x sub heap w at media new h = Silent-write p sub heap w at media h
  Output-write (awaiting_catalog_ok q) p x sub heap w at media new h =
      Silent-write p sub heap w at media h
  Output-write (awaiting_catalog q) p x sub heap w at media new h =
      Silent-write p sub heap w at media h
  Output-write (awaiting_init_ok q i m) p x sub heap w at media new h =
      Silent-write p sub heap w at media h
  Output-write (awaiting_init q i m) p x sub heap w at media new h =
      Silent-write p sub heap w at media h
  Output-write (awaiting_media_ok q) p x sub heap w at media new h = InitFirst-write x w new h
  Output-write receiving p x sub heap w at media new h = InitFirst-write x w new h
  Output-write (finished e) p x sub heap w at media new (inl h) =
      Silent-write p sub heap w at media h
  Output-write (finished e) p x sub heap w at media new (inr h) = inr (InitFirst-write x w new h)
  Output-write (stopped why) p x sub heap w at media new (inl h) =
      Silent-write p sub heap w at media h
  Output-write (stopped why) p x sub heap w at media new (inr h) = inr (InitFirst-write x w new h)

  change-Kept :
      (phase : Phase) (f : TrackSubscription → TrackSubscription) (p : Pointer)
      (reg : SubscriptionRegistry) (w : W)
      → ((sub : TrackSubscription) → (f sub).request_id ≡ sub.request_id)
      → ((sub : TrackSubscription) → (f sub).role ≡ sub.role)
      → ((sub : TrackSubscription)
          → get_elem? reg.heap p ≡ some sub
          → Holds Published sub
          → Holds Published (f sub))
      → Kept write_to elapsed Published w0 phase reg w
      → Kept write_to elapsed Published w0 phase (record reg { heap = change f p reg.heap }) w
  change-Kept phase f p reg w same_id same_role holds h = record {
    registry = change-IsRegistry f p reg same_id h.registry;
    few = (let same = length-change f p reg.heap in let n = h.few in omega (arith, same, n));
    held = All-change _ f p reg.heap holds h.held;
    placed = Placed-change f p same_role phase reg.heap h.placed;
    output = Output-change phase f p reg.heap w same_role h.output;
  }

  pub Kept-Stable :
      (phase : Phase) → Stable write_to Published (Kept write_to elapsed Published w0 phase)
  unfolding bind_alias
  Kept-Stable phase = record {
    changed = λ f p reg w quiet h.
        change-Kept phase f p reg w quiet.same_id quiet.same_role
          (λ sub at held x e.
            subst (λ role. Published role x) (sym (quiet.same_role sub))
              (held x (quiet.no_object sub x e)))
          h;
    bound = λ p alias reg w lt h. record {
      registry = bind_alias-IsRegistry reg p alias lt h.registry;
      few = h.few;
      held = h.held;
      placed = h.placed;
      output = h.output;
    };
    kept = λ p payload sub reg w at new h.
        change-Kept phase (keep_first payload) p reg w (λ s. (keep_first_same payload s).0)
          (λ s. (keep_first_same payload s).1)
          (λ s at' held.
            Holds-keep_first Published payload s
              (subst (λ (t : TrackSubscription). Published t.role payload)
                (some-injective (sym at ∙ at')) new)
              held)
          h;
    wrote = λ p payload sub reg w at media new h. record {
      registry = h.registry;
      few = h.few;
      held = h.held;
      placed = h.placed;
      output =
          Output-write phase p payload sub reg.heap w at media
            (subst (λ role. Published role payload) media new) h.output;
    };
  }
