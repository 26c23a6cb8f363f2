-- ===== src/Runner/Media.antt =====
-- What a subgroup stream of a publisher's objects comes to: the objects are taken one by one, and a
-- media track's payloads reach the output in their order.
use moqsub.Common.{
  ℕ, zero, suc, ◌+◌, ◌%◌, ◌^◌, ◌<◌, ◌≡◌, refl, sym, ap, subst, ◌∙◌, inl, inr, List, [], ◌∷◌, Bool,
  true, false, not, Bool-cases, Option, none, some, ◌==◌, if◌then◌else◌, if-eq_true, if-eq_false,
  arith, length, get_elem?,
}
use moqsub.Common.Result.{Error, eof, is_eof, ok, err}
use moqsub.Varint.RoundTrip.{read_varint-nil}
use moqsub.Subgroup.{SubgroupHeader, SubgroupObject, SubgroupObjectReader, next}
use moqsub.Subgroup.Layout.{Sent, next-wire}
use moqsub.Subgroup.Objects.{objects_wire, AllFollow, all_received}
use moqsub.Subgroup.Progress.{next_takes}
use moqsub.Registry.{role_media, TrackSubscription, Pointer, SubscriptionRegistry}
use moqsub.Runner.{
  Runner, Outcome, add_uint64, and_then, count_object, count_written, write_payload,
  record_first_object, count_if_written, deliver_as, deliver_subgroup_object,
}
use moqsub.Runner.Subgroups.{record_delivery, deliver_mapped, receive_object, receive_objects}
use moqsub.Runner.Delivery.{and_then-ext}

next_at_end :
    (ext : Bool) (prev : Option ℕ)
    → next (record {
      r = record { bytes = []; fin = eof };
      has_extensions = ext;
      prev_object_id = prev;
    })
      ≡ err eof
unfolding next
next_at_end ext prev = rw (read_varint-nil) refl

module _ {W : Type 0} (write_to : List ℕ → W → Option Error × W) (elapsed : ℕ → ℕ) where
  module _ (stream_id : ℕ) (header : SubgroupHeader) (sub : Option Pointer) where
    -- The objects of a list, one after the other, up to the first error.
    unfoldable pub receive_all : List SubgroupObject → Runner W → Outcome W
    receive_all [] r = (r, ok tt)
    receive_all (obj ∷ objs) r =
        and_then (receive_object write_to elapsed stream_id header sub obj r)
          (λ r1. receive_all objs r1)

    receive_objects_end :
        (fuel : ℕ) (s : SubgroupObjectReader) (r : Runner W) (x : Error)
        → next s ≡ err x
        → receive_objects write_to elapsed (suc fuel) stream_id header sub s r
          ≡ (r, if is_eof x then ok tt else err x)
    unfolding receive_objects
    receive_objects_end fuel s r x e = rw (receive_objects, e) refl

    receive_objects_next :
        (fuel : ℕ) (s : SubgroupObjectReader) (r : Runner W) (obj : SubgroupObject)
        (s1 : SubgroupObjectReader)
        → next s ≡ ok (obj, s1)
        → receive_objects write_to elapsed (suc fuel) stream_id header sub s r
          ≡ and_then
              (receive_object write_to elapsed stream_id header sub obj r)
              (λ r1. receive_objects write_to elapsed fuel stream_id header sub s1 r1)
    unfolding receive_objects
    receive_objects_next fuel s r obj s1 e = rw (receive_objects, e) refl

    -- On the bytes of a publisher's objects, with IDs that increase and sizes that can be
    -- allocated, in front of the end of the stream, and with more fuel than bytes, the loop takes
    -- exactly these objects in their order, up to the first error, and without one it returns
    -- none.
    pub receive_objects-objects_wire :
        (fuel : ℕ) (ext : Bool) (prev : Option ℕ) (os : List Sent) (r : Runner W)
        → AllFollow prev os
        → length (objects_wire ext prev os) < fuel
        → receive_objects write_to elapsed fuel stream_id header sub
            (record {
              r = record { bytes = objects_wire ext prev os; fin = eof };
              has_extensions = ext;
              prev_object_id = prev;
            })
            r
          ≡ receive_all (all_received ext prev os) r
    unfolding receive_all objects_wire
    receive_objects-objects_wire zero ext prev os r h lt = absurd (omega arith)
    receive_objects-objects_wire (suc fuel) ext prev [] r h lt =
        receive_objects_end fuel _ r eof (next_at_end ext prev) ∙ unfold is_eof in refl
    receive_objects-objects_wire (suc fuel) ext prev (o ∷ os) r h lt =
        let e = next-wire ext prev o (objects_wire ext (some o.id) os) eof h.0 in
        let shorter = next_takes _ _ _ e in
        receive_objects_next fuel _ r _ _ e
        ∙ and_then-ext _ _ _ (λ r1.
          receive_objects-objects_wire fuel ext (some o.id) os r1 h.1 (omega (arith, shorter)))

  -- The payloads of the objects that are no status objects.
  unfoldable pub payloads : List SubgroupObject → List (List ℕ)
  payloads [] = []
  payloads (obj ∷ objs) =
      if obj.is_status_object then payloads objs else obj.payload ∷ payloads objs

  -- The output behind these writes.
  unfoldable pub write_all : List (List ℕ) → W → W
  write_all [] w = w
  write_all (p ∷ ps) w = write_all ps ((write_to p w).1)

  -- The counters of a media track.
  unfoldable pub total : List (List ℕ) → ℕ
  total [] = 0
  total (p ∷ ps) = length p + total ps

  module _ (stream_id : ℕ) (header : SubgroupHeader) (p : Pointer) (sub : TrackSubscription)
      (media : sub.role ≡ role_media)
      (accepts : (payload : List ℕ) (w : W) → (write_to payload w).0 ≡ none) where
    record_first_object_keeps :
        (r : Runner W)
        → ((record_first_object write_to elapsed r).subs ≡ r.subs)
          × ((record_first_object write_to elapsed r).sink ≡ r.sink)
          × ((record_first_object write_to elapsed r).stats.bytes_written ≡ r.stats.bytes_written)
    unfolding record_first_object
    record_first_object_keeps r = elim (Bool-cases (not (r.stats.first_object_nanos == 0))) [
      | inl h ↦ rw h (refl, refl, refl)
      | inr h ↦ rw h (refl, refl, refl)
    ]

    -- The state behind a payload that was written.
    abbrev written : List ℕ → Runner W → Runner W
    written payload r =
        let r1 = record_first_object write_to elapsed r in
        record r1 {
          sink = (write_to payload r1.sink).1;
          stats = count_written (length payload) r1.stats;
        }

    deliver_subgroup_object-media :
        (payload : List ℕ) (r : Runner W)
        → get_elem? r.subs.heap p ≡ some sub
        → deliver_subgroup_object write_to elapsed p payload r ≡ (written payload r, ok tt)
    unfolding deliver_subgroup_object deliver_as write_payload count_if_written
    deliver_subgroup_object-media payload r h = rw (deliver_subgroup_object, h, media, accepts) refl

    -- The state behind an object of the track.
    abbrev taken : SubgroupObject → Runner W → Runner W
    taken obj r = record r { stats = count_object obj r.stats }

    receive_object_status :
        (obj : SubgroupObject) (r : Runner W)
        → obj.is_status_object ≡ true
        → receive_object write_to elapsed stream_id header (some p) obj r ≡ (taken obj r, ok tt)
    unfolding receive_object
    receive_object_status obj r h = if-eq_true obj.is_status_object _ _ h

    receive_object_payload :
        (obj : SubgroupObject) (r : Runner W)
        → obj.is_status_object ≡ false
        → get_elem? r.subs.heap p ≡ some sub
        → (r' : Runner W) × (receive_object write_to elapsed stream_id header (some p) obj r
            ≡ (r', ok tt))
          × (r'.subs ≡ r.subs)
          × (r'.sink ≡ (write_to obj.payload r.sink).1)
          × (r'.stats.bytes_written ≡ add_uint64 r.stats.bytes_written (length obj.payload))
    unfolding receive_object deliver_mapped record_delivery count_written count_object
    receive_object_payload obj r h i =
        let (subs, sink, bytes) = record_first_object_keeps (taken obj r) in
        (
          _,
          if-eq_false obj.is_status_object _ _ h
              ∙ ap (record_delivery write_to elapsed stream_id header p obj)
                  (deliver_subgroup_object-media obj.payload (taken obj r) i),
          subs,
          ap (λ w. (write_to obj.payload w).1) sink,
          ap (λ n. add_uint64 n (length obj.payload)) bytes,
        )

    receive_all_step :
        (obj : SubgroupObject) (objs : List SubgroupObject) (r r1 : Runner W)
        → receive_object write_to elapsed stream_id header (some p) obj r ≡ (r1, ok tt)
        → receive_all stream_id header (some p) (obj ∷ objs) r
          ≡ receive_all stream_id header (some p) objs r1
    unfolding receive_all and_then
    receive_all_step obj objs r r1 e =
        ap (λ o. and_then o (λ r2. receive_all stream_id header (some p) objs r2)) e

    payloads_status :
        (obj : SubgroupObject) (objs : List SubgroupObject)
        → obj.is_status_object ≡ true
        → payloads (obj ∷ objs) ≡ payloads objs
    unfolding payloads
    payloads_status obj objs t = if-eq_true obj.is_status_object _ _ t

    payloads_payload :
        (obj : SubgroupObject) (objs : List SubgroupObject)
        → obj.is_status_object ≡ false
        → payloads (obj ∷ objs) ≡ obj.payload ∷ payloads objs
    unfolding payloads
    payloads_payload obj objs f = if-eq_false obj.is_status_object _ _ f

    -- For a subscription of role media and an output that takes every write, the objects are taken
    -- without an error, the payloads of those that are no status objects reach the output in their
    -- order, and their bytes are added to the bytes written, in 64 bits.
    pub receive_all-media :
        (objs : List SubgroupObject) (r : Runner W)
        → get_elem? r.subs.heap p ≡ some sub
        → r.stats.bytes_written < 2 ^ 64
        → (r' : Runner W) × (receive_all stream_id header (some p) objs r ≡ (r', ok tt))
          × (r'.sink ≡ write_all (payloads objs) r.sink)
          × (r'.stats.bytes_written ≡ (r.stats.bytes_written + total (payloads objs)) % 2 ^ 64)
    unfolding total write_all count_object
    receive_all-media [] r h small = unfold receive_all payloads in (r, refl, refl, omega arith)
    receive_all-media (obj ∷ objs) r h small = elim (Bool-cases obj.is_status_object) [
      | inl t ↦
          let (r', e, sink, bytes) = receive_all-media objs (taken obj r) h small in
          (
            r',
            receive_all_step obj objs r (taken obj r) (receive_object_status obj r t) ∙ e,
            sink ∙ ap (λ ps. write_all ps r.sink) (sym (payloads_status obj objs t)),
            bytes
                ∙ ap (λ ps. (r.stats.bytes_written + total ps) % 2 ^ 64)
                    (sym (payloads_status obj objs t)),
          )
      | inr f ↦
          let (r1, e1, subs1, sink1, bytes1) = receive_object_payload obj r f h in
          let (r', e, sink, bytes) =
            receive_all-media objs r1
              (subst (λ (reg : SubscriptionRegistry). get_elem? reg.heap p ≡ some sub) (sym subs1)
                h)
              (omega (arith, bytes1)) in
          (
            r',
            receive_all_step obj objs r r1 e1 ∙ e,
            sink
                ∙ ap (λ w. write_all (payloads objs) w) sink1
                ∙ ap (λ ps. write_all ps r.sink) (sym (payloads_payload obj objs f)),
            omega (arith, bytes, bytes1)
                ∙ ap (λ ps. (r.stats.bytes_written + total ps) % 2 ^ 64)
                    (sym (payloads_payload obj objs f)),
          )
    ]
