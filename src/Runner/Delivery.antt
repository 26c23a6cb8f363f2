-- ===== src/Runner/Delivery.antt =====
-- The handler of a subgroup stream: its end, and what it delivers of a publisher's objects.
use moqsub.Common.{
  ℕ, zero, suc, ◌<◌, ◌≡◌, refl, inl, inr, List, [], Bool, true, false, Bool-cases, Option, none,
  some, Option-cases, if◌then◌else◌, arith, length, get_elem?,
}
use moqsub.Common.Result.{Error, is_eof, ok, err, panic, stuck, Ends-wrap}
use moqsub.Reader.{Reader, read_full}
use moqsub.Reader.Laws.{read_full-Ends}
use moqsub.Subgroup.{
  SubgroupHeader, SubgroupObject, SubgroupObjectReader, is_subgroup_stream_type,
  subgroup_has_subgroup_id, read_subgroup_id, parse_subgroup_header, next,
}
use moqsub.Subgroup.Progress.{
  Returns, Returns-bind, Ends-Returns, Returns-cases, wrapped_varint-Returns, next-Returns,
  next_takes,
}
use moqsub.Registry.{TrackRole, role_catalog, role_init, role_media, Pointer}
use moqsub.Runner.{Runner, Outcome, and_then, count_if_written, deliver_as, deliver_subgroup_object}
use moqsub.Runner.Subgroups.{
  record_delivery, deliver_mapped, receive_object, receive_objects, receive_subgroup,
  handle_subgroup_stream,
}

and_then-Returns :
    {W : Type 0} (o : Outcome W) (k : Runner W → Outcome W)
    → Returns o.1
    → ((r : Runner W) → Returns (k r).1)
    → Returns (and_then o k).1
unfolding and_then
and_then-Returns (r, ok x) k h f = f r
and_then-Returns (r, err e) k h f = tt
and_then-Returns (r, panic) k h f = tt
and_then-Returns (r, stuck) k h f = h

pub and_then-ext :
    {W : Type 0} (o : Outcome W) (k l : Runner W → Outcome W)
    → ((r : Runner W) → k r ≡ l r)
    → and_then o k ≡ and_then o l
unfolding and_then
and_then-ext (r, ok x) k l f = f r
and_then-ext (r, err e) k l f = refl
and_then-ext (r, panic) k l f = refl
and_then-ext (r, stuck) k l f = refl

either-Returns :
    {W : Type 0} (b : Bool) (o o' : Outcome W)
    → Returns o.1
    → Returns o'.1
    → Returns (if b then o else o').1
either-Returns true o o' h h' = h
either-Returns false o o' h h' = h'

read_subgroup_id-Returns : (b : Bool) (r : Reader) → Returns (read_subgroup_id b r)
unfolding read_subgroup_id
read_subgroup_id-Returns true r = wrapped_varint-Returns "subgroup id: %w" r
read_subgroup_id-Returns false r = tt

parse_subgroup_header-Returns : (r : Reader) (t : ℕ) → Returns (parse_subgroup_header r t)
unfolding parse_subgroup_header
parse_subgroup_header-Returns r t = elim (Bool-cases (is_subgroup_stream_type t)) [
  | inr h ↦ rw h tt
  | inl h ↦ rw h (
      Returns-bind _ _ (wrapped_varint-Returns "track alias: %w" r) λ (alias, r1).
        Returns-bind _ _ (wrapped_varint-Returns "group id: %w" r1) λ (group, r2).
          Returns-bind _ _ (read_subgroup_id-Returns (subgroup_has_subgroup_id t) r2)
            λ (subgroup, r3).
              Returns-bind _ _
                (Ends-Returns _
                  (Ends-wrap "publisher priority: %w" [] (read_full 1 r3) (read_full-Ends 1 r3)))
                λ _. tt)
]

module _ {W : Type 0} (write_to : List ℕ → W → Option Error × W) (elapsed : ℕ → ℕ) where
  count_if_written-Returns :
      (n : ℕ) (o : Option Error × Runner W) → Returns (count_if_written write_to elapsed n o).1
  unfolding count_if_written
  count_if_written-Returns n (some e, r) = tt
  count_if_written-Returns n (none, r) = tt

  deliver_as-Returns :
      (role : TrackRole) (p : Pointer) (payload : List ℕ) (r : Runner W)
      → Returns (deliver_as write_to elapsed role p payload r).1
  unfolding deliver_as
  deliver_as-Returns role_catalog p payload r = tt
  deliver_as-Returns role_init p payload r = tt
  deliver_as-Returns role_media p payload r = count_if_written-Returns (length payload) _

  deliver_subgroup_object-Returns :
      (p : Pointer) (payload : List ℕ) (r : Runner W)
      → Returns (deliver_subgroup_object write_to elapsed p payload r).1
  unfolding deliver_subgroup_object
  deliver_subgroup_object-Returns p payload r = elim (Option-cases (get_elem? r.subs.heap p)) [
    | inl h ↦ rw (Returns, h) tt
    | inr (sub, h) ↦ rw (Returns, h) (deliver_as-Returns sub.role p payload r)
  ]

  module _ (stream_id : ℕ) (header : SubgroupHeader) where
    record_delivery-Returns :
        (p : Pointer) (obj : SubgroupObject) (o : Outcome W)
        → Returns o.1
        → Returns (record_delivery write_to elapsed stream_id header p obj o).1
    unfolding record_delivery
    record_delivery-Returns p obj (r, ok x) h = tt
    record_delivery-Returns p obj (r, err e) h = tt
    record_delivery-Returns p obj (r, panic) h = tt
    record_delivery-Returns p obj (r, stuck) h = h

    deliver_mapped-Returns :
        (sub : Option Pointer) (obj : SubgroupObject) (r : Runner W)
        → Returns (deliver_mapped write_to elapsed stream_id header sub obj r).1
    unfolding deliver_mapped
    deliver_mapped-Returns none obj r = tt
    deliver_mapped-Returns (some p) obj r =
        record_delivery-Returns p obj (deliver_subgroup_object write_to elapsed p obj.payload r)
          (deliver_subgroup_object-Returns p obj.payload r)

    receive_object-Returns :
        (sub : Option Pointer) (obj : SubgroupObject) (r : Runner W)
        → Returns (receive_object write_to elapsed stream_id header sub obj r).1
    unfolding receive_object
    receive_object-Returns sub obj r =
        either-Returns obj.is_status_object _ _ tt (deliver_mapped-Returns sub obj _)

    receive_objects-Returns :
        (fuel : ℕ) (sub : Option Pointer) (s : SubgroupObjectReader) (r : Runner W)
        → length s.r.bytes < fuel
        → Returns (receive_objects write_to elapsed fuel stream_id header sub s r).1
    unfolding receive_objects
    receive_objects-Returns zero sub s r h = absurd (omega arith)
    receive_objects-Returns (suc fuel) sub s r h = elim (Returns-cases (next s) (next-Returns s)) [
      | inl ((obj, s1), e) ↦
          rw (Returns, e)
            (and_then-Returns (receive_object write_to elapsed stream_id header sub obj r) _
              (receive_object-Returns sub obj r)
              (λ r1. receive_objects-Returns fuel sub s1 r1 (omega (arith, next_takes s obj s1 e))))
      | inr (inl (x, e)) ↦
          rw (Returns, e) (elim (Bool-cases (is_eof x)) [ inl t ↦ rw t tt | inr f ↦ rw f tt ])
      | inr (inr e) ↦ rw (Returns, e) tt
    ]

  -- The handler of a subgroup stream comes to an end on every stream, whatever the output does: it
  -- returns, with or without an error, or it panics, and its loop does not run out of fuel.
  pub handle_subgroup_stream-Returns :
      (stream_id stream_type : ℕ) (stream : Reader) (r : Runner W)
      → Returns (handle_subgroup_stream write_to elapsed stream_id stream_type stream r).1
  unfolding handle_subgroup_stream receive_subgroup
  handle_subgroup_stream-Returns stream_id t stream r =
      elim (Returns-cases (parse_subgroup_header stream t)
        (parse_subgroup_header-Returns stream t)) [
          | inl ((header, reader), e) ↦
              rw (Returns, e)
                (receive_objects-Returns stream_id header (suc (length reader.bytes)) _ _ _
                  (omega arith))
          | inr (inl (x, e)) ↦ rw (Returns, e) tt
          | inr (inr e) ↦ rw (Returns, e) tt
        ]
