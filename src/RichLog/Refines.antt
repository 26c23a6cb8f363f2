-- ===== src/RichLog/Refines.antt =====
-- The recorder against what it stands for: a log of deliveries, of which a group shows those of its stream
-- and group ID.
use moqsub.Common.{
  ◌≡◌, refl, ap, ◌∙◌, sym, subst, inl, inr, List, [], ◌∷◌, ◌++◌, false, Bool-cases, Option, none,
  some, arith, append-nil, append_assoc,
}
use moqsub.RichLog.{
  GroupKey, ObjectGroup, Recorder, Event, same_key, find_group, set_group, add_row, group_or_new,
  add, add_object, new_recorder,
}
use moqsub.RichLog.Groups.{same_key→eq, find_group-set_group_same, find_group-set_group_other}
use moqsub.RichLog.Log.{
  Delivery, key_of, row_of, Call, message, delivery, record_call, record_all, deliveries_of, Shows,
  deliveries_of-append, deliveries_of-same, deliveries_of-other, map-append_one,
  sum_bytes-append_one,
}

-- The group that `AddObject` makes where there is none.
abbrev group_of : Delivery → ObjectGroup
group_of d = record {
  stream_id = d.stream_id;
  track = d.track;
  track_alias = d.track_alias;
  group_id = d.group_id;
  rows = [];
  total_bytes = 0;
}

Shows-add_row :
    (found : Option ObjectGroup) (ds : List Delivery) (d : Delivery)
    → Shows found ds
    → Shows
        (some (add_row (group_or_new found (group_of d)) d.object_id d.payload_bytes))
        (ds ++ d ∷ [])
unfolding Shows add_row group_or_new
Shows-add_row none [] d h = (refl, refl, refl, refl, refl, omega arith)
Shows-add_row none (x ∷ ds) d h = absurd h
Shows-add_row (some grp) [] d h = absurd h
Shows-add_row (some grp) (x ∷ ds) d (s, t, a, g, rows, total) =
    let sum = sum_bytes-append_one ds d in
    (
      s,
      t,
      a,
      g,
      ap (λ l. l ++ row_of d ∷ []) rows ∙ sym (map-append_one (x ∷ ds) d),
      omega (arith, total, sum),
    )

-- There is a recorder, and it shows the log.
abbrev pub Refines : Option Recorder → List Call → Type 0
Refines none log = ⊥
Refines (some rec) log = (k : GroupKey) → Shows (find_group k rec.groups) (deliveries_of k log)

Shows-message :
    (found : Option ObjectGroup) (k : GroupKey) (log : List Call) (ev : Event)
    (plain : ev.objects ≡ none)
    → Shows found (deliveries_of k log)
    → Shows found (deliveries_of k (log ++ message ev plain ∷ []))
unfolding deliveries_of
Shows-message found k log ev plain h =
    subst (Shows found)
      (sym (deliveries_of-append k log (message ev plain) ∙ append-nil (deliveries_of k log))) h

Shows-delivery_same :
    (gs : List (GroupKey × ObjectGroup)) (log : List Call) (d : Delivery)
    → Shows (find_group (key_of d) gs) (deliveries_of (key_of d) log)
    → Shows
        (find_group (key_of d) (
          set_group
            (key_of d)
            (add_row
              (group_or_new (find_group (key_of d) gs) (group_of d))
              d.object_id
              d.payload_bytes)
            gs))
        (deliveries_of (key_of d) (log ++ delivery d ∷ []))
Shows-delivery_same gs log d h =
    rw
      (
        find_group-set_group_same (key_of d)
            (add_row (group_or_new (find_group (key_of d) gs) (group_of d)) d.object_id
              d.payload_bytes)
            gs,
        deliveries_of-append (key_of d) log (delivery d),
        deliveries_of-same d,
      )
      (Shows-add_row (find_group (key_of d) gs) (deliveries_of (key_of d) log) d h)

Shows-delivery_other :
    (gs : List (GroupKey × ObjectGroup)) (log : List Call) (d : Delivery) (k : GroupKey)
    (grp : ObjectGroup)
    → same_key k (key_of d) ≡ false
    → Shows (find_group k gs) (deliveries_of k log)
    → Shows (find_group k (set_group (key_of d) grp gs)) (deliveries_of k (log ++ delivery d ∷ []))
Shows-delivery_other gs log d k grp e h =
    rw
      (
        find_group-set_group_other (key_of d) k grp gs e,
        deliveries_of-append k log (delivery d),
        deliveries_of-other k d e,
        append-nil,
      )
      h

record_call-Refines :
    (rec : Option Recorder) (log : List Call) (c : Call)
    → Refines rec log
    → Refines (record_call rec c) (log ++ c ∷ [])
unfolding record_call add add_object
record_call-Refines none log c h = absurd h
record_call-Refines (some rec) log (message ev plain) h =
    λ k. Shows-message (find_group k rec.groups) k log ev plain (h k)
record_call-Refines (some rec) log (delivery d) h = λ k. elim (Bool-cases (same_key k (key_of d))) [
  | inl e ↦ rw (same_key→eq k (key_of d) e) (Shows-delivery_same rec.groups log d (h (key_of d)))
  | inr e ↦ Shows-delivery_other rec.groups log d k _ e (h k)
]

record_all-Refines_from :
    (rec : Option Recorder) (log calls : List Call)
    → Refines rec log
    → Refines (record_all rec calls) (log ++ calls)
unfolding record_all
record_all-Refines_from rec log [] h = subst (Refines rec) (sym (append-nil log)) h
record_all-Refines_from rec log (c ∷ cs) h =
    subst (Refines (record_all (record_call rec c) cs)) (append_assoc log (c ∷ []) cs) (
      record_all-Refines_from (record_call rec c) (log ++ c ∷ []) cs
        (record_call-Refines rec log c h))

-- Whatever messages and deliveries a session records, from an empty recorder on, the recorder refines the
-- log of them: under each stream and group ID there is a group exactly if the log has deliveries of it, and
-- it has the names of the first of them, one row of each in their order, and the sum of their sizes in 64
-- bits.
pub record_all-Refines : (calls : List Call) → Refines (record_all (some new_recorder) calls) calls
unfolding new_recorder
record_all-Refines calls =
    record_all-Refines_from (some new_recorder) [] calls
      (λ k. unfold find_group deliveries_of Shows in tt)
