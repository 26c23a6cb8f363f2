-- ===== src/RichLog/Groups.antt =====
-- The groups of objects of the recorder: the rows of each, and its sum.
use moqsub.Common.{
  ℕ, ◌≡◌, refl, inl, inr, List, [], ◌∷◌, ◌++◌, true, false, Bool-cases, Option, none, some,
  if◌then◌else◌, arith,
}
use moqsub.RichLog.{
  GroupKey, ObjectRow, ObjectGroup, Recorder, same_key, find_group, set_group, add_row,
  group_or_new, add_object,
}

pub same_key_refl : (k : GroupKey) → same_key k k ≡ true
unfolding same_key
same_key_refl (s, g) = ground arith

pub same_key→eq : (k k1 : GroupKey) → same_key k k1 ≡ true → k ≡ k1
unfolding same_key
same_key→eq (s, g) (t, h) e = ground arith

pub find_group-set_group_same :
    (k : GroupKey) (grp : ObjectGroup) (gs : List (GroupKey × ObjectGroup))
    → find_group k (set_group k grp gs) ≡ some grp
unfolding find_group set_group
find_group-set_group_same k grp [] = rw (same_key_refl k) refl
find_group-set_group_same k grp ((k1, g1) ∷ gs) = elim (Bool-cases (same_key k k1)) [
  | inl h ↦ rw (h, h) refl
  | inr h ↦ rw (h, h) (find_group-set_group_same k grp gs)
]

pub find_group-set_group_other :
    (k j : GroupKey) (grp : ObjectGroup) (gs : List (GroupKey × ObjectGroup))
    → same_key j k ≡ false
    → find_group j (set_group k grp gs) ≡ find_group j gs
unfolding find_group set_group
find_group-set_group_other k j grp [] h = rw h refl
find_group-set_group_other k j grp ((k1, g1) ∷ gs) h = elim (Bool-cases (same_key k k1)) [
  | inl e ↦ rw (e, ← same_key→eq k k1 e, h) refl
  | inr e ↦ rw (e, find_group-set_group_other k j grp gs h) refl
]

-- The rows of a group, none where there is no such group.
unfoldable pub rows_of : Option ObjectGroup → List ObjectRow
rows_of none = []
rows_of (some grp) = grp.rows

abbrev pub recorded_rows : Option Recorder → GroupKey → List ObjectRow
recorded_rows none k = []
recorded_rows (some rec) k = rows_of (find_group k rec.groups)

rows-group_or_new :
    (found : Option ObjectGroup) (new : ObjectGroup)
    → new.rows ≡ []
    → (group_or_new found new).rows ≡ rows_of found
unfolding group_or_new rows_of
rows-group_or_new none new h = h
rows-group_or_new (some grp) new h = refl

module _ (rec : Recorder) (stream_id : ℕ) (track : List ℕ)
    (track_alias group_id object_id payload_bytes : ℕ) where
  -- Recording an object adds one row at the end of the group of its stream and group ID, empty
  -- where there was none, and leaves the rows of every other group as they were.
  pub recorded_rows-add_object :
      (j : GroupKey)
      → recorded_rows
          (add_object (some rec) stream_id track track_alias group_id object_id payload_bytes)
          j
        ≡ (if same_key j (stream_id, group_id)
            then recorded_rows (some rec) j
              ++ record { object_id = object_id; bytes = payload_bytes } ∷ []
            else recorded_rows (some rec) j)
  unfolding add_object
  recorded_rows-add_object j = elim (Bool-cases (same_key j (stream_id, group_id))) [
    | inl h ↦
        rw
          (
            h,
            same_key→eq j (stream_id, group_id) h,
            find_group-set_group_same (stream_id, group_id)
                (add_row (group_or_new (find_group (stream_id, group_id) rec.groups) _) object_id
                  payload_bytes)
                rec.groups,
          )
          (unfold rows_of add_row in rw (rows-group_or_new) refl)
    | inr h ↦ rw (h, find_group-set_group_other (stream_id, group_id) j _ rec.groups h) refl
  ]
