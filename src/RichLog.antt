-- ===== src/RichLog.antt =====
-- internal/richlog/richlog.go: the recorder of a session's events. The time stamps are left out, and
-- the explanation and the reference to the draft, constant texts of an event's name.
pub mod Groups
pub mod Log
pub mod Refines
pub mod Page
use moqsub.Common.{
  ℕ, ◌+◌, ◌%◌, ◌^◌, String, List, [], ◌∷◌, ◌++◌, Bool, true, false, ◌&&◌, Option, none, some, ◌==◌,
  if◌then◌else◌, bytes_eq,
}
use moqsub.Common.Result.{Arg, num}

-- A text made by `fmt.Sprintf` or `fmt.Sprint`: the format and its arguments.
pub record Text : Type 0 where
  pub format : String
  pub args : List Arg

pub data Direction : Type 0 where
  dir_sent dir_recv dir_local : Direction

-- A group of objects is named by the stream and the group ID, the key "%d/%d" of the map.
abbrev pub GroupKey : Type 0
GroupKey = ℕ × ℕ

pub record Event : Type 0 where
  pub dir : Direction
  pub channel : Text
  pub name : String
  pub summary : Text
  pub fields : List (Text × Text)
  pub body : List ℕ
  pub objects : Option GroupKey

pub record ObjectRow : Type 0 where
  pub object_id : ℕ
  pub bytes : ℕ

-- `total_bytes` is an int64, as its 64 bits.
pub record ObjectGroup : Type 0 where
  pub stream_id : ℕ
  pub track : List ℕ
  pub track_alias : ℕ
  pub group_id : ℕ
  pub rows : List ObjectRow
  pub total_bytes : ℕ

pub record Recorder : Type 0 where
  pub meta : List (List ℕ × List ℕ)
  pub events : List Event
  pub groups : List (GroupKey × ObjectGroup)

unfoldable pub new_recorder : Recorder
new_recorder = record { meta = []; events = []; groups = [] }

-- `r.meta[key] = value`: the pair in place, or a new one.
unfoldable pub set_value : (key value : List ℕ) → List (List ℕ × List ℕ) → List (List ℕ × List ℕ)
set_value key value [] = (key, value) ∷ []
set_value key value ((k, v) ∷ m) =
    let rest = set_value key value m in if bytes_eq key k then (k, value) ∷ m else (k, v) ∷ rest

-- A nil recorder is `none`, on which every method does nothing.
unfoldable pub set_meta : Option Recorder → (key value : List ℕ) → Option Recorder
set_meta none key value = none
set_meta (some rec) key value = some (record rec { meta = set_value key value rec.meta })

unfoldable pub add : Option Recorder → Event → Option Recorder
add none ev = none
add (some rec) ev = some (record rec { events = rec.events ++ ev ∷ [] })

unfoldable pub same_key : GroupKey → GroupKey → Bool
same_key (s, g) (t, h) = (s == t) && (g == h)

unfoldable pub find_group : GroupKey → List (GroupKey × ObjectGroup) → Option ObjectGroup
find_group k [] = none
find_group k ((k1, grp) ∷ gs) = if same_key k k1 then some grp else find_group k gs

-- The object that a key names, changed in place.
unfoldable pub set_group :
    GroupKey → ObjectGroup → List (GroupKey × ObjectGroup) → List (GroupKey × ObjectGroup)
set_group k grp [] = (k, grp) ∷ []
set_group k grp ((k1, g1) ∷ gs) =
    let rest = set_group k grp gs in if same_key k k1 then (k1, grp) ∷ gs else (k1, g1) ∷ rest

unfoldable pub objects_event : ℕ → GroupKey → Event
objects_event stream_id k = record {
  dir = dir_recv;
  channel = record { format = "subgroup stream %d"; args = num stream_id ∷ [] };
  name = "OBJECTS";
  summary = record { format = ""; args = [] };
  fields = [];
  body = [];
  objects = some k;
}

unfoldable pub add_row : ObjectGroup → ℕ → ℕ → ObjectGroup
add_row grp object_id payload_bytes = record grp {
  rows = grp.rows ++ record { object_id = object_id; bytes = payload_bytes } ∷ [];
  total_bytes = (grp.total_bytes + payload_bytes) % 2 ^ 64;
}

-- `grp, ok := r.groups[key]`: the group that is there, or else the new one.
unfoldable pub group_or_new : Option ObjectGroup → ObjectGroup → ObjectGroup
group_or_new none new = new
group_or_new (some grp) new = grp

-- The event of a new group, which stands for its objects.
unfoldable pub new_events : Option ObjectGroup → Event → List Event
new_events none ev = ev ∷ []
new_events (some grp) ev = []

unfoldable pub add_object :
    Option Recorder
    → (stream_id : ℕ) → (track : List ℕ) → (track_alias group_id object_id payload_bytes : ℕ)
    → Option Recorder
add_object none stream_id track track_alias group_id object_id payload_bytes = none
add_object (some rec) stream_id track track_alias group_id object_id payload_bytes =
    let found = find_group (stream_id, group_id) rec.groups in
    let grp = group_or_new found (record {
      stream_id = stream_id;
      track = track;
      track_alias = track_alias;
      group_id = group_id;
      rows = [];
      total_bytes = 0;
    }) in
    some (record rec {
      events = rec.events ++ new_events found (objects_event stream_id (stream_id, group_id));
      groups = set_group (stream_id, group_id) (add_row grp object_id payload_bytes) rec.groups;
    })
