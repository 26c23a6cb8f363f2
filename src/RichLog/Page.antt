-- ===== src/RichLog/Page.antt =====
-- internal/richlog/html.go, behind the page's template, and `SpecRef.URL`. The times are left out; the
-- template's text and `os.Create` are the parameters of `write_html`.
pub mod Order
use moqsub.Common.{
  ℕ, ◌^◌, String, List, [], ◌∷◌, ◌++◌, Bool, true, false, Option, none, some, leb, ltb, ◌==◌, ◌&&◌,
  ◌||◌, if◌then◌else◌, length,
}
use moqsub.Common.Result.{Error, wrapped, Arg, num, text, ratio, int64}
use moqsub.RichLog.{
  Text, Direction, dir_sent, dir_recv, dir_local, GroupKey, Event, ObjectRow, ObjectGroup, Recorder,
  find_group,
}

-- "https://datatracker.ietf.org/doc/html/draft-ietf-moq-transport-18"
abbrev pub spec_base : List ℕ
spec_base =
    104 ∷ 116 ∷ 116 ∷ 112 ∷ 115 ∷ 58 ∷ 47 ∷ 47 ∷ 100 ∷ 97 ∷ 116 ∷ 97 ∷ 116 ∷ 114 ∷ 97 ∷ 99 ∷ 107
    ∷ 101 ∷ 114 ∷ 46 ∷ 105 ∷ 101 ∷ 116 ∷ 102 ∷ 46 ∷ 111 ∷ 114 ∷ 103 ∷ 47 ∷ 100 ∷ 111 ∷ 99 ∷ 47 ∷ 104
    ∷ 116 ∷ 109 ∷ 108 ∷ 47 ∷ 100 ∷ 114 ∷ 97 ∷ 102 ∷ 116 ∷ 45 ∷ 105 ∷ 101 ∷ 116 ∷ 102 ∷ 45 ∷ 109
    ∷ 111 ∷ 113 ∷ 45 ∷ 116 ∷ 114 ∷ 97 ∷ 110 ∷ 115 ∷ 112 ∷ 111 ∷ 114 ∷ 116 ∷ 45 ∷ 49 ∷ 56 ∷ []

-- "#section-"
abbrev pub section_anchor : List ℕ
section_anchor = 35 ∷ 115 ∷ 101 ∷ 99 ∷ 116 ∷ 105 ∷ 111 ∷ 110 ∷ 45 ∷ []

pub record SpecRef : Type 0 where
  pub label : List ℕ
  pub section : List ℕ

unfoldable pub spec_url : SpecRef → List ℕ
spec_url s = if length s.section == 0 then [] else spec_base ++ section_anchor ++ s.section

-- The argument is an int64, as its 64 bits.
unfoldable pub human_bytes : ℕ → Text
human_bytes n =
    if leb (2 ^ 63) n
    then record { format = "%d B"; args = int64 n ∷ [] }
    else if leb (2 ^ 20) n
    then record { format = "%.1f MB"; args = ratio n (2 ^ 20) ∷ [] }
    else if leb (2 ^ 10) n
    then record { format = "%.1f KB"; args = ratio n (2 ^ 10) ∷ [] }
    else record { format = "%d B"; args = int64 n ∷ [] }

unfoldable pub first_id : List ObjectRow → ℕ
first_id [] = 0
first_id (row ∷ rows) = row.object_id

unfoldable pub last_id : List ObjectRow → ℕ
last_id [] = 0
last_id (row ∷ []) = row.object_id
last_id (row ∷ next ∷ rows) = last_id (next ∷ rows)

-- The line of a group, as the two texts that it is put together from.
unfoldable pub group_line : ObjectGroup → List Text
group_line g =
    record {
      format = "track %s · group %d · %d objects (ids %d–%d) · ";
      args =
          text g.track
          ∷ num g.group_id
          ∷ num (length g.rows)
          ∷ num (first_id g.rows)
          ∷ num (last_id g.rows)
          ∷ [];
    }
    ∷ human_bytes g.total_bytes
    ∷ []

unfoldable pub line_of : Option ObjectGroup → Text → List Text
line_of (some g) summary = group_line g
line_of none summary = summary ∷ []

-- The group that an event stands for.
unfoldable pub obj_group : Recorder → Event → Option ObjectGroup
obj_group rec ev = elim ev.objects [ none ↦ none | some k ↦ find_group k rec.groups ]

unfoldable pub summary_line : Recorder → Event → List Text
summary_line rec ev = line_of (obj_group rec ev) ev.summary

unfoldable pub dir_class : Direction → String
dir_class dir_sent = "dir-sent"
dir_class dir_recv = "dir-received"
dir_class dir_local = "dir-local"

unfoldable pub dir_label : Direction → String
dir_label dir_sent = "→ sent"
dir_label dir_recv = "← recv"
dir_label dir_local = "· local"

-- `<` on Go strings.
unfoldable pub bytes_lt : List ℕ → List ℕ → Bool
bytes_lt [] [] = false
bytes_lt [] (b ∷ bs) = true
bytes_lt (a ∷ as') [] = false
bytes_lt (a ∷ as') (b ∷ bs) = ltb a b || (a == b) && bytes_lt as' bs

-- `sort.Slice` by key, on keys of which no two are equal.
unfoldable pub insert_meta : List ℕ × List ℕ → List (List ℕ × List ℕ) → List (List ℕ × List ℕ)
insert_meta x [] = x ∷ []
insert_meta x (y ∷ ys) =
    let rest = insert_meta x ys in if bytes_lt y.0 x.0 then y ∷ rest else x ∷ y ∷ ys

unfoldable pub sort_metas : List (List ℕ × List ℕ) → List (List ℕ × List ℕ)
sort_metas [] = []
sort_metas (x ∷ xs) = insert_meta x (sort_metas xs)

-- What the template gets. An event's group is that of the recorder.
pub record Page : Type 0 where
  pub metas : List (List ℕ × List ℕ)
  pub events : List Event
  pub num_events : ℕ

unfoldable pub page : Recorder → Page
page rec = record {
  metas = sort_metas rec.meta;
  events = rec.events;
  num_events = length rec.events;
}

-- The first error, wrapped by its text.
unfoldable pub or_else : String → Option Error → Option Error → Option Error
or_else f none next = next
or_else f (some e) next = some (wrapped f [] e)

-- `Recorder.WriteHTML`: nil without a recorder or a path.
unfoldable pub write_html :
    (create : List ℕ → Option Error)
    → (execute : List ℕ → Page → Option Error) → Option Recorder
    → (path : List ℕ) → Option Error
write_html create execute none path = none
write_html create execute (some rec) path =
    if length path == 0
    then none
    else or_else "create rich log: %w" (create path)
        (or_else "render rich log: %w" (execute path (page rec)) none)
