-- ===== src/Runner/Subgroups.antt =====
-- internal/app/run.go: `handleSubgroupStream`.
use moqsub.Common.{
  ℕ, zero, suc, List, [], ◌∷◌, Option, none, some, if◌then◌else◌, length, get_elem?,
}
use moqsub.Common.Result.{Error, wrapped, is_eof, num, text, bool, ok, err, panic, stuck, wrap}
use moqsub.Reader.{Reader}
use moqsub.Subgroup.{
  SubgroupHeader, SubgroupObject, SubgroupObjectReader, new_subgroup_object_reader,
  parse_subgroup_header, next,
}
use moqsub.RichLog.{Event, dir_recv, add_object}
use moqsub.Registry.{TrackSubscription, Pointer, lookup_delivery}
use moqsub.Runner.{
  Runner, Outcome, add_uint64, fmt, field, and_then, rich_add, count_object,
  deliver_subgroup_object,
}

-- "(unknown)"
abbrev pub unknown_track : List ℕ
unknown_track = 40 ∷ 117 ∷ 110 ∷ 107 ∷ 110 ∷ 111 ∷ 119 ∷ 110 ∷ 41 ∷ []

unfoldable pub name_of : Option TrackSubscription → List ℕ
name_of none = unknown_track
name_of (some sub) = sub.track_name

unfoldable pub track_name_of : {W : Type 0} → Runner W → Option Pointer → List ℕ
track_name_of r none = unknown_track
track_name_of r (some p) = name_of (get_elem? r.subs.heap p)

unfoldable pub header_event : (stream_id : ℕ) → (track_name : List ℕ) → SubgroupHeader → Event
header_event stream_id track_name header = record {
  dir = dir_recv;
  channel = fmt "subgroup stream %d" (num stream_id ∷ []);
  name = "SUBGROUP_HEADER";
  summary = fmt "track %s · alias %d · group %d · priority %d" (
      text track_name
      ∷ num header.track_alias
      ∷ num header.group_id
      ∷ num header.publisher_priority
      ∷ []);
  fields =
      field "stream_id" "%d" (num stream_id ∷ [])
      ∷ field "stream_type" "0x%x" (num header.kind ∷ [])
      ∷ field "track_alias" "%d" (num header.track_alias ∷ [])
      ∷ field "group_id" "%d" (num header.group_id ∷ [])
      ∷ field "subgroup_id" "%d" (num header.subgroup_id ∷ [])
      ∷ field "has_extensions" "%t" (bool header.has_extensions ∷ [])
      ∷ field "end_of_group" "%t" (bool header.end_of_group ∷ [])
      ∷ field "publisher_priority" "%d" (num header.publisher_priority ∷ [])
      ∷ [];
  body = [];
  objects = none;
}

module _ {W : Type 0} (write_to : List ℕ → W → Option Error × W) (elapsed : ℕ → ℕ) where
  -- `rich.AddObject`, behind a delivery without an error.
  unfoldable pub record_delivery :
      (stream_id : ℕ) → SubgroupHeader → Pointer → SubgroupObject → Outcome W → Outcome W
  record_delivery stream_id header p obj (r, ok x) = (
    record r {
      rich =
          add_object r.rich stream_id (track_name_of r (some p)) header.track_alias header.group_id
            obj.object_id (length obj.payload);
    },
    ok tt,
  )
  record_delivery stream_id header p obj (r, err e) = (r, err (wrapped "deliver object: %w" [] e))
  record_delivery stream_id header p obj (r, panic) = (r, panic)
  record_delivery stream_id header p obj (r, stuck) = (r, stuck)

  -- A stream of no subscription is read and its objects are dropped.
  unfoldable pub deliver_mapped :
      (stream_id : ℕ) → SubgroupHeader → Option Pointer → SubgroupObject → Runner W → Outcome W
  deliver_mapped stream_id header none obj r = (r, ok tt)
  deliver_mapped stream_id header (some p) obj r =
      record_delivery stream_id header p obj
        (deliver_subgroup_object write_to elapsed p obj.payload r)

  -- The body of the loop behind `Next`.
  unfoldable pub receive_object :
      (stream_id : ℕ) → SubgroupHeader → Option Pointer → SubgroupObject → Runner W → Outcome W
  receive_object stream_id header sub obj r =
      let r1 : Runner W = record r { stats = count_object obj r.stats } in
      if obj.is_status_object then (r1, ok tt) else deliver_mapped stream_id header sub obj r1

  unfoldable pub receive_objects :
      (fuel stream_id : ℕ)
      → SubgroupHeader
      → Option Pointer
      → SubgroupObjectReader
      → Runner W
      → Outcome W
  receive_objects zero stream_id header sub s r = (r, stuck)
  receive_objects (suc fuel) stream_id header sub s r = elim (next s) [
    | err e ↦ (r, if is_eof e then ok tt else err e)
    | panic ↦ (r, panic)
    | stuck ↦ (r, stuck)
    | ok (obj, s1) ↦
        and_then (receive_object stream_id header sub obj r)
          (λ r1. receive_objects fuel stream_id header sub s1 r1)
  ]

  -- What follows the header. An object takes a byte at least, so that the bytes of the stream bound the
  -- runs of the loop.
  unfoldable pub receive_subgroup : (stream_id : ℕ) → SubgroupHeader → Reader → Runner W → Outcome W
  receive_subgroup stream_id header reader r =
      let st = record (r.stats) { groups_seen = add_uint64 r.stats.groups_seen 1 } in
      let (sub, _) = lookup_delivery r.subs header.track_alias in
      receive_objects (suc (length reader.bytes)) stream_id header sub
        (new_subgroup_object_reader reader header)
        (rich_add (header_event stream_id (track_name_of r sub) header) (record r { stats = st }))

  unfoldable pub handle_subgroup_stream :
      (stream_id stream_type : ℕ) → Reader → Runner W → Outcome W
  handle_subgroup_stream stream_id stream_type stream r =
      elim (wrap "parse subgroup header: %w" [] (parse_subgroup_header stream stream_type)) [
        | ok (header, reader) ↦ receive_subgroup stream_id header reader r
        | err e ↦ (r, err e)
        | panic ↦ (r, panic)
        | stuck ↦ (r, stuck)
      ]
