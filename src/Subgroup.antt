-- ===== src/Subgroup.antt =====
-- internal/moqt/draft18/stream.go: the header of a subgroup stream and the objects behind it.
pub mod Header
pub mod Layout
pub mod Objects
pub mod Faults
pub mod Progress
use moqsub.Common.{
  ℕ, ◌+◌, ◌%◌, ◌^◌, List, [], ◌∷◌, Bool, true, false, ◌&&◌, ◌||◌, not, Option, none, some, ltb, leb,
  ◌==◌, if◌then◌else◌, get_or,
}
use moqsub.Common.Result.{num, message, Result, ok, err, panic, wrap, ◌>>=◌, ◌>>◌}
use moqsub.Reader.{make_bytes, Reader, read_full}
use moqsub.Varint.{read_varint}

unfoldable pub is_subgroup_stream_type : ℕ → Bool
is_subgroup_stream_type t = (leb 0x10 t && leb t 0x15) || (leb 0x18 t && leb t 0x1d)

unfoldable pub subgroup_has_subgroup_id : ℕ → Bool
subgroup_has_subgroup_id t = t == 0x14 || t == 0x15 || t == 0x1c || t == 0x1d

unfoldable pub subgroup_has_extensions : ℕ → Bool
subgroup_has_extensions t =
    t == 0x11 || t == 0x13 || t == 0x15 || t == 0x19 || t == 0x1b || t == 0x1d

unfoldable pub subgroup_uses_first_object_id : ℕ → Bool
subgroup_uses_first_object_id t = t == 0x12 || t == 0x13 || t == 0x1a || t == 0x1b

-- `kind` is the field `Type`.
pub record SubgroupHeader : Type 0 where
  pub kind : ℕ
  pub track_alias : ℕ
  pub group_id : ℕ
  pub subgroup_id : ℕ
  pub has_subgroup_id : Bool
  pub has_extensions : Bool
  pub uses_first_object_id : Bool
  pub end_of_group : Bool
  pub publisher_priority : ℕ

-- The subgroup ID, which stays 0 where the type says that there is none.
unfoldable pub read_subgroup_id : Bool → Reader → Result (ℕ × Reader)
read_subgroup_id true r = wrap "subgroup id: %w" [] (read_varint r)
read_subgroup_id false r = ok (0, r)

unfoldable pub parse_subgroup_header : Reader → ℕ → Result (SubgroupHeader × Reader)
parse_subgroup_header r stream_type =
    if not (is_subgroup_stream_type stream_type)
    then err (message "not subgroup stream type: 0x%x" (num stream_type ∷ []))
    else do
      (alias, r1) ← wrap "track alias: %w" [] (read_varint r)
      (group, r2) ← wrap "group id: %w" [] (read_varint r1)
      (subgroup, r3) ← read_subgroup_id (subgroup_has_subgroup_id stream_type) r2
      (b, r4) ← wrap "publisher priority: %w" [] (read_full 1 r3)
      ok (
        record {
          kind = stream_type;
          track_alias = alias;
          group_id = group;
          subgroup_id = subgroup;
          has_subgroup_id = subgroup_has_subgroup_id stream_type;
          has_extensions = subgroup_has_extensions stream_type;
          uses_first_object_id = subgroup_uses_first_object_id stream_type;
          end_of_group = leb 0x18 stream_type;
          publisher_priority = get_or b 0 0;
        },
        r4,
      )

pub record SubgroupObject : Type 0 where
  pub object_id : ℕ
  pub object_id_delta : ℕ
  pub object_status : ℕ
  pub properties_raw : List ℕ
  pub payload : List ℕ
  pub payload_len : ℕ
  pub is_status_object : Bool

pub record SubgroupObjectReader : Type 0 where
  pub r : Reader
  pub has_extensions : Bool
  pub prev_object_id : Option ℕ

abbrev pub new_subgroup_object_reader : Reader → SubgroupHeader → SubgroupObjectReader
new_subgroup_object_reader r header = record {
  r = r;
  has_extensions = header.has_extensions;
  prev_object_id = none;
}

unfoldable pub next_object_id : Option ℕ → ℕ → ℕ
next_object_id none delta = delta
next_object_id (some prev) delta = (prev + delta + 1) % 2 ^ 64

-- The extension headers, a block of bytes behind its length.
unfoldable pub read_extensions : Bool → Reader → Result (List ℕ × Reader)
read_extensions false r = ok ([], r)
read_extensions true r = do
  (ext_len, r1) ← wrap "extension headers length: %w" [] (read_varint r)
  if ltb 0 ext_len
      then (do make_bytes ext_len; wrap "extension headers payload: %w" [] (read_full ext_len r1))
      else ok ([], r1)

-- What stands behind the payload length: the status, or the payload, with status Normal.
unfoldable pub read_content : ℕ → Reader → Result (ℕ × List ℕ × Bool × Reader)
read_content payload_len r =
    if payload_len == 0
    then (do (status, r1) ← wrap "object status: %w" [] (read_varint r); ok (status, [], true, r1))
    else (do
      make_bytes payload_len
      (payload, r1) ← wrap "object payload: %w" [] (read_full payload_len r)
      ok (0, payload, false, r1))

unfoldable pub next : SubgroupObjectReader → Result (SubgroupObject × SubgroupObjectReader)
next s = do
  (delta, r1) ← read_varint s.r
  let obj_id = next_object_id s.prev_object_id delta
  (props, r2) ← read_extensions s.has_extensions r1
  (payload_len, r3) ← wrap "payload length: %w" [] (read_varint r2)
  (status, payload, is_status, r4) ← read_content payload_len r3
  ok (
    record {
      object_id = obj_id;
      object_id_delta = delta;
      object_status = status;
      properties_raw = props;
      payload = payload;
      payload_len = payload_len;
      is_status_object = is_status;
    },
    record s { r = r4; prev_object_id = some obj_id },
  )
