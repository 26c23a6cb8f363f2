-- ===== src/Tests/Objects.antt =====
-- Subgroup streams at concrete inputs.
use moqsub.Common.{◌^◌, ◌≡◌, refl, List, [], ◌∷◌, ◌++◌, true, false, none, some, arith}
use moqsub.Common.Result.{eof, wrapped, is_eof, ok, err, panic}
use moqsub.Reader.{read_full}
use moqsub.Varint.{append_varint, read_varint, extra_bytes, decode_varint_bytes}
use moqsub.Subgroup.{
  SubgroupHeader, parse_subgroup_header, is_subgroup_stream_type, SubgroupObject,
  SubgroupObjectReader, next, next_object_id, read_extensions, read_content,
}
use moqsub.Subgroup.Header.{header_wire, parse_subgroup_header-wire}
use moqsub.Subgroup.Layout.{Sent, payload, status}
use moqsub.Subgroup.Objects.{
  next_n, objects_wire, AllFollow, all_received, next_n-objects_wire, IsNext, next-IsNext,
}
use moqsub.Subgroup.Faults.{next_repeats_id, next_panics, next_eof_inside}

abbrev header : SubgroupHeader
header = record {
  kind = 0x14;
  track_alias = 4;
  group_id = 9;
  subgroup_id = 2;
  has_subgroup_id = true;
  has_extensions = false;
  uses_first_object_id = false;
  end_of_group = false;
  publisher_priority = 128;
}

parse_subgroup_header-wire_example :
    parse_subgroup_header (record { bytes = header_wire header ++ 0 ∷ []; fin = eof }) 0x14
    ≡ ok (header, record { bytes = 0 ∷ []; fin = eof })
parse_subgroup_header-wire_example =
    parse_subgroup_header-wire header (0 ∷ []) eof
      (is_subgroup, refl, refl, refl, refl, refl, omega arith, omega arith, omega arith)
  where
    is_subgroup : is_subgroup_stream_type 0x14 ≡ true
    is_subgroup = unfold is_subgroup_stream_type in refl

-- An object with a payload, a gap, and a status.
abbrev sent : List Sent
sent =
    record { id = 0; extensions = []; content = payload 8 (9 ∷ []) }
    ∷ record { id = 3; extensions = []; content = status 3 }
    ∷ []

sent-AllFollow : AllFollow none sent
sent-AllFollow = (
  (omega arith, omega arith, omega arith, omega arith),
  ((omega arith, omega arith, omega arith, omega arith), tt),
)

next_n-objects_wire_example :
    next_n 2 (record {
      r = record { bytes = objects_wire false none sent ++ []; fin = eof };
      has_extensions = false;
      prev_object_id = none;
    })
    ≡ ok (
      all_received false none sent,
      record {
        r = record { bytes = []; fin = eof };
        has_extensions = false;
        prev_object_id = some 3;
      },
    )
next_n-objects_wire_example = next_n-objects_wire false none sent [] eof sent-AllFollow

abbrev behind_five : SubgroupObjectReader
behind_five = record {
  r = record { bytes = 1 ∷ 1 ∷ 8 ∷ []; fin = eof };
  has_extensions = false;
  prev_object_id = some 5;
}

abbrev object_seven : SubgroupObject
object_seven = record {
  object_id = 7;
  object_id_delta = 1;
  object_status = 0;
  properties_raw = [];
  payload = 8 ∷ [];
  payload_len = 1;
  is_status_object = false;
}

abbrev behind_seven : SubgroupObjectReader
behind_seven = record {
  r = record { bytes = []; fin = eof };
  has_extensions = false;
  prev_object_id = some 7;
}

next_gives_seven : next behind_five ≡ ok (object_seven, behind_seven)
unfolding next next_object_id read_extensions read_content read_varint extra_bytes read_full
next_gives_seven = refl

next-IsNext_example : IsNext behind_five object_seven behind_seven
next-IsNext_example = next-IsNext behind_five object_seven behind_seven next_gives_seven

abbrev wrapping : SubgroupObjectReader
wrapping = record {
  r = record {
    bytes = 255 ∷ 255 ∷ 255 ∷ 255 ∷ 255 ∷ 255 ∷ 255 ∷ 255 ∷ 255 ∷ 1 ∷ 8 ∷ [];
    fin = eof;
  };
  has_extensions = false;
  prev_object_id = some 5;
}

abbrev object_five : SubgroupObject
object_five = record {
  object_id = 5;
  object_id_delta = 18446744073709551615;
  object_status = 0;
  properties_raw = [];
  payload = 8 ∷ [];
  payload_len = 1;
  is_status_object = false;
}

abbrev behind_five_again : SubgroupObjectReader
behind_five_again = record {
  r = record { bytes = []; fin = eof };
  has_extensions = false;
  prev_object_id = some 5;
}

next_gives_five : next wrapping ≡ ok (object_five, behind_five_again)
unfolding next next_object_id read_extensions read_content read_varint extra_bytes read_full
    decode_varint_bytes
next_gives_five = refl

next_repeats_id_example : object_five.object_id ≡ 5
next_repeats_id_example =
    next_repeats_id wrapping 5 object_five behind_five_again (omega arith) refl next_gives_five refl

next_panics_example :
    next (record {
      r = record { bytes = append_varint [] 0 ++ (append_varint [] (2 ^ 60) ++ []); fin = eof };
      has_extensions = false;
      prev_object_id = none;
    })
    ≡ panic
next_panics_example = next_panics 0 (2 ^ 60) [] eof none (omega arith) (omega arith) (omega arith)

next_eof_inside_example :
    (next (record {
      r = record { bytes = append_varint [] 0; fin = eof };
      has_extensions = false;
      prev_object_id = some 4;
    })
      ≡ err (wrapped "payload length: %w" [] eof))
    × (is_eof (wrapped "payload length: %w" [] eof) ≡ true)
next_eof_inside_example = next_eof_inside 0 (some 4) (omega arith)
