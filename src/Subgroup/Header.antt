-- ===== src/Subgroup/Header.antt =====
-- The types of subgroup streams, and the header.
use moqsub.Common.{
  ℕ, ◌/◌, ◌%◌, ◌≡◌, refl, ap, List, [], ◌∷◌, ◌++◌, Bool, true, false, ◌&&◌, not, leb, ◌==◌,
  if◌then◌else◌, arith, append_assoc, IsU64,
}
use moqsub.Common.Result.{Error, ok}
use moqsub.Reader.Laws.{read_full-append}
use moqsub.Varint.{append_varint}
use moqsub.Varint.RoundTrip.{read_varint-append_varint}
use moqsub.Subgroup.{
  SubgroupHeader, is_subgroup_stream_type, subgroup_has_subgroup_id, subgroup_has_extensions,
  subgroup_uses_first_object_id, read_subgroup_id, parse_subgroup_header,
}

-- The enumerated types are those of the form 0b0001_xyyz with yy other than 3: bit 0 says that there
-- are extensions, bits 1 and 2 where the subgroup ID comes from, bit 3 that the group ends.
pub subgroup_type_bits :
    (t : ℕ)
    → (is_subgroup_stream_type t ≡ (t / 16 == 1 && not (t / 2 % 4 == 3)))
      × ((is_subgroup_stream_type t && subgroup_has_extensions t)
          ≡ (is_subgroup_stream_type t && t % 2 == 1))
      × ((is_subgroup_stream_type t && subgroup_uses_first_object_id t)
          ≡ (is_subgroup_stream_type t && t / 2 % 4 == 1))
      × ((is_subgroup_stream_type t && subgroup_has_subgroup_id t)
          ≡ (is_subgroup_stream_type t && t / 2 % 4 == 2))
      × ((is_subgroup_stream_type t && leb 0x18 t) ≡ (is_subgroup_stream_type t && t / 8 % 2 == 1))
unfolding is_subgroup_stream_type subgroup_has_extensions subgroup_uses_first_object_id
    subgroup_has_subgroup_id
subgroup_type_bits t = (ground arith, ground arith, ground arith, ground arith, ground arith)

-- The flags of a subgroup type, by its bits.
flags :
    (t : ℕ)
    → is_subgroup_stream_type t ≡ true
    → (subgroup_has_extensions t ≡ (t % 2 == 1))
      × (subgroup_uses_first_object_id t ≡ (t / 2 % 4 == 1))
      × (subgroup_has_subgroup_id t ≡ (t / 2 % 4 == 2))
      × (leb 0x18 t ≡ (t / 8 % 2 == 1))
flags t h =
    let (_, ext, first, id, last) = subgroup_type_bits t in
    (rw h at ext, rw h at first, rw h at id, rw h at last)

-- The layout of a header behind its type: alias, group, the subgroup ID if there is one, priority.
subgroup_id_wire : Bool → ℕ → List ℕ
subgroup_id_wire true id = append_varint [] id
subgroup_id_wire false id = []

unfoldable pub header_wire : SubgroupHeader → List ℕ
unfolding subgroup_id_wire
header_wire h =
    append_varint [] h.track_alias
    ++ (append_varint [] h.group_id
        ++ (subgroup_id_wire h.has_subgroup_id h.subgroup_id ++ h.publisher_priority ∷ []))

-- A header whose flags are the bits of its type, and whose subgroup ID is 0 where the type has none.
abbrev pub IsHeader : SubgroupHeader → Type 0
IsHeader h =
    (is_subgroup_stream_type h.kind ≡ true)
    × (h.has_extensions ≡ (h.kind % 2 == 1))
    × (h.uses_first_object_id ≡ (h.kind / 2 % 4 == 1))
    × (h.has_subgroup_id ≡ (h.kind / 2 % 4 == 2))
    × (h.end_of_group ≡ (h.kind / 8 % 2 == 1))
    × (h.subgroup_id ≡ (if h.has_subgroup_id then h.subgroup_id else 0))
    × IsU64 h.track_alias
    × IsU64 h.group_id
    × IsU64 h.subgroup_id

read_subgroup_id-wire :
    (has : Bool) (id : ℕ) (rest : List ℕ) (fin : Error)
    → IsU64 id
    → read_subgroup_id has (record { bytes = subgroup_id_wire has id ++ rest; fin = fin })
      ≡ ok (if has then id else 0, record { bytes = rest; fin = fin })
unfolding read_subgroup_id subgroup_id_wire
read_subgroup_id-wire true id rest fin u = rw (read_varint-append_varint id rest fin u)
read_subgroup_id-wire false id rest fin u = refl

-- `ParseSubgroupHeader` reads the layout of every header of a subgroup type, sets the flags by the
-- bits of the type, and leaves the reader at the first object.
pub parse_subgroup_header-wire :
    (h : SubgroupHeader) (rest : List ℕ) (fin : Error)
    → IsHeader h
    → parse_subgroup_header (record { bytes = header_wire h ++ rest; fin = fin }) h.kind
      ≡ ok (h, record { bytes = rest; fin = fin })
unfolding parse_subgroup_header header_wire
parse_subgroup_header-wire h rest fin (sub, ext, first, has, last, id, ua, ug, ui) =
    let (ext', first', has', last') = flags h.kind sub in
    rw
      (
        sub,
        has',
        ← has,
        append_assoc,
        read_varint-append_varint h.track_alias _ fin ua,
        append_assoc,
        read_varint-append_varint h.group_id _ fin ug,
        append_assoc,
        read_subgroup_id-wire h.has_subgroup_id h.subgroup_id _ fin ui,
        read_full-append (h.publisher_priority ∷ []) rest fin,
      )
      (ap (λ (k : SubgroupHeader). ok (k, record { bytes = rest; fin = fin }))
        (ground (arith, ext', first', last', ext, first, last, id)))
