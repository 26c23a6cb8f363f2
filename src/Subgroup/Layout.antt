-- ===== src/Subgroup/Layout.antt =====
-- The layout of the objects of a subgroup stream, and `Next` on one of them.
use moqsub.Common.{
  ℕ, ◌-◌, ◌≤◌, ◌<◌, ◌≡◌, refl, List, [], ◌∷◌, ◌++◌, Bool, true, false, Option, none, some, ◌==◌,
  if◌then◌else◌, arith, append_assoc, IsU64, length, le→not_ltb, lt→ltb,
}
use moqsub.Common.Result.{Error, ok}
use moqsub.Reader.Laws.{read_full-append}
use moqsub.Varint.{append_varint}
use moqsub.Varint.RoundTrip.{read_varint-append_varint}
use moqsub.Reader.{max_alloc}
use moqsub.Subgroup.{SubgroupObject, next_object_id, read_extensions, read_content, next}

-- What a publisher sends: an object with a payload, or one that has a status alone.
pub data Content : Type 0 where
  payload : (first : ℕ) (rest : List ℕ) → Content
  status : ℕ → Content

pub record Sent : Type 0 where
  pub id : ℕ
  pub extensions : List ℕ
  pub content : Content

unfoldable pub content_len : Content → ℕ
content_len (payload b bs) = length (b ∷ bs)
content_len (status s) = 0

unfoldable pub content_body : Content → List ℕ
content_body (payload b bs) = b ∷ bs
content_body (status s) = append_varint [] s

unfoldable pub extensions_wire : Bool → List ℕ → List ℕ
extensions_wire true e = append_varint [] (length e) ++ e
extensions_wire false e = []

-- The distance from the ID before: the ID itself of a first object, and one less than the difference
-- of any other.
abbrev pub distance : Option ℕ → ℕ → ℕ
distance none id = id
distance (some prev) id = id - prev - 1

unfoldable pub object_wire : Bool → Option ℕ → Sent → List ℕ
object_wire ext prev o =
    append_varint [] (distance prev o.id)
    ++ (extensions_wire ext o.extensions
        ++ (append_varint [] (content_len o.content) ++ content_body o.content))

-- The object as `Next` returns it.
abbrev pub received : Bool → Option ℕ → Sent → SubgroupObject
received ext prev o = record {
  object_id = o.id;
  object_id_delta = distance prev o.id;
  object_status = elim o.content [ payload b bs ↦ 0 | status s ↦ s ];
  properties_raw = if ext then o.extensions else [];
  payload = elim o.content [ payload b bs ↦ b ∷ bs | status s ↦ [] ];
  payload_len = elim o.content [ payload b bs ↦ length (b ∷ bs) | status s ↦ 0 ];
  is_status_object = elim o.content [ payload b bs ↦ false | status s ↦ true ];
}

abbrev IsContent : Content → Type 0
IsContent (payload b bs) = length (b ∷ bs) ≤ max_alloc
IsContent (status s) = IsU64 s

-- An object behind the ID `prev`: a greater ID, and sizes that can be allocated.
abbrev pub Follows : Option ℕ → Sent → Type 0
Follows prev o =
    (elim prev [ none ↦ 0 ≤ o.id | some p ↦ p < o.id ])
    × IsU64 o.id
    × (length o.extensions ≤ max_alloc)
    × IsContent o.content

next_object_id-distance :
    (prev : Option ℕ) (o : Sent) → Follows prev o → next_object_id prev (distance prev o.id) ≡ o.id
unfolding next_object_id
next_object_id-distance none o h = refl
next_object_id-distance (some p) o h = omega arith

distance-IsU64 : (prev : Option ℕ) (o : Sent) → Follows prev o → IsU64 (distance prev o.id)
distance-IsU64 none o h = h.1
distance-IsU64 (some p) o h = omega arith

module _ (rest : List ℕ) (fin : Error) where
  read_extensions-wire :
      (ext : Bool) (e : List ℕ)
      → length e ≤ max_alloc
      → read_extensions ext (record { bytes = extensions_wire ext e ++ rest; fin = fin })
        ≡ ok (if ext then e else [], record { bytes = rest; fin = fin })
  unfolding read_extensions extensions_wire
  read_extensions-wire false e h = refl
  read_extensions-wire true [] h =
      rw (append_assoc, read_varint-append_varint 0 rest fin (omega arith))
  read_extensions-wire true (b ∷ bs) h = rw (
    append_assoc,
    read_varint-append_varint (length (b ∷ bs)) _ fin (omega arith),
    lt→ltb 0 (length (b ∷ bs)) (omega arith),
    le→not_ltb max_alloc (length (b ∷ bs)) h,
    read_full-append (b ∷ bs) rest fin,
  )

  read_content-wire :
      (c : Content)
      → IsContent c
      → read_content (content_len c) (record { bytes = content_body c ++ rest; fin = fin })
        ≡ ok (
          elim c [ payload b bs ↦ 0 | status s ↦ s ],
          elim c [ payload b bs ↦ b ∷ bs | status s ↦ [] ],
          elim c [ payload b bs ↦ false | status s ↦ true ],
          record { bytes = rest; fin = fin },
        )
  unfolding read_content content_len content_body
  read_content-wire (payload b bs) h =
      let more : (length (b ∷ bs) == 0) ≡ false = ground arith in
      rw (more, le→not_ltb max_alloc (length (b ∷ bs)) h, read_full-append (b ∷ bs) rest fin)
  read_content-wire (status s) h = rw (read_varint-append_varint s rest fin h)

content_len-IsU64 : (c : Content) → IsContent c → IsU64 (content_len c)
unfolding content_len
content_len-IsU64 (payload b bs) h = omega arith
content_len-IsU64 (status s) h = omega arith

content_len-received :
    (c : Content) → content_len c ≡ elim c [ payload b bs ↦ length (b ∷ bs) | status s ↦ 0 ]
unfolding content_len
content_len-received (payload b bs) = refl
content_len-received (status s) = refl

-- `Next` on the layout of an object: the object as it was sent, and the reader behind it, with its ID
-- as the one before.
pub next-wire :
    (ext : Bool) (prev : Option ℕ) (o : Sent) (rest : List ℕ) (fin : Error)
    → Follows prev o
    → next (record {
      r = record { bytes = object_wire ext prev o ++ rest; fin = fin };
      has_extensions = ext;
      prev_object_id = prev;
    })
      ≡ ok (
        received ext prev o,
        record {
          r = record { bytes = rest; fin = fin };
          has_extensions = ext;
          prev_object_id = some o.id;
        },
      )
unfolding next object_wire
next-wire ext prev o rest fin h = rw (
  append_assoc,
  read_varint-append_varint (distance prev o.id) _ fin (distance-IsU64 prev o h),
  append_assoc,
  read_extensions-wire _ fin ext o.extensions h.2,
  append_assoc,
  read_varint-append_varint (content_len o.content) _ fin (content_len-IsU64 o.content h.3),
  read_content-wire rest fin o.content h.3,
  next_object_id-distance prev o h,
  content_len-received o.content,
)
