-- ===== src/Namespace/Fields.antt =====
-- The fields of a namespace.
use moqsub.Common.{
  ℕ, ◌<◌, ◌≡◌, refl, inl, inr, List, [], ◌∷◌, ◌++◌, append-nil, append_assoc, false, Bool-cases,
  ◌==◌, arith, length, All,
}
use moqsub.Common.Result.{ok}
use moqsub.Message.{namespace_from_strings, encode_track_namespace_from_strings}
use moqsub.Namespace.{
  slash, to_first, split, without_empty, trim_left, trim_right, split_namespace, track_namespace,
}

abbrev pub WithoutSlash : List ℕ → Type 0
WithoutSlash f = All (λ b. (b == slash) ≡ false) f

to_first-WithoutSlash :
    (b : ℕ) (fs : List (List ℕ))
    → (b == slash) ≡ false
    → All WithoutSlash fs
    → All WithoutSlash (to_first b fs)
unfolding to_first
to_first-WithoutSlash b [] e h = ((e, tt), tt)
to_first-WithoutSlash b (f ∷ fs) e h = ((e, h.0), h.1)

split-WithoutSlash : (bs : List ℕ) → All WithoutSlash (split bs)
unfolding split
split-WithoutSlash [] = (tt, tt)
split-WithoutSlash (b ∷ bs) = elim (Bool-cases (b == slash)) [
  | inl e ↦ rw e (tt, split-WithoutSlash bs)
  | inr e ↦ rw e (to_first-WithoutSlash b (split bs) e (split-WithoutSlash bs))
]

-- A field that can be sent.
abbrev pub IsField : List ℕ → Type 0
IsField f = (0 < length f) × WithoutSlash f

without_empty-IsField :
    (parts : List (List ℕ)) → All WithoutSlash parts → All IsField (without_empty parts)
unfolding without_empty
without_empty-IsField [] h = tt
without_empty-IsField (p ∷ parts) h = elim (Bool-cases (length p == 0)) [
  | inl e ↦ rw e (without_empty-IsField parts h.1)
  | inr e ↦ rw e ((ground arith, h.0), without_empty-IsField parts h.1)
]

split_namespace-IsField : (namespace : List ℕ) → All IsField (split_namespace namespace)
unfolding split_namespace
split_namespace-IsField namespace =
    elim (Bool-cases (length (trim_right (trim_left namespace)) == 0)) [
      | inl e ↦ rw e tt
      | inr e ↦
          rw e (without_empty-IsField _ (split-WithoutSlash (trim_right (trim_left namespace))))
    ]

namespace_from_strings-ok :
    (ns fields : List (List ℕ))
    → All IsField fields
    → namespace_from_strings ns fields ≡ ok (ns ++ fields)
unfolding namespace_from_strings
namespace_from_strings-ok ns [] h = rw (append-nil) refl
namespace_from_strings-ok ns (f ∷ fields) h =
    let filled : (length f == 0) ≡ false = ground arith in
    rw (filled, namespace_from_strings-ok (ns ++ f ∷ []) fields h.1, append_assoc) refl

-- Whatever namespace is configured, its fields are not empty and hold no slash, and so the namespace
-- of a SUBSCRIBE is made of them without an error.
pub track_namespace-fields :
    (namespace : List ℕ)
    → (track_namespace namespace ≡ ok (split_namespace namespace))
      × All IsField (split_namespace namespace)
unfolding track_namespace encode_track_namespace_from_strings
track_namespace-fields namespace = (
  namespace_from_strings-ok [] (split_namespace namespace) (split_namespace-IsField namespace),
  split_namespace-IsField namespace,
)
