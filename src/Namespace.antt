-- ===== src/Namespace.antt =====
-- internal/app: `splitNamespace` of run.go and `trackNamespace` of subscriptions.go.
pub mod Fields
use moqsub.Common.{ℕ, List, [], ◌∷◌, ◌&&◌, ◌==◌, if◌then◌else◌, length}
use moqsub.Common.Result.{Result}
use moqsub.Message.{encode_track_namespace_from_strings}

-- '/'
abbrev pub slash : ℕ
slash = 47

-- `strings.Trim(s, "/")`, from the left and from the right.
unfoldable pub trim_left : List ℕ → List ℕ
trim_left [] = []
trim_left (b ∷ bs) = let rest = trim_left bs in if b == slash then rest else b ∷ bs

unfoldable pub trim_right : List ℕ → List ℕ
trim_right [] = []
trim_right (b ∷ bs) =
    let rest = trim_right bs in if (b == slash) && (length rest == 0) then [] else b ∷ rest

unfoldable pub to_first : ℕ → List (List ℕ) → List (List ℕ)
to_first b [] = (b ∷ []) ∷ []
to_first b (f ∷ fs) = (b ∷ f) ∷ fs

-- `strings.Split(s, "/")`
unfoldable pub split : List ℕ → List (List ℕ)
split [] = [] ∷ []
split (b ∷ bs) = let rest = split bs in if b == slash then [] ∷ rest else to_first b rest

-- The loop of `splitNamespace`.
unfoldable pub without_empty : List (List ℕ) → List (List ℕ)
without_empty [] = []
without_empty (p ∷ parts) = let out = without_empty parts in if length p == 0 then out else p ∷ out

unfoldable pub split_namespace : List ℕ → List (List ℕ)
split_namespace namespace =
    let trimmed = trim_right (trim_left namespace) in
    if length trimmed == 0 then [] else without_empty (split trimmed)

unfoldable pub track_namespace : List ℕ → Result (List (List ℕ))
track_namespace namespace = encode_track_namespace_from_strings (split_namespace namespace)
