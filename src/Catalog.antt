-- ===== src/Catalog.antt =====
-- internal/app/catalog.go: the catalog of a broadcast and the choice of its tracks. The JSON decoder
-- is the parameter `unmarshal`. Strings are lists of bytes.
pub mod Choice
use moqsub.Common.{
  ℕ, List, [], ◌∷◌, Bool, true, false, ◌&&◌, ◌||◌, not, Option, none, some, ◌==◌, if◌then◌else◌,
  bytes_eq,
}
use moqsub.Common.Result.{num, text, message, Result, ok, err, panic, stuck, wrap, ◌>>=◌}

-- ".catalog"
abbrev pub catalog_track_name : List ℕ
catalog_track_name = 46 ∷ 99 ∷ 97 ∷ 116 ∷ 97 ∷ 108 ∷ 111 ∷ 103 ∷ []

-- "0.mp4"
abbrev pub default_init_track : List ℕ
default_init_track = 48 ∷ 46 ∷ 109 ∷ 112 ∷ 52 ∷ []

pub record CatalogSelectionParam : Type 0 where
  pub codec : List ℕ
  pub width : ℕ
  pub height : ℕ

pub record CatalogTrack : Type 0 where
  pub name : List ℕ
  pub init_track : List ℕ
  pub selection_params : CatalogSelectionParam

pub record CatalogCommonFields : Type 0 where
  pub namespace : List ℕ
  pub packaging : List ℕ

pub record CatalogRoot : Type 0 where
  pub version : ℕ
  pub common_track_fields : CatalogCommonFields
  pub tracks : List CatalogTrack

unfoldable pub parse_catalog : (List ℕ → Result CatalogRoot) → List ℕ → Result CatalogRoot
parse_catalog unmarshal payload = do
  root ← wrap "parse catalog json: %w" [] (unmarshal payload)
  if not (root.version == 1)
      then err (message "unsupported catalog version: %d" (num root.version ∷ []))
      else ok root

unfoldable pub is_empty : List ℕ → Bool
is_empty [] = true
is_empty (b ∷ bs) = false

-- The init track that a track of this name announces, the first that is not empty.
unfoldable pub init_track_of : List ℕ → List CatalogTrack → Option (List ℕ)
init_track_of media_track [] = none
init_track_of media_track (t ∷ ts) =
    if bytes_eq t.name media_track && not (is_empty t.init_track)
    then some t.init_track
    else init_track_of media_track ts

unfoldable pub first_init_track : List CatalogTrack → Option (List ℕ)
first_init_track [] = none
first_init_track (t ∷ ts) =
    if not (is_empty t.init_track) then some t.init_track else first_init_track ts

-- The name a loop returned, or else what follows the loop.
unfoldable pub or_name : Option (List ℕ) → List ℕ → List ℕ
or_name (some name) other = name
or_name none other = other

unfoldable pub init_track_name : CatalogRoot → List ℕ → List ℕ
init_track_name root media_track =
    or_name (if is_empty media_track then none else init_track_of media_track root.tracks)
      (or_name (first_init_track root.tracks) default_init_track)

-- `strings.HasPrefix`
unfoldable pub has_prefix : List ℕ → List ℕ → Bool
has_prefix s [] = true
has_prefix [] (p ∷ ps) = false
has_prefix (b ∷ bs) (p ∷ ps) = (b == p) && has_prefix bs ps

-- "avc1" and "hvc1"
unfoldable pub is_video : CatalogTrack → Bool
is_video t =
    has_prefix t.selection_params.codec (97 ∷ 118 ∷ 99 ∷ 49 ∷ [])
    || has_prefix t.selection_params.codec (104 ∷ 118 ∷ 99 ∷ 49 ∷ [])

unfoldable pub has_track : List ℕ → List CatalogTrack → Bool
has_track name [] = false
has_track name (t ∷ ts) = bytes_eq t.name name || has_track name ts

unfoldable pub first_video : List CatalogTrack → Option (List ℕ)
first_video [] = none
first_video (t ∷ ts) =
    if bytes_eq t.name catalog_track_name
    then first_video ts
    else if is_video t
    then some t.name
    else first_video ts

unfoldable pub first_other : List CatalogTrack → Option (List ℕ)
first_other [] = none
first_other (t ∷ ts) =
    if not (bytes_eq t.name catalog_track_name) then some t.name else first_other ts

unfoldable pub resolve_media_track : CatalogRoot → List ℕ → Result (List ℕ)
resolve_media_track root preferred =
    if not (is_empty preferred)
    then elim root.tracks [
      | [] ↦ ok preferred
      | _ ∷ _ ↦
          if has_track preferred root.tracks
          then ok preferred
          else err (message "track %q not found in catalog" (text preferred ∷ []))
    ]
    else elim (first_video root.tracks) [
      | some name ↦ ok name
      | none ↦ elim (first_other root.tracks) [
        | some name ↦ ok name
        | none ↦ err (message "catalog contains no media tracks" [])
      ]
    ]
