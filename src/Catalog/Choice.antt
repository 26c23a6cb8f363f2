-- ===== src/Catalog/Choice.antt =====
-- Which tracks the catalog's choices take.
use moqsub.Common.{
  ℕ, ◌≡◌, refl, ap, ◌⊎◌, inl, inr, List, [], ◌∷◌, ◌++◌, Bool, true, false, ◌&&◌, not, Bool-cases,
  Option, none, some, if◌then◌else◌, bytes_eq, All,
}
use moqsub.Common.Result.{message, ok, err}
use moqsub.Catalog.{
  catalog_track_name, default_init_track, CatalogTrack, CatalogRoot, is_empty, init_track_of,
  first_init_track, init_track_name, or_name, is_video, first_video, first_other,
  resolve_media_track,
}

abbrev pub is_other : CatalogTrack → Bool
is_other t = not (bytes_eq t.name catalog_track_name)

abbrev pub is_other_video : CatalogTrack → Bool
is_other_video t = is_other t && is_video t

abbrev pub announces_init : CatalogTrack → Bool
announces_init t = not (is_empty t.init_track)

abbrev pub is_named : List ℕ → CatalogTrack → Bool
is_named name t = bytes_eq t.name name && announces_init t

-- The track t of the list passes the test, and none before it does.
abbrev pub IsFirst : (CatalogTrack → Bool) → CatalogTrack → List CatalogTrack → Type 0
IsFirst test t ts =
    (before after : List CatalogTrack) × (ts ≡ before ++ t ∷ after)
    × All (λ u. test u ≡ false) before
    × (test t ≡ true)

abbrev pub Fails : (CatalogTrack → Bool) → List CatalogTrack → Type 0
Fails test ts = All (λ u. test u ≡ false) ts

module _ (test : CatalogTrack → Bool) (get : CatalogTrack → List ℕ) where
  first_where : List CatalogTrack → Option (List ℕ)
  first_where [] = none
  first_where (t ∷ ts) = if test t then some (get t) else first_where ts

  first_where-cases :
      (ts : List CatalogTrack)
      → ((t : CatalogTrack) × IsFirst test t ts × (first_where ts ≡ some (get t)))
        ⊎ (Fails test ts × (first_where ts ≡ none))
  unfolding first_where
  first_where-cases [] = inr (tt, refl)
  first_where-cases (t ∷ ts) = elim (Bool-cases (test t)) [
    | inl h ↦ inl (t, ([], ts, refl, tt, h), rw h refl)
    | inr h ↦ elim (first_where-cases ts) [
      | inl (u, (before, after, e, fails, passes), r) ↦
          inl (u, (t ∷ before, after, ap (λ l. t ∷ l) e, (h, fails), passes), rw h r)
      | inr (fails, r) ↦ inr ((h, fails), rw h r)
    ]
  ]

first_video-where :
    (ts : List CatalogTrack) → first_video ts ≡ first_where is_other_video (λ t. t.name) ts
unfolding first_video first_where
first_video-where [] = refl
first_video-where (t ∷ ts) = elim (Bool-cases (bytes_eq t.name catalog_track_name)) [
  | inl h ↦ rw h (first_video-where ts)
  | inr h ↦ rw (h, first_video-where ts) refl
]

first_other-where :
    (ts : List CatalogTrack) → first_other ts ≡ first_where is_other (λ t. t.name) ts
unfolding first_other first_where
first_other-where [] = refl
first_other-where (t ∷ ts) = rw (first_other-where ts) refl

first_init_track-where :
    (ts : List CatalogTrack)
    → first_init_track ts ≡ first_where announces_init (λ t. t.init_track) ts
unfolding first_init_track first_where
first_init_track-where [] = refl
first_init_track-where (t ∷ ts) = rw (first_init_track-where ts) refl

init_track_of-where :
    (name : List ℕ) (ts : List CatalogTrack)
    → init_track_of name ts ≡ first_where (is_named name) (λ t. t.init_track) ts
unfolding init_track_of first_where
init_track_of-where name [] = refl
init_track_of-where name (t ∷ ts) = rw (init_track_of-where name ts) refl

-- Without a preference, the media track is the first with a codec of avc1 or hvc1 and another name
-- than .catalog; where there is none, the first with another name than .catalog; and the choice
-- fails exactly where every track is named .catalog.
pub resolve_media_track-cases :
    (root : CatalogRoot)
    → ((t : CatalogTrack) × IsFirst is_other_video t root.tracks
        × (resolve_media_track root [] ≡ ok t.name))
      ⊎ ((t : CatalogTrack) × Fails is_other_video root.tracks
          × IsFirst is_other t root.tracks
          × (resolve_media_track root [] ≡ ok t.name))
      ⊎ (Fails is_other root.tracks
          × (resolve_media_track root [] ≡ err (message "catalog contains no media tracks" [])))
unfolding resolve_media_track is_empty
resolve_media_track-cases root = elim (first_where-cases is_other_video (λ t. t.name) root.tracks) [
  | inl (t, first, e) ↦ inl (t, first, rw (first_video-where root.tracks, e) refl)
  | inr (fails, e) ↦ elim (first_where-cases is_other (λ t. t.name) root.tracks) [
    | inl (t, first, e1) ↦ inr (
        inl (
          t,
          fails,
          first,
          rw (first_video-where root.tracks, e, first_other-where root.tracks, e1) refl,
        ))
    | inr (none_other, e1) ↦ inr (
        inr (
          none_other,
          rw (first_video-where root.tracks, e, first_other-where root.tracks, e1) refl,
        ))
  ]
]

-- The init track of a media track with a name is the one that the first track of that name announces;
-- where no track of that name announces one, the first that any track announces; and 0.mp4 where none
-- does.
pub init_track_name-cases :
    (root : CatalogRoot) (b : ℕ) (bs : List ℕ)
    → ((t : CatalogTrack) × IsFirst (is_named (b ∷ bs)) t root.tracks
        × (init_track_name root (b ∷ bs) ≡ t.init_track))
      ⊎ ((t : CatalogTrack) × Fails (is_named (b ∷ bs)) root.tracks
          × IsFirst announces_init t root.tracks
          × (init_track_name root (b ∷ bs) ≡ t.init_track))
      ⊎ (Fails announces_init root.tracks × (init_track_name root (b ∷ bs) ≡ default_init_track))
unfolding init_track_name or_name is_empty
init_track_name-cases root b bs =
    elim (first_where-cases (is_named (b ∷ bs)) (λ t. t.init_track) root.tracks) [
      | inl (t, first, e) ↦ inl (t, first, rw (init_track_of-where (b ∷ bs) root.tracks, e) refl)
      | inr (fails, e) ↦ elim (first_where-cases announces_init (λ t. t.init_track) root.tracks) [
        | inl (t, first, e1) ↦ inr (
            inl (
              t,
              fails,
              first,
              rw
                  (
                    init_track_of-where (b ∷ bs) root.tracks,
                    e,
                    first_init_track-where root.tracks,
                    e1,
                  )
                  refl,
            ))
        | inr (none_any, e1) ↦ inr (
            inr (
              none_any,
              rw
                  (
                    init_track_of-where (b ∷ bs) root.tracks,
                    e,
                    first_init_track-where root.tracks,
                    e1,
                  )
                  refl,
            ))
      ]
    ]
