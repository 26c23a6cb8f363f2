-- ===== src/RichLog/Page/Order.antt =====
-- The page against the order in which Go runs over a map.
use moqsub.Common.{
  ℕ, ◌≡◌, ◌≢◌, refl, ap, ◌∙◌, sym, inl, inr, List, [], ◌∷◌, Bool-cases, true, false, if-eq_true,
  if-eq_false, arith,
}
use moqsub.RichLog.Page.{bytes_lt, insert_meta, sort_metas}

bytes_lt_total : (a b : List ℕ) → bytes_lt a b ≡ false → bytes_lt b a ≡ false → a ≡ b
unfolding bytes_lt
bytes_lt_total [] [] h k = refl
bytes_lt_total [] (y ∷ b) h k = ground arith
bytes_lt_total (x ∷ a) [] h k = ground arith
bytes_lt_total (x ∷ a) (y ∷ b) h k = ground (arith, bytes_lt_total a b)

bytes_lt_asym : (a b : List ℕ) → bytes_lt a b ≡ true → bytes_lt b a ≡ false
unfolding bytes_lt
bytes_lt_asym [] [] h = refl
bytes_lt_asym [] (y ∷ b) h = refl
bytes_lt_asym (x ∷ a) [] h = ground arith
bytes_lt_asym (x ∷ a) (y ∷ b) h = ground (arith, bytes_lt_asym a b)

-- Below c, and not above b: then b is below c.
bytes_lt_between :
    (a b c : List ℕ) → bytes_lt a b ≡ false → bytes_lt a c ≡ true → bytes_lt b c ≡ true
unfolding bytes_lt
bytes_lt_between [] [] c h k = k
bytes_lt_between [] (y ∷ b) c h k = ground arith
bytes_lt_between (x ∷ a) b [] h k = ground arith
bytes_lt_between (x ∷ a) [] (z ∷ c) h k = refl
bytes_lt_between (x ∷ a) (y ∷ b) (z ∷ c) h k = ground (arith, bytes_lt_between a b c)

abbrev Meta : Type 0
Meta = List ℕ × List ℕ

insert_below :
    (x y : Meta) (ys : List Meta)
    → bytes_lt y.0 x.0 ≡ true
    → insert_meta x (y ∷ ys) ≡ y ∷ insert_meta x ys
unfolding insert_meta
insert_below x y ys h = if-eq_true _ _ _ h

insert_here :
    (x y : Meta) (ys : List Meta) → bytes_lt y.0 x.0 ≡ false → insert_meta x (y ∷ ys) ≡ x ∷ y ∷ ys
unfolding insert_meta
insert_here x y ys h = if-eq_false _ _ _ h

insert_nil : (x : Meta) → insert_meta x [] ≡ x ∷ []
unfolding insert_meta
insert_nil x = refl

-- y < x, and what follows is not below y.
insert_two :
    (x y : Meta) (l : List Meta)
    → bytes_lt y.0 x.0 ≡ true
    → insert_meta x (insert_meta y l) ≡ insert_meta y (insert_meta x l)
insert_two x y [] h =
    ap (insert_meta x) (insert_nil y)
    ∙ insert_below x y [] h
    ∙ ap (λ l. y ∷ l) (insert_nil x)
    ∙ sym (ap (insert_meta y) (insert_nil x) ∙ insert_here y x [] (bytes_lt_asym y.0 x.0 h))
insert_two x y (z ∷ zs) h = elim (Bool-cases (bytes_lt z.0 y.0)) [
  | inl zy ↦
      let zx = bytes_lt_between y.0 z.0 x.0 (bytes_lt_asym z.0 y.0 zy) h in
      ap (insert_meta x) (insert_below y z zs zy)
      ∙ insert_below x z (insert_meta y zs) zx
      ∙ ap (λ l. z ∷ l) (insert_two x y zs h)
      ∙ sym (ap (insert_meta y) (insert_below x z zs zx) ∙ insert_below y z (insert_meta x zs) zy)
  | inr zy ↦ elim (Bool-cases (bytes_lt z.0 x.0)) [
    | inl zx ↦
        ap (insert_meta x) (insert_here y z zs zy)
        ∙ insert_below x y (z ∷ zs) h
        ∙ ap (λ l. y ∷ l) (insert_below x z zs zx)
        ∙ sym (ap (insert_meta y) (insert_below x z zs zx) ∙ insert_here y z (insert_meta x zs) zy)
    | inr zx ↦
        ap (insert_meta x) (insert_here y z zs zy)
        ∙ insert_below x y (z ∷ zs) h
        ∙ ap (λ l. y ∷ l) (insert_here x z zs zx)
        ∙ sym (
            ap (insert_meta y) (insert_here x z zs zx)
            ∙ insert_here y x (z ∷ zs) (bytes_lt_asym y.0 x.0 h))
  ]
]

insert_meta_comm :
    (x y : Meta) (l : List Meta)
    → x.0 ≢ y.0
    → insert_meta x (insert_meta y l) ≡ insert_meta y (insert_meta x l)
insert_meta_comm x y l other = elim (Bool-cases (bytes_lt y.0 x.0)) [
  | inl h ↦ insert_two x y l h
  | inr h ↦ elim (Bool-cases (bytes_lt x.0 y.0)) [
    | inl k ↦ sym (insert_two y x l k)
    | inr k ↦ absurd (other (bytes_lt_total x.0 y.0 k h))
  ]
]

-- Another order of the pairs of a map, in which no two keys are equal.
pub data Reordered : List (List ℕ × List ℕ) → List (List ℕ × List ℕ) → Type 0 where
  same : (m : List Meta) → Reordered m m
  swapped : (x y : Meta) (m : List Meta) → x.0 ≢ y.0 → Reordered (x ∷ y ∷ m) (y ∷ x ∷ m)
  under : (x : Meta) (m m' : List Meta) → Reordered m m' → Reordered (x ∷ m) (x ∷ m')
  chained : (m m' m'' : List Meta) → Reordered m m' → Reordered m' m'' → Reordered m m''

-- The page's list of metadata is the same for every order in which Go runs over the map.
pub sort_metas-Reordered :
    (m m' : List (List ℕ × List ℕ)) → Reordered m m' → sort_metas m ≡ sort_metas m'
unfolding sort_metas
sort_metas-Reordered m m' (same _) = refl
sort_metas-Reordered m m' (swapped x y l other) = insert_meta_comm x y (sort_metas l) other
sort_metas-Reordered m m' (under x l l' h) = ap (insert_meta x) (sort_metas-Reordered l l' h)
sort_metas-Reordered m m' (chained _ l _ h k) =
    sort_metas-Reordered m l h ∙ sort_metas-Reordered l m' k
