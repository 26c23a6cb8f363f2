-- ===== src/Reader/Laws.antt =====
-- What `read_full` takes, on every branch.
use moqsub.Common.{
  ℕ, zero, suc, ap, ◌+◌, ◌≤◌, ◌<◌, ◌≡◌, ◌⊎◌, inl, inr, refl, List, [], ◌∷◌, ◌++◌, arith, leb,
  leb→le, le→leb, lt→not_leb, length, take, drop, Bool-cases, take-length_append,
  drop-length_append, length-append, length-drop, All, IsByte, All-take, All-drop,
}
use moqsub.Common.Result.{Error, eof, unexpected_eof, ok, err, equals_eof, EofOnly, Ends}
use moqsub.Reader.{Reader, extend, short_read, read_full}

pub take-append_of_le : (n : ℕ) (xs ys : List ℕ) → n ≤ length xs → take n (xs ++ ys) ≡ take n xs
take-append_of_le zero xs ys h = refl
take-append_of_le (suc n) [] ys h = absurd (omega arith)
take-append_of_le (suc n) (x ∷ xs) ys h = ap (λ t. x ∷ t) (take-append_of_le n xs ys (omega arith))

pub drop-append_of_le :
    (n : ℕ) (xs ys : List ℕ) → n ≤ length xs → drop n (xs ++ ys) ≡ drop n xs ++ ys
drop-append_of_le zero xs ys h = refl
drop-append_of_le (suc n) [] ys h = absurd (omega arith)
drop-append_of_le (suc n) (x ∷ xs) ys h = drop-append_of_le n xs ys (omega arith)

pub short_read_eof :
    (bs : List ℕ) → (short_read bs eof ≡ eof) ⊎ (short_read bs eof ≡ unexpected_eof)
unfolding short_read equals_eof
short_read_eof [] = inl refl
short_read_eof (b ∷ bs) = inr refl

-- Exactly the bytes that are asked for.
pub read_full-append :
    (xs rest : List ℕ) (fin : Error)
    → read_full (length xs) (record { bytes = xs ++ rest; fin = fin })
      ≡ ok (xs, record { bytes = rest; fin = fin })
unfolding read_full
read_full-append xs rest fin = rw (
  le→leb (length xs) (length (xs ++ rest)) (omega (arith, length-append xs rest)),
  take-length_append,
  drop-length_append,
)

pub read_full-eq_ok :
    (n : ℕ) (bs : List ℕ) (fin : Error) (out : List ℕ) (r : Reader)
    → read_full n (record { bytes = bs; fin = fin }) ≡ ok (out, r)
    → (n ≤ length bs) × (take n bs ≡ out) × (record { bytes = drop n bs; fin = fin } ≡ r)
unfolding read_full
read_full-eq_ok n bs fin out r e = elim (Bool-cases (leb n (length bs))) [
  | inl t ↦ let e' = rw t at e in (leb→le _ _ t, cc, cc)
  | inr f ↦ let e' = rw f at e in cc
]

-- The reader behind it: shorter by n, of bytes if it was, with the same end.
pub read_full_takes :
    (n : ℕ) (bs : List ℕ) (fin : Error) (out : List ℕ) (r : Reader)
    → read_full n (record { bytes = bs; fin = fin }) ≡ ok (out, r)
    → (length r.bytes + n ≡ length bs) × (fin ≡ r.fin)
read_full_takes n bs fin out r e =
    let (le, _, er) = read_full-eq_ok n bs fin out r e in
    rw (← er) (omega (arith, length-drop n bs), refl)

pub read_full_bytes :
    (n : ℕ) (bs : List ℕ) (fin : Error) (out : List ℕ) (r : Reader)
    → All IsByte bs
    → read_full n (record { bytes = bs; fin = fin }) ≡ ok (out, r)
    → All IsByte out × All IsByte r.bytes
read_full_bytes n bs fin out r h e =
    let (_, eo, er) = read_full-eq_ok n bs fin out r e in
    rw (← eo, ← er) (All-take IsByte n bs h, All-drop IsByte n bs h)

-- Too few bytes before the end of the source.
pub read_full_short :
    (n : ℕ) (bs : List ℕ) (fin : Error)
    → length bs < n
    → read_full n (record { bytes = bs; fin = fin }) ≡ err (short_read bs fin)
unfolding read_full
read_full_short n bs fin h = rw (lt→not_leb n (length bs) h)

-- More bytes behind the source do not change a read that succeeded.
pub read_full-append_ok :
    (n : ℕ) (r : Reader) (more : List ℕ) (out : List ℕ) (r' : Reader)
    → read_full n r ≡ ok (out, r')
    → read_full n (extend r more) ≡ ok (out, extend r' more)
unfolding read_full
read_full-append_ok n r more out r' e =
    let (le, eo, er) = read_full-eq_ok n r.bytes r.fin out r' e in
    rw (
      le→leb n (length (r.bytes ++ more)) (omega (arith, length-append r.bytes more)),
      take-append_of_le n r.bytes more le,
      drop-append_of_le n r.bytes more le,
      ← er,
      eo,
    )

-- A source that ends by `io.EOF` fails a read by one of the two end-of-file errors only.
pub read_full-EofOnly : (n : ℕ) (r : Reader) → r.fin ≡ eof → EofOnly (read_full n r)
unfolding read_full
read_full-EofOnly n r h = elim (Bool-cases (leb n (length r.bytes))) [
  | inl t ↦ rw t tt
  | inr f ↦ rw (f, h) (short_read_eof r.bytes)
]

-- A read comes to an end.
pub read_full-Ends : (n : ℕ) (r : Reader) → Ends (read_full n r)
unfolding read_full
read_full-Ends n r = elim (Bool-cases (leb n (length r.bytes))) [
  | inl t ↦ rw t tt
  | inr f ↦ rw f tt
]
