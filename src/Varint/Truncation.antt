-- ===== src/Varint/Truncation.antt =====
-- `ReadVarint` on input that breaks off.
use moqsub.Common.{
  ℕ, ◌≡◌, inl, inr, refl, sym, subst, List, [], ◌∷◌, ◌++◌, length, arith, leb, le→leb,
  length-append, Bool-cases,
}
use moqsub.Common.Result.{Error, eof, ok, EofOnly, Ends}
use moqsub.Reader.{Reader, bytes_reader, extend}
use moqsub.Reader.Laws.{take-append_of_le, drop-append_of_le, short_read_eof}
use moqsub.Varint.{extra_bytes, read_varint}
use moqsub.Varint.RoundTrip.{read_varint-cons, read_varint-nil}
use moqsub.Varint.Accepts.{read_varint-ok_cons}

on_bytes :
    (bs : List ℕ) (fin : Error) (more : List ℕ) (v : ℕ) (r' : Reader)
    → read_varint (record { bytes = bs; fin = fin }) ≡ ok (v, r')
    → read_varint (record { bytes = bs ++ more; fin = fin }) ≡ ok (v, extend r' more)
on_bytes [] fin more v r' e = let e' = rw read_varint-nil at e in cc
on_bytes (b ∷ bs) fin more v r' e =
    let (le, ev, er) = read_varint-ok_cons b bs fin v r' e in
    rw (
      read_varint-cons,
      le→leb (extra_bytes b) (length (bs ++ more)) (omega (arith, length-append bs more)),
      take-append_of_le (extra_bytes b) bs more le,
      drop-append_of_le (extra_bytes b) bs more le,
      ev,
      ← er,
    )

-- More bytes behind the input do not change a read that succeeded.
pub read_varint-append_ok :
    (r : Reader) (more : List ℕ) (v : ℕ) (r' : Reader)
    → read_varint r ≡ ok (v, r')
    → read_varint (extend r more) ≡ ok (v, extend r' more)
read_varint-append_ok r more v r' e = on_bytes r.bytes r.fin more v r' e

-- A source that ends by `io.EOF` fails a read by one of the two end-of-file errors only.
eof_on_bytes : (bs : List ℕ) → EofOnly (read_varint (bytes_reader bs))
eof_on_bytes [] = rw read_varint-nil (inl refl)
eof_on_bytes (b ∷ bs) = elim (Bool-cases (leb (extra_bytes b) (length bs))) [
  | inl t ↦ rw (read_varint-cons, t) tt
  | inr f ↦ rw (read_varint-cons, f) (short_read_eof bs)
]

pub read_varint-EofOnly : (r : Reader) → r.fin ≡ eof → EofOnly (read_varint r)
read_varint-EofOnly r h =
    subst (λ e. EofOnly (read_varint (record { bytes = r.bytes; fin = e }))) (sym h)
      (eof_on_bytes r.bytes)

-- `ReadVarint` comes to an end.
Ends-on_bytes : (bs : List ℕ) (fin : Error) → Ends (read_varint (record { bytes = bs; fin = fin }))
Ends-on_bytes [] fin = rw read_varint-nil tt
Ends-on_bytes (b ∷ bs) fin = elim (Bool-cases (leb (extra_bytes b) (length bs))) [
  | inl t ↦ rw (read_varint-cons, t) tt
  | inr f ↦ rw (read_varint-cons, f) tt
]

pub read_varint-Ends : (r : Reader) → Ends (read_varint r)
read_varint-Ends r = Ends-on_bytes r.bytes r.fin
