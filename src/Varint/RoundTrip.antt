-- ===== src/Varint/RoundTrip.antt =====
-- The three entry points of varint.go against one another.
use moqsub.Common.{
  ℕ, suc, ◌+◌, ◌-◌, ◌≤◌, ◌≡◌, refl, subst, List, [], ◌∷◌, ◌++◌, length, take, drop, arith, IsU64,
  true, leb, ◌==◌, if◌then◌else◌, length-append, le→leb, take-length_append, drop-length_append,
  Bool-cases, ==_iff, inl, inr,
}
use moqsub.Common.Result.{Error, Result, eof, unexpected_eof, ok, err, panic, stuck, equals_eof}
use moqsub.Reader.{Reader, bytes_reader, short_read}
use moqsub.Varint.{
  varint_size, extra_bytes, decode_varint_bytes, append_varint, parse_varint, read_varint,
}
use moqsub.Varint.Encode.{
  be_bytes, encoding, Fits, varint_size_bounds, append_varint-encoding, length-be_bytes,
}
use moqsub.Varint.Decode.{extra_bytes-encoding, decode_varint_bytes-encoding}

-- `ReadVarint` behind its first byte.
pub read_varint-cons :
    (b : ℕ) (bs : List ℕ) (fin : Error)
    → read_varint (record { bytes = b ∷ bs; fin = fin }) ≡ (
        if leb (extra_bytes b) (length bs)
        then ok (
          decode_varint_bytes b (take (extra_bytes b) bs) (extra_bytes b),
          record { bytes = drop (extra_bytes b) bs; fin = fin },
        )
        else err (short_read bs fin))
unfolding read_varint
read_varint-cons b bs fin = elim (Bool-cases (extra_bytes b == 0)) [
  | inl none_more ↦ rw ((==_iff _ _).0 none_more) (unfold decode_varint_bytes in ground arith)
  | inr more ↦ ground arith
]

pub read_varint-nil : (fin : Error) → read_varint (record { bytes = []; fin = fin }) ≡ err fin
unfolding read_varint short_read
read_varint-nil fin = refl

module _ (n v : ℕ) (rest : List ℕ) (lo : 1 ≤ n) (hi : n ≤ 9) (fits : Fits n v) where
  take-encoding : take (n - 1) (be_bytes (n - 1) v ++ rest) ≡ be_bytes (n - 1) v
  take-encoding =
      subst (λ k. take k (be_bytes (n - 1) v ++ rest) ≡ be_bytes (n - 1) v)
        (length-be_bytes (n - 1) v) (take-length_append (be_bytes (n - 1) v) rest)

  drop-encoding : drop (n - 1) (be_bytes (n - 1) v ++ rest) ≡ rest
  drop-encoding =
      subst (λ k. drop k (be_bytes (n - 1) v ++ rest) ≡ rest) (length-be_bytes (n - 1) v)
        (drop-length_append (be_bytes (n - 1) v) rest)

  enough : leb (n - 1) (length (be_bytes (n - 1) v ++ rest)) ≡ true
  enough =
      le→leb _ _ (omega (arith, length-append (be_bytes (n - 1) v) rest, length-be_bytes (n - 1) v))

  -- `ReadVarint` reads back any form of v, and leaves the reader right behind it.
  pub read_varint-encoding :
      (fin : Error)
      → read_varint (record { bytes = encoding n v ++ rest; fin = fin })
        ≡ ok (v, record { bytes = rest; fin = fin })
  read_varint-encoding fin = rw (
    read_varint-cons,
    extra_bytes-encoding n v lo hi fits,
    enough,
    take-encoding,
    drop-encoding,
    decode_varint_bytes-encoding n v lo hi fits,
  )

-- `ReadVarint` reads back the uint64 that `AppendVarint` wrote, whatever follows it, and leaves
-- the reader right behind the number.
pub read_varint-append_varint :
    (v : ℕ) (rest : List ℕ) (fin : Error)
    → IsU64 v
    → read_varint (record { bytes = append_varint [] v ++ rest; fin = fin })
      ≡ ok (v, record { bytes = rest; fin = fin })
read_varint-append_varint v rest fin h =
    let (lo, hi, fits) = varint_size_bounds v h in
    rw (append_varint-encoding [] v h) (read_varint-encoding (varint_size v) v rest lo hi fits fin)

-- What `ParseVarint` returns, as `ReadVarint` returns it over the same bytes.
abbrev pub as_read : List ℕ → Result (ℕ × ℕ) → Result (ℕ × Reader)
as_read b (ok (v, n)) = ok (v, bytes_reader (drop n b))
as_read b (err e) = err (if leb (length b) 1 then eof else e)
as_read b panic = panic
as_read b stuck = stuck

drop-take_suc : (k b : ℕ) (bs : List ℕ) → drop 1 (take (1 + k) (b ∷ bs)) ≡ take k bs
drop-take_suc k b bs = let e : 1 + k ≡ suc k = omega arith in rw e

pub drop-suc : (k b : ℕ) (bs : List ℕ) → drop (1 + k) (b ∷ bs) ≡ drop k bs
drop-suc k b bs = let e : 1 + k ≡ suc k = omega arith in rw e

pub parse_varint-cons :
    (b : ℕ) (bs : List ℕ)
    → parse_varint (b ∷ bs) ≡ (
        if leb (extra_bytes b) (length bs)
        then ok (decode_varint_bytes b (take (extra_bytes b) bs) (extra_bytes b), 1 + extra_bytes b)
        else err unexpected_eof)
unfolding parse_varint
parse_varint-cons b bs = ground (arith, drop-take_suc (extra_bytes b) b bs)

parse_varint-encoding :
    (n v : ℕ) (rest : List ℕ)
    → 1 ≤ n
    → n ≤ 9
    → Fits n v
    → parse_varint (encoding n v ++ rest) ≡ ok (v, n)
parse_varint-encoding n v rest lo hi fits =
    rw
      (
        parse_varint-cons,
        extra_bytes-encoding n v lo hi fits,
        enough n v rest lo hi fits,
        take-encoding n v rest lo hi fits,
        decode_varint_bytes-encoding n v lo hi fits,
      )
      (ground arith)

-- `ParseVarint` and `ReadVarint` agree on every slice: the same value and the same bytes taken, and
-- an error of one is an error of the other. `ParseVarint` says `io.ErrUnexpectedEOF`; `ReadVarint`
-- says so of two bytes and more, and `io.EOF` of an empty slice and of a lone first byte.
pub parse_varint-eq-read_varint :
    (b : List ℕ) → read_varint (bytes_reader b) ≡ as_read b (parse_varint b)
parse_varint-eq-read_varint [] = unfold parse_varint in read_varint-nil eof
parse_varint-eq-read_varint (b ∷ []) =
    rw (read_varint-cons, parse_varint-cons)
      (unfold short_read in ground (arith, drop-suc (extra_bytes b) b []))
parse_varint-eq-read_varint (b ∷ c ∷ bs) =
    rw (read_varint-cons, parse_varint-cons)
      (unfold short_read equals_eof in ground (arith, drop-suc (extra_bytes b) b (c ∷ bs)))

-- `ParseVarint` reads back the uint64 that `AppendVarint` wrote, whatever follows it, and the
-- number of bytes that it took is `varintSize` of the value.
pub parse_varint-append_varint :
    (v : ℕ) (rest : List ℕ)
    → IsU64 v
    → parse_varint (append_varint [] v ++ rest) ≡ ok (v, varint_size v)
parse_varint-append_varint v rest h =
    let (lo, hi, fits) = varint_size_bounds v h in
    rw (append_varint-encoding [] v h) (parse_varint-encoding (varint_size v) v rest lo hi fits)
