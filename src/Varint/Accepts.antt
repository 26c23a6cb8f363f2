-- ===== src/Varint/Accepts.antt =====
-- What the decoders accept, on any bytes.
use moqsub.Common.{
  ℕ, suc, ◌+◌, ◌≤◌, ◌<◌, ◌≡◌, refl, sym, ap, subst, ◌∙◌, List, [], ◌∷◌, ◌++◌, length, take, drop,
  arith, All, IsByte, IsU64, leb, leb→le, Bool-cases, inl, inr, take-append-drop, length-take,
  length-drop, All-take, All-drop,
}
use moqsub.Common.Result.{Error, ok}
use moqsub.Reader.{Reader}
use moqsub.Varint.{
  varint_size, extra_bytes, decode_varint_bytes, append_varint, parse_varint, read_varint,
}
use moqsub.Varint.Encode.{
  encoding, Fits, Fits-IsU64, length-encoding, varint_size_bounds, varint_size-le,
  append_varint-encoding,
}
use moqsub.Varint.Decode.{extra_bytes-le, decode_varint_bytes-inverse}
use moqsub.Varint.RoundTrip.{read_varint-cons, read_varint-nil, parse_varint-cons, drop-suc}

-- The last part of `parse_varint-eq_ok` and of `read_varint-eq_ok`.
cut :
    (b : ℕ) (bs : List ℕ)
    → All IsByte (b ∷ bs)
    → extra_bytes b ≤ length bs
    → let n = 1 + extra_bytes b in
      let v = decode_varint_bytes b (take (extra_bytes b) bs) (extra_bytes b) in
      (1 ≤ n) × (n ≤ 9) × Fits n v × (b ∷ bs ≡ encoding n v ++ drop n (b ∷ bs))
cut b bs h le =
    let k = extra_bytes b in
    let len : k ≡ length (take k bs) = sym (length-take k bs le) in
    let (fits, shape) =
      subst
        (λ j.
          Fits (suc j) (decode_varint_bytes b (take k bs) j)
          × (b ∷ take k bs ≡ encoding (suc j) (decode_varint_bytes b (take k bs) j)))
        (sym len) (decode_varint_bytes-inverse b (take k bs) h.0 (All-take IsByte k bs h.1) len) in
    let e : 1 + k ≡ suc k = omega arith in
    rw e (
      omega arith,
      omega (arith, extra_bytes-le b),
      fits,
      ap (λ t. b ∷ t) (sym (take-append-drop k bs)) ∙ ap (λ t. t ++ drop k bs) shape,
    )

-- What a successful call says of the bytes.
parse_varint-ok_cons :
    (b : ℕ) (bs : List ℕ) (v n : ℕ)
    → parse_varint (b ∷ bs) ≡ ok (v, n)
    → (extra_bytes b ≤ length bs)
      × (decode_varint_bytes b (take (extra_bytes b) bs) (extra_bytes b) ≡ v)
      × (1 + extra_bytes b ≡ n)
parse_varint-ok_cons b bs v n e = elim (Bool-cases (leb (extra_bytes b) (length bs))) [
  | inl t ↦ let e' = rw (parse_varint-cons, t) at e in (leb→le _ _ t, cc, cc)
  | inr f ↦ let e' = rw (parse_varint-cons, f) at e in cc
]

-- What `ParseVarint` accepts is a form of the value that it returns, of the length that it returns,
-- with the rest of the slice behind it.
pub parse_varint-eq_ok :
    (b : List ℕ) (v n : ℕ)
    → All IsByte b
    → parse_varint b ≡ ok (v, n)
    → (1 ≤ n) × (n ≤ 9) × Fits n v × (b ≡ encoding n v ++ drop n b)
parse_varint-eq_ok [] v n h e = unfold parse_varint in cc
parse_varint-eq_ok (b ∷ bs) v n h e =
    let (le, ev, en) = parse_varint-ok_cons b bs v n e in rw (← ev, ← en) (cut b bs h le)

-- No accepted form of a number is shorter than the one that `AppendVarint` writes.
pub append_varint_minimal :
    (b : List ℕ) (v n : ℕ)
    → All IsByte b
    → parse_varint b ≡ ok (v, n)
    → length (append_varint [] v) ≤ n
append_varint_minimal b v n h e =
    let (lo, hi, fits, _) = parse_varint-eq_ok b v n h e in
    let u64 = (Fits-IsU64 n v lo hi fits).0 in
    let lo' = (varint_size_bounds v u64).0 in
    rw (append_varint-encoding [] v u64)
      (omega (arith, length-encoding (varint_size v) v lo', varint_size-le n v lo hi fits))

-- `AppendVarint` keeps the slice that it is given, adds `varintSize` bytes, 1 to 9, and each is a byte.
pub append_varint_shape :
    (b : List ℕ) (v : ℕ)
    → IsU64 v
    → (append_varint b v ≡ b ++ append_varint [] v)
      × (length (append_varint [] v) ≡ varint_size v)
      × (1 ≤ varint_size v)
      × (varint_size v ≤ 9)
      × All IsByte (append_varint [] v)
append_varint_shape b v h =
    let (lo, hi, fits) = varint_size_bounds v h in
    rw (append_varint-encoding b v h, append_varint-encoding [] v h)
      (
        refl,
        length-encoding (varint_size v) v lo,
        lo,
        hi,
        (Fits-IsU64 (varint_size v) v lo hi fits).1,
      )

-- Of each uint64 `AppendVarint` writes as many bytes as `varintSize` says, at least 1 and at most 9, which
-- keeps the slices of its array of 8 in their range; and no form of the number that `ParseVarint` accepts
-- is shorter.
pub append_varint_shortest :
    (v : ℕ)
    → IsU64 v
    → (1 ≤ varint_size v)
      × (varint_size v ≤ 9)
      × (length (append_varint [] v) ≡ varint_size v)
      × ((b : List ℕ) (n : ℕ) → All IsByte b → parse_varint b ≡ ok (v, n) → varint_size v ≤ n)
append_varint_shortest v h =
    let (_, len, lo, hi, _) = append_varint_shape [] v h in
    (lo, hi, len, λ b n bytes e. subst (λ k. k ≤ n) len (append_varint_minimal b v n bytes e))

-- What a successful `ReadVarint` says of the bytes.
pub read_varint-ok_cons :
    (b : ℕ) (bs : List ℕ) (fin : Error) (v : ℕ) (r : Reader)
    → read_varint (record { bytes = b ∷ bs; fin = fin }) ≡ ok (v, r)
    → (extra_bytes b ≤ length bs)
      × (decode_varint_bytes b (take (extra_bytes b) bs) (extra_bytes b) ≡ v)
      × (record { bytes = drop (extra_bytes b) bs; fin = fin } ≡ r)
read_varint-ok_cons b bs fin v r e = elim (Bool-cases (leb (extra_bytes b) (length bs))) [
  | inl t ↦ let e' = rw (read_varint-cons, t) at e in (leb→le _ _ t, cc, cc)
  | inr f ↦ let e' = rw (read_varint-cons, f) at e in cc
]

-- What `ReadVarint` accepts is a form of the uint64 that it returns, and it takes just that.
pub read_varint-eq_ok :
    (bs : List ℕ) (fin : Error) (v : ℕ) (r : Reader)
    → All IsByte bs
    → read_varint (record { bytes = bs; fin = fin }) ≡ ok (v, r)
    → (n : ℕ) × (1 ≤ n) × (n ≤ 9) × Fits n v × (bs ≡ encoding n v ++ r.bytes)
read_varint-eq_ok [] fin v r h e = let e' = rw read_varint-nil at e in cc
read_varint-eq_ok (b ∷ bs) fin v r h e =
    let (le, ev, er) = read_varint-ok_cons b bs fin v r e in
    let (lo, hi, fits, shape) = cut b bs h le in
    rw (← ev, ← er) (1 + extra_bytes b, lo, hi, fits, shape ∙ rw drop-suc)

-- It takes a byte at least, and keeps the end of the stream.
pub read_varint_takes :
    (bs : List ℕ) (fin : Error) (v : ℕ) (r : Reader)
    → read_varint (record { bytes = bs; fin = fin }) ≡ ok (v, r)
    → (length r.bytes < length bs) × (fin ≡ r.fin)
read_varint_takes [] fin v r e = let e' = rw read_varint-nil at e in cc
read_varint_takes (b ∷ bs) fin v r e =
    let (le, ev, er) = read_varint-ok_cons b bs fin v r e in
    rw (← er) (omega (arith, length-drop (extra_bytes b) bs), refl)

-- Over bytes it returns a uint64 and leaves bytes.
pub read_varint_bytes :
    (bs : List ℕ) (fin : Error) (v : ℕ) (r : Reader)
    → All IsByte bs
    → read_varint (record { bytes = bs; fin = fin }) ≡ ok (v, r)
    → IsU64 v × All IsByte r.bytes
read_varint_bytes [] fin v r h e = let e' = rw read_varint-nil at e in cc
read_varint_bytes (b ∷ bs) fin v r h e =
    let (n, lo, hi, fits, _) = read_varint-eq_ok (b ∷ bs) fin v r h e in
    let (_, _, er) = read_varint-ok_cons b bs fin v r e in
    ((Fits-IsU64 n v lo hi fits).0, rw (← er) (All-drop IsByte (extra_bytes b) bs h.1))

pub parse_varint_bytes :
    (b : List ℕ) (v n : ℕ) → All IsByte b → parse_varint b ≡ ok (v, n) → IsU64 v
parse_varint_bytes b v n h e =
    let (lo, hi, fits, _) = parse_varint-eq_ok b v n h e in (Fits-IsU64 n v lo hi fits).0
