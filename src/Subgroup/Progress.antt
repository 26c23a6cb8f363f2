-- ===== src/Subgroup/Progress.antt =====
-- `SubgroupObjectReader.Next` always returns or panics, and takes bytes off the stream.
use moqsub.Common.{
  ℕ, String, ◌≤◌, ◌<◌, ◌≡◌, refl, subst, inl, inr, ◌⊎◌, List, [], Bool, true, false, Bool-cases,
  ltb, ◌==◌, arith, length,
}
use moqsub.Common.Result.{
  Error, Result, ok, err, panic, stuck, wrap, wrap-eq-ok, Ends, Ends-wrap, ◌>>=◌, >>=-eq-ok,
  ok-injective,
}
use moqsub.Reader.{max_alloc, make_bytes, Reader, read_full}
use moqsub.Reader.Laws.{read_full_takes, read_full-Ends}
use moqsub.Varint.{read_varint}
use moqsub.Varint.Accepts.{read_varint_takes}
use moqsub.Varint.Truncation.{read_varint-Ends}
use moqsub.Subgroup.{SubgroupObject, SubgroupObjectReader, read_extensions, read_content, next}

-- Every end but that of a loop out of fuel: a panic is one.
abbrev pub Returns {ℓ} : {A : Type ℓ} → Result A → Type 0
Returns (ok a) = Unit {0}
Returns (err e) = Unit {0}
Returns panic = Unit {0}
Returns stuck = ⊥

pub Returns-bind :
    {A B : Type 0} (m : Result A) (f : A → Result B)
    → Returns m
    → ((a : A) → Returns (f a))
    → Returns (m >>= f)
Returns-bind (ok a) f h k = k a
Returns-bind (err e) f h k = tt
Returns-bind panic f h k = tt
Returns-bind stuck f h k = h

pub Ends-Returns : {A : Type 0} (m : Result A) → Ends m → Returns m
Ends-Returns (ok a) h = tt
Ends-Returns (err e) h = tt
Ends-Returns panic h = tt
Ends-Returns stuck h = h

pub Returns-cases :
    {A : Type 0} (m : Result A)
    → Returns m
    → ((a : A) × (m ≡ ok a)) ⊎ ((e : Error) × (m ≡ err e)) ⊎ (m ≡ panic)
Returns-cases (ok a) h = inl (a, refl)
Returns-cases (err e) h = inr (inl (e, refl))
Returns-cases panic h = inr (inr refl)
Returns-cases stuck h = absurd h

pub wrapped_varint-Returns : (f : String) (r : Reader) → Returns (wrap f [] (read_varint r))
wrapped_varint-Returns f r = Ends-Returns _ (Ends-wrap f [] (read_varint r) (read_varint-Ends r))

make_bytes-Returns : (n : ℕ) → Returns (make_bytes n)
make_bytes-Returns n = elim (Bool-cases (ltb max_alloc n)) [ inl h ↦ rw h tt | inr h ↦ rw h tt ]

read_extensions-Returns : (ext : Bool) (r : Reader) → Returns (read_extensions ext r)
unfolding read_extensions
read_extensions-Returns false r = tt
read_extensions-Returns true r =
    Returns-bind _ _ (wrapped_varint-Returns "extension headers length: %w" r) (λ (n, r1).
      elim (Bool-cases (ltb 0 n)) [
        | inl h ↦ rw h (
            Returns-bind (make_bytes n) _ (make_bytes-Returns n) (λ _. Ends-Returns _ (
              Ends-wrap "extension headers payload: %w" [] (read_full n r1) (read_full-Ends n r1))))
        | inr h ↦ rw h tt
      ])

read_content-Returns : (n : ℕ) (r : Reader) → Returns (read_content n r)
unfolding read_content
read_content-Returns n r = elim (Bool-cases (n == 0)) [
  | inl h ↦ rw h (Returns-bind _ _ (wrapped_varint-Returns "object status: %w" r) (λ _. tt))
  | inr h ↦ rw h (
      Returns-bind (make_bytes n) _ (make_bytes-Returns n) (λ _.
        Returns-bind _ _
          (Ends-Returns _ (Ends-wrap "object payload: %w" [] (read_full n r) (read_full-Ends n r)))
          (λ _. tt)))
]

pub next-Returns : (s : SubgroupObjectReader) → Returns (next s)
unfolding next
next-Returns s =
    Returns-bind (read_varint s.r) _ (Ends-Returns _ (read_varint-Ends s.r)) λ (delta, r1).
      Returns-bind (read_extensions s.has_extensions r1) _
        (read_extensions-Returns s.has_extensions r1)
        λ (props, r2).
          Returns-bind _ _ (wrapped_varint-Returns "payload length: %w" r2)
            λ (n, r3). Returns-bind (read_content n r3) _ (read_content-Returns n r3) λ _. tt

wrapped_varint_takes :
    (f : String) (r : Reader) (v : ℕ) (r' : Reader)
    → wrap f [] (read_varint r) ≡ ok (v, r')
    → length r'.bytes < length r.bytes
wrapped_varint_takes f r v r' e =
    omega (arith, (read_varint_takes r.bytes r.fin v r' (wrap-eq-ok f [] (read_varint r) e)).0)

wrapped_full_takes :
    (f : String) (n : ℕ) (r : Reader) (out : List ℕ) (r' : Reader)
    → wrap f [] (read_full n r) ≡ ok (out, r')
    → length r'.bytes ≤ length r.bytes
wrapped_full_takes f n r out r' e =
    omega (arith, (read_full_takes n r.bytes r.fin out r' (wrap-eq-ok f [] (read_full n r) e)).0)

shorter :
    (r r1 r2 : Reader)
    → r1 ≡ r2
    → length r1.bytes ≤ length r.bytes
    → length r2.bytes ≤ length r.bytes
shorter r r1 r2 q h = subst (λ (w : Reader). length w.bytes ≤ length r.bytes) q h

read_extensions_takes :
    (ext : Bool) (r : Reader) (props : List ℕ) (r' : Reader)
    → read_extensions ext r ≡ ok (props, r')
    → length r'.bytes ≤ length r.bytes
unfolding read_extensions
read_extensions_takes false r props r' e = shorter r r r' (cc) (omega arith)
read_extensions_takes true r props r' e =
    let ((n, r1), e1, e2) =
      >>=-eq-ok (wrap "extension headers length: %w" [] (read_varint r)) _ e in
    let lt = wrapped_varint_takes "extension headers length: %w" r n r1 e1 in
    elim (Bool-cases (ltb 0 n)) [
      | inl h ↦
          let e3 = rw h at e2 in
          let (_, _, e4) = >>=-eq-ok (make_bytes n) _ e3 in
          omega (arith, lt, wrapped_full_takes "extension headers payload: %w" n r1 props r' e4)
      | inr h ↦
          let e3 = rw h at e2 in
          let le : length r1.bytes ≤ length r.bytes = omega (arith, lt) in shorter r r1 r' (cc) le
    ]

read_content_takes :
    (n : ℕ) (r : Reader) (status : ℕ) (payload : List ℕ) (is_status : Bool) (r' : Reader)
    → read_content n r ≡ ok (status, payload, is_status, r')
    → length r'.bytes ≤ length r.bytes
unfolding read_content
read_content_takes n r status payload is_status r' e = elim (Bool-cases (n == 0)) [
  | inl h ↦
      let e1 = rw h at e in
      let ((v, r1), e2, e3) = >>=-eq-ok (wrap "object status: %w" [] (read_varint r)) _ e1 in
      let le : length r1.bytes ≤ length r.bytes =
        omega (arith, wrapped_varint_takes "object status: %w" r v r1 e2) in
      shorter r r1 r' (cc) le
  | inr h ↦
      let e1 = rw h at e in
      let (_, _, e2) = >>=-eq-ok (make_bytes n) _ e1 in
      let ((bs, r1), e3, e4) = >>=-eq-ok (wrap "object payload: %w" [] (read_full n r)) _ e2 in
      shorter r r1 r' (cc) (wrapped_full_takes "object payload: %w" n r bs r1 e3)
]

pub next_takes :
    (s : SubgroupObjectReader) (obj : SubgroupObject) (s' : SubgroupObjectReader)
    → next s ≡ ok (obj, s')
    → length s'.r.bytes < length s.r.bytes
unfolding next
next_takes s obj s' e =
    let ((delta, r1), e1, e2) = >>=-eq-ok (read_varint s.r) _ e in
    let ((props, r2), e3, e4) = >>=-eq-ok (read_extensions s.has_extensions r1) _ e2 in
    let ((n, r3), e5, e6) = >>=-eq-ok (wrap "payload length: %w" [] (read_varint r2)) _ e4 in
    let ((status, payload, is_status, r4), e7, e8) = >>=-eq-ok (read_content n r3) _ e6 in
    subst (λ q. length q.1.r.bytes < length s.r.bytes) (ok-injective e8)
      (omega (
        arith,
        (read_varint_takes s.r.bytes s.r.fin delta r1 e1).0,
        read_extensions_takes s.has_extensions r1 props r2 e3,
        wrapped_varint_takes "payload length: %w" r2 n r3 e5,
        read_content_takes n r3 status payload is_status r4 e7,
      ))
