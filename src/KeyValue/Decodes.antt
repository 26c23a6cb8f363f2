-- ===== src/KeyValue/Decodes.antt =====
-- What `DecodeSetup` makes of any payload.
use moqsub.Common.{
  ℕ, zero, suc, ◌+◌, ◌-◌, ◌%◌, ◌^◌, ◌≤◌, ◌<◌, ◌≡◌, ◌⊎◌, sym, ap, subst, List, [], ◌∷◌, ◌++◌, true,
  false, Bool-cases, inl, inr, ltb, ◌==◌, ==_iff, length, arith, All, IsByte, IsU64,
}
use moqsub.Common.{length-append}
use moqsub.Common.Result.{num, ok, wrap, >>=-eq-ok, wrap-eq-ok, Ends, Ends-bind, Ends-wrap}
use moqsub.Reader.{Reader, bytes_reader, read_full}
use moqsub.Reader.Laws.{read_full-Ends, read_full_takes, read_full_bytes}
use moqsub.Varint.{append_varint, read_varint}
use moqsub.Varint.Accepts.{read_varint_takes, read_varint_bytes, append_varint_shape}
use moqsub.Varint.Truncation.{read_varint-Ends}
use moqsub.KeyValue.{
  KvPair, decode_value, decode_pair, decode_pairs, decode_key_value_pairs, count_key_value_pairs,
  decode_setup,
}

decode_value-Ends : (t : ℕ) (r : Reader) → Ends (decode_value t r)
unfolding decode_value
decode_value-Ends t r = elim (Bool-cases (t % 2 == 1)) [
  | inl odd ↦ rw odd (
      Ends-bind (wrap "length for type %d: %w" (num t ∷ []) (read_varint r)) _
        (Ends-wrap _ _ _ (read_varint-Ends r))
        λ (l, r1) e. elim (Bool-cases (ltb (length r1.bytes) l)) [
          | inl long ↦ rw long tt
          | inr fits ↦ rw fits (Ends-wrap _ _ _ (read_full-Ends l r1))
        ])
  | inr even ↦ rw even (
      Ends-bind (wrap "varint value for type %d: %w" (num t ∷ []) (read_varint r)) _
        (Ends-wrap _ _ _ (read_varint-Ends r)) (λ _ _. tt))
]

decode_pair-Ends : (prev : ℕ) (r : Reader) → Ends (decode_pair prev r)
unfolding decode_pair
decode_pair-Ends prev r =
    Ends-bind (wrap "delta type: %w" [] (read_varint r)) _ (Ends-wrap _ _ _ (read_varint-Ends r))
      λ (d, r1) e. elim (Bool-cases (ltb (2 ^ 64 - 1 - prev) d)) [
        | inl long ↦ rw long tt
        | inr fits ↦ rw fits (
            Ends-bind (decode_value ((prev + d) % 2 ^ 64) r1) _ (decode_value-Ends _ r1)
              (λ _ _. tt))
      ]

odd_value :
    (t : ℕ) (r : Reader) (raw : List ℕ) (r' : Reader)
    → (t % 2 == 1) ≡ true
    → decode_value t r ≡ ok (raw, r')
    → (l : ℕ) × (r1 : Reader) × (read_varint r ≡ ok (l, r1)) × (read_full l r1 ≡ ok (raw, r'))
unfolding decode_value
odd_value t r raw r' odd e =
    let e0 = rw odd at e in
    let ((l, r1), e1, e2) =
      >>=-eq-ok (wrap "length for type %d: %w" (num t ∷ []) (read_varint r)) _ e0 in
    (
      l,
      r1,
      wrap-eq-ok _ _ _ e1,
      elim (Bool-cases (ltb (length r1.bytes) l)) [
        | inl long ↦ let e3 = rw long at e2 in cc
        | inr fits ↦ let e3 = rw fits at e2 in wrap-eq-ok _ _ _ e3
      ],
    )

even_value :
    (t : ℕ) (r : Reader) (raw : List ℕ) (r' : Reader)
    → (t % 2 == 1) ≡ false
    → decode_value t r ≡ ok (raw, r')
    → (v : ℕ) × (read_varint r ≡ ok (v, r')) × (raw ≡ append_varint [] v)
unfolding decode_value
even_value t r raw r' even e =
    let e0 = rw even at e in
    let ((v, r1), e1, e2) =
      >>=-eq-ok (wrap "varint value for type %d: %w" (num t ∷ []) (read_varint r)) _ e0 in
    let back : r1 ≡ r' = cc in (v, rw (← back) (wrap-eq-ok _ _ _ e1), cc)

decode_value_takes :
    (t : ℕ) (r : Reader) (raw : List ℕ) (r' : Reader)
    → decode_value t r ≡ ok (raw, r')
    → length r'.bytes < length r.bytes
decode_value_takes t r raw r' e = elim (Bool-cases (t % 2 == 1)) [
  | inl odd ↦
      let (l, r1, e1, e2) = odd_value t r raw r' odd e in
      omega (
        arith,
        (read_varint_takes r.bytes r.fin l r1 e1).0,
        (read_full_takes l r1.bytes r1.fin raw r' e2).0,
      )
  | inr even ↦
      let (v, e1, _) = even_value t r raw r' even e in (read_varint_takes r.bytes r.fin v r' e1).0
]

pub decode_value_bytes :
    (t : ℕ) (r : Reader) (raw : List ℕ) (r' : Reader)
    → All IsByte r.bytes
    → decode_value t r ≡ ok (raw, r')
    → All IsByte r'.bytes
      × All IsByte raw
      × ((t % 2 ≡ 1) ⊎ ((v : ℕ) × IsU64 v × (raw ≡ append_varint [] v)))
decode_value_bytes t r raw r' h e = elim (Bool-cases (t % 2 == 1)) [
  | inl odd ↦
      let (l, r1, e1, e2) = odd_value t r raw r' odd e in
      let (_, h1) = read_varint_bytes r.bytes r.fin l r1 h e1 in
      let (hr, h2) = read_full_bytes l r1.bytes r1.fin raw r' h1 e2 in
      (h2, hr, inl ((==_iff _ _).0 odd))
  | inr even ↦
      let (v, e1, shape) = even_value t r raw r' even e in
      let (u, h1) = read_varint_bytes r.bytes r.fin v r' h e1 in
      let (_, _, _, _, hb) = append_varint_shape [] v u in (h1, rw shape hb, inr (v, u, shape))
]

-- One round of the decoder that succeeded.
pub decode_pair-eq_ok :
    (prev : ℕ) (r : Reader) (p : KvPair) (r' : Reader)
    → decode_pair prev r ≡ ok (p, r')
    → (d : ℕ) × (r1 : Reader) × (read_varint r ≡ ok (d, r1))
      × (d ≤ 2 ^ 64 - 1 - prev)
      × (p.kind ≡ (prev + d) % 2 ^ 64)
      × (decode_value p.kind r1 ≡ ok (p.raw, r'))
unfolding decode_pair
decode_pair-eq_ok prev r p r' e =
    let ((d, r1), e1, e2) = >>=-eq-ok (wrap "delta type: %w" [] (read_varint r)) _ e in
    elim (Bool-cases (ltb (2 ^ 64 - 1 - prev) d)) [
      | inl long ↦ let e3 = rw long at e2 in cc
      | inr fits ↦
          let e3 = rw fits at e2 in
          let ((raw, r2), e4, e5) = >>=-eq-ok (decode_value ((prev + d) % 2 ^ 64) r1) _ e3 in
          let pe : record { kind = (prev + d) % 2 ^ 64; raw = raw } ≡ p = cc in
          let re : r2 ≡ r' = cc in
          (
            d,
            r1,
            wrap-eq-ok _ _ _ e1,
            ground arith,
            ap (λ (q : KvPair). q.kind) (sym pe),
            subst (λ q. decode_value q.kind r1 ≡ ok (q.raw, r')) pe
                (subst (λ w. decode_value ((prev + d) % 2 ^ 64) r1 ≡ ok (raw, w)) re e4),
          )
    ]

decode_pair_takes :
    (prev : ℕ) (r : Reader) (p : KvPair) (r' : Reader)
    → decode_pair prev r ≡ ok (p, r')
    → length r'.bytes < length r.bytes
decode_pair_takes prev r p r' e =
    let (d, r1, e1, _, _, e2) = decode_pair-eq_ok prev r p r' e in
    omega
      (arith, (read_varint_takes r.bytes r.fin d r1 e1).0, decode_value_takes p.kind r1 p.raw r' e2)

decode_pairs-Ends :
    (fuel prev : ℕ) (out : List KvPair) (r : Reader)
    → length r.bytes ≤ fuel
    → Ends (decode_pairs fuel prev out r)
unfolding decode_pairs
decode_pairs-Ends zero prev out r h = ground arith
decode_pairs-Ends (suc fuel) prev out r h = elim (Bool-cases (length r.bytes == 0)) [
  | inl z ↦ rw z tt
  | inr more ↦ rw more (
      Ends-bind (decode_pair prev r) _ (decode_pair-Ends prev r) λ (p, r1) e.
        decode_pairs-Ends fuel p.kind (out ++ p ∷ []) r1
          (omega (arith, decode_pair_takes prev r p r1 e)))
]

-- `DecodeSetup` comes to an end on every payload, whatever its bytes: it returns a message or an
-- error. Its loop runs at most as often as the payload has bytes, and no slice is out of range.
pub decode_setup-Ends : (payload : List ℕ) → Ends (decode_setup payload)
unfolding decode_setup decode_key_value_pairs
decode_setup-Ends payload =
    Ends-bind (decode_pairs (length payload) 0 [] (bytes_reader payload)) _
      (decode_pairs-Ends (length payload) 0 [] (bytes_reader payload) (omega arith)) (λ _ _. tt)

decode_pairs_count :
    (fuel prev : ℕ) (out : List KvPair) (r : Reader) (ps : List KvPair)
    → decode_pairs fuel prev out r ≡ ok ps
    → length ps ≤ length out + length r.bytes
unfolding decode_pairs
decode_pairs_count zero prev out r ps e = ground arith
decode_pairs_count (suc fuel) prev out r ps e = elim (Bool-cases (length r.bytes == 0)) [
  | inl z ↦ let e' = rw z at e in let same : out ≡ ps = cc in omega (arith, ap (length {0}) same)
  | inr more ↦
      let e' = rw more at e in
      let ((p, r1), e1, e2) = >>=-eq-ok (decode_pair prev r) _ e' in
      omega (
        arith,
        decode_pair_takes prev r p r1 e1,
        decode_pairs_count fuel p.kind (out ++ p ∷ []) r1 ps e2,
        length-append out (p ∷ []),
      )
]

-- There are no more pairs than bytes.
pub count_key_value_pairs-le :
    (payload : List ℕ) (n : ℕ) → count_key_value_pairs payload ≡ ok n → n ≤ length payload
unfolding count_key_value_pairs decode_key_value_pairs
count_key_value_pairs-le payload n e =
    let (ps, e1, e2) = >>=-eq-ok (decode_pairs (length payload) 0 [] (bytes_reader payload)) _ e in
    let same : length ps ≡ n = cc in
    omega (arith, decode_pairs_count (length payload) 0 [] (bytes_reader payload) ps e1, same)
