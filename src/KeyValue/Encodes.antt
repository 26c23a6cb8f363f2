-- ===== src/KeyValue/Encodes.antt =====
-- Which options `EncodeSetup` accepts.
use moqsub.Common.{
  ℕ, ◌+◌, ◌-◌, ◌%◌, ◌^◌, ◌<◌, ◌≡◌, ◌↔◌, ◌⊎◌, refl, List, [], ◌∷◌, ◌++◌, Bool-cases, inl, inr, ◌==◌,
  ==_iff, length, arith, All,
}
use moqsub.Common.Result.{Result, ok, err, panic, stuck, ◌>>=◌, >>=-eq-ok}
use moqsub.Varint.{append_varint, parse_varint}
use moqsub.KeyValue.{
  SetupOption, SetupMessage, check_order, append_even, append_value, encode_pairs,
  encode_key_value_pairs, encode_setup,
}

-- The types increase strictly, from above `prev`.
abbrev pub Increasing : ℕ → List SetupOption → Type 0
Increasing prev [] = Unit {0}
Increasing prev (o ∷ os) = (prev < o.kind) × Increasing o.kind os

-- They increase strictly; the first may be 0.
abbrev pub IsIncreasing : List SetupOption → Type 0
IsIncreasing [] = Unit {0}
IsIncreasing (o ∷ os) = Increasing o.kind os

-- The value of an even option is empty, or one varint and nothing else.
abbrev pub HasValue : SetupOption → Type 0
HasValue o =
    (o.kind % 2 ≡ 1) ⊎ (o.raw ≡ []) ⊎ ((v : ℕ) × (parse_varint o.raw ≡ ok (v, length o.raw)))

even_parsed :
    (out : List ℕ) (kind b : ℕ) (bs : List ℕ) (out' : List ℕ)
    → append_even out (record { kind = kind; raw = b ∷ bs }) ≡ ok out'
    → (v : ℕ) × (parse_varint (b ∷ bs) ≡ ok (v, length (b ∷ bs)))
unfolding append_even
even_parsed out kind b bs out' e = parsed (parse_varint (b ∷ bs)) refl
  where
    parsed :
        (r : Result (ℕ × ℕ))
        → parse_varint (b ∷ bs) ≡ r
        → (v : ℕ) × (parse_varint (b ∷ bs) ≡ ok (v, length (b ∷ bs)))
    parsed (ok (v, n)) q = (v, ground arith)
    parsed (err x) q = absurd (ground arith)
    parsed panic q = absurd (ground arith)
    parsed stuck q = absurd (ground arith)

append_value-HasValue :
    (out : List ℕ) (kind : ℕ) (raw out' : List ℕ)
    → append_value out (record { kind = kind; raw = raw }) ≡ ok out'
    → HasValue (record { kind = kind; raw = raw })
unfolding append_value
append_value-HasValue out kind [] out' e = inr (inl refl)
append_value-HasValue out kind (b ∷ bs) out' e = elim (Bool-cases (kind % 2 == 1)) [
  | inl odd ↦ inl ((==_iff _ _).0 odd)
  | inr even ↦ inr (inr (even_parsed out kind b bs out' (rw even at e)))
]

append_value-accepts :
    (out : List ℕ) (kind : ℕ) (raw : List ℕ)
    → HasValue (record { kind = kind; raw = raw })
    → (out' : List ℕ) × (append_value out (record { kind = kind; raw = raw }) ≡ ok out')
unfolding append_value append_even
append_value-accepts out kind [] h = elim (Bool-cases (kind % 2 == 1)) [
  | inl odd ↦ (append_varint out 0 ++ [], rw odd)
  | inr even ↦ (append_varint out 0, rw even)
]
append_value-accepts out kind (b ∷ bs) (inl odd) =
    (append_varint out (length (b ∷ bs)) ++ b ∷ bs, ground arith)
append_value-accepts out kind (b ∷ bs) (inr (inl e)) = cc
append_value-accepts out kind (b ∷ bs) (inr (inr (v, e))) = elim (Bool-cases (kind % 2 == 1)) [
  | inl odd ↦ (append_varint out (length (b ∷ bs)) ++ b ∷ bs, rw odd)
  | inr even ↦ (append_varint out v, rw (even, e) (ground arith))
]

check_order-later : (i prev kind : ℕ) → 0 < i → (check_order i prev kind ≡ ok tt) ↔ (prev < kind)
unfolding check_order
check_order-later i prev kind pos = (λ e. ground arith, λ h. ground arith)

check_order-first : (kind : ℕ) → check_order 0 0 kind ≡ ok tt
unfolding check_order
check_order-first kind = ground arith

abbrev delta : ℕ → ℕ → ℕ
delta prev kind = (kind + 2 ^ 64 - prev) % 2 ^ 64

encode_pairs-accepts :
    (i prev : ℕ) (out : List ℕ) (os : List SetupOption)
    → 0 < i
    → Increasing prev os
    → All HasValue os
    → (bytes : List ℕ) × (encode_pairs i prev out os ≡ ok bytes)
unfolding encode_pairs
encode_pairs-accepts i prev out [] pos up h = (out, refl)
encode_pairs-accepts i prev out (o ∷ os) pos up h =
    let (out', e) = append_value-accepts (append_varint out (delta prev o.kind)) o.kind o.raw h.0 in
    let (bytes, e') = encode_pairs-accepts (i + 1) o.kind out' os (omega arith) up.1 h.1 in
    (bytes, rw ((check_order-later i prev o.kind pos).1 up.0, e) e')

-- One round of the encoder that succeeded.
encode_pairs-step :
    (i prev : ℕ) (out : List ℕ) (o : SetupOption) (os : List SetupOption) (bytes : List ℕ)
    → encode_pairs i prev out (o ∷ os) ≡ ok bytes
    → (check_order i prev o.kind ≡ ok tt)
      × HasValue o
      × ((out' : List ℕ) × (encode_pairs (i + 1) o.kind out' os ≡ ok bytes))
unfolding encode_pairs
encode_pairs-step i prev out o os bytes e =
    let out0 = append_varint out (delta prev o.kind) in
    let (u, e1, e2) =
      >>=-eq-ok (check_order i prev o.kind)
        (λ _. append_value out0 o >>= λ out'. encode_pairs (i + 1) o.kind out' os) e in
    let (out', e3, e4) =
      >>=-eq-ok (append_value out0 o) (λ out'. encode_pairs (i + 1) o.kind out' os) e2 in
    (e1, append_value-HasValue out0 o.kind o.raw out' e3, (out', e4))

encode_pairs-Increasing :
    (i prev : ℕ) (out : List ℕ) (os : List SetupOption) (bytes : List ℕ)
    → 0 < i
    → encode_pairs i prev out os ≡ ok bytes
    → Increasing prev os × All HasValue os
encode_pairs-Increasing i prev out [] bytes pos e = (tt, tt)
encode_pairs-Increasing i prev out (o ∷ os) bytes pos e =
    let (e1, h, (out', e2)) = encode_pairs-step i prev out o os bytes e in
    let (up, hs) = encode_pairs-Increasing (i + 1) o.kind out' os bytes (omega arith) e2 in
    (((check_order-later i prev o.kind pos).0 e1, up), (h, hs))

accepts :
    (os : List SetupOption)
    → ((bytes : List ℕ) × (encode_pairs 0 0 [] os ≡ ok bytes)) ↔ (IsIncreasing os × All HasValue os)
accepts [] = (λ _. (tt, tt), λ _. ([], unfold encode_pairs in refl))
accepts (o ∷ os) = (
  λ (bytes, e).
      let (_, h, (out', e2)) = encode_pairs-step 0 0 [] o os bytes e in
      let (up, hs) = encode_pairs-Increasing 1 o.kind out' os bytes (omega arith) e2 in
      (up, (h, hs)),
  λ (up, hs).
      let (out', e) = append_value-accepts (append_varint [] (delta 0 o.kind)) o.kind o.raw hs.0 in
      let (bytes, e') = encode_pairs-accepts 1 o.kind out' os (omega arith) up hs.1 in
      (bytes, unfold encode_pairs in rw (check_order-first o.kind, e) e'),
)

-- `EncodeSetup` succeeds exactly when the types increase strictly and the value of each even option is
-- empty or exactly one varint.
pub encode_setup_accepts :
    (m : SetupMessage)
    → ((bytes : List ℕ) × (encode_setup m ≡ ok bytes))
      ↔ (IsIncreasing m.options × All HasValue m.options)
unfolding encode_setup encode_key_value_pairs
encode_setup_accepts m = accepts m.options
