-- ===== src/KeyValue/RoundTrip.antt =====
-- `DecodeSetup` against `EncodeSetup`.
use moqsub.Common.{
  ℕ, zero, suc, ◌+◌, ◌-◌, ◌%◌, ◌^◌, ◌≤◌, ◌<◌, ◌≡◌, refl, ap, List, [], ◌∷◌, ◌++◌, false, Bool-cases,
  inl, inr, ◌==◌, if◌then◌else◌, length, map, arith, append_assoc, append-nil, length-append, IsU64,
  IsByte, All, le→not_ltb,
}
use moqsub.Common.Result.{Result, ok, err, panic, stuck, ◌>>=◌, >>=-eq-ok, eof}
use moqsub.Reader.{bytes_reader}
use moqsub.Reader.Laws.{read_full-append}
use moqsub.Varint.{append_varint, parse_varint}
use moqsub.Varint.RoundTrip.{read_varint-append_varint}
use moqsub.Varint.Accepts.{append_varint_shape, parse_varint_bytes}
use moqsub.KeyValue.{
  SetupOption, SetupMessage, KvPair, check_order, append_even, append_value, encode_pairs,
  encode_key_value_pairs, decode_value, decode_pair, decode_pairs, decode_key_value_pairs,
  as_option, encode_setup, decode_setup,
}

-- The number that the raw bytes of an even option stand for.
abbrev pub even_value : List ℕ → ℕ
even_value raw =
    if length raw == 0
    then 0
    else elim (parse_varint raw) [ ok (v, n) ↦ v | err e ↦ 0 | panic ↦ 0 | stuck ↦ 0 ]

-- The raw bytes as they arrive: those of an even option in the shortest form.
abbrev pub canonical : SetupOption → SetupOption
canonical o = record o {
  raw = if o.kind % 2 == 1 then o.raw else append_varint [] (even_value o.raw);
}

-- What the types of Go say of an option.
abbrev pub IsOption : SetupOption → Type 0
IsOption o = IsU64 o.kind × IsU64 (length o.raw) × All IsByte o.raw

abbrev pub value_wire : SetupOption → List ℕ
value_wire o =
    if o.kind % 2 == 1
    then append_varint [] (length o.raw) ++ o.raw
    else append_varint [] (even_value o.raw)

abbrev pub wire : ℕ → List SetupOption → List ℕ
wire prev [] = []
wire prev (o ∷ os) = append_varint [] (o.kind - prev) ++ (value_wire o ++ wire o.kind os)

-- What the encoder has checked.
abbrev pub Ascending : ℕ → List SetupOption → Type 0
Ascending prev [] = Unit {0}
Ascending prev (o ∷ os) = (prev ≤ o.kind) × Ascending o.kind os

check_order-ok : (i prev kind : ℕ) → check_order i prev kind ≡ ok tt → prev ≤ kind
unfolding check_order
check_order-ok i prev kind h = ground arith

append_varint-split :
    (out : List ℕ) (v : ℕ) → IsU64 v → append_varint out v ≡ out ++ append_varint [] v
append_varint-split out v h = (append_varint_shape out v h).0

even_value-IsU64 : (raw : List ℕ) → All IsByte raw → IsU64 (even_value raw)
even_value-IsU64 raw h = elim (Bool-cases (length raw == 0)) [
  | inl z ↦ rw z (omega arith)
  | inr z ↦ rw z (parsed (parse_varint raw) refl)
]
  where
    parsed :
        (r : Result (ℕ × ℕ))
        → parse_varint raw ≡ r
        → IsU64 (elim r [ ok (v, n) ↦ v | err e ↦ 0 | panic ↦ 0 | stuck ↦ 0 ])
    parsed (ok (v, n)) e = parse_varint_bytes raw v n h e
    parsed (err x) e = omega arith
    parsed panic e = omega arith
    parsed stuck e = omega arith

append_even-ok :
    (out : List ℕ) (o : SetupOption) (out' : List ℕ)
    → All IsByte o.raw
    → append_even out o ≡ ok out'
    → out' ≡ out ++ append_varint [] (even_value o.raw)
unfolding append_even
append_even-ok out o out' h e =
    ground (arith, append_varint-split out (even_value o.raw) (even_value-IsU64 o.raw h))

append_value-ok :
    (out : List ℕ) (o : SetupOption) (out' : List ℕ)
    → IsOption o
    → append_value out o ≡ ok out'
    → out' ≡ out ++ value_wire o
unfolding append_value
append_value-ok out o out' h e = elim (Bool-cases (o.kind % 2 == 1)) [
  | inl odd ↦
      let e' = rw odd at e in
      rw (odd, ← append_assoc out, ← append_varint-split out (length o.raw) h.1) (cc e')
  | inr even ↦ let e' = rw even at e in rw even (append_even-ok out o out' h.2 e')
]

pub encode_pairs-wire :
    (i prev : ℕ) (out : List ℕ) (os : List SetupOption) (bytes : List ℕ)
    → All IsOption os
    → encode_pairs i prev out os ≡ ok bytes
    → (bytes ≡ out ++ wire prev os) × Ascending prev os
unfolding encode_pairs
encode_pairs-wire i prev out [] bytes h e = (ground (arith, append-nil out), tt)
encode_pairs-wire i prev out (o ∷ os) bytes h e =
    let (u, e1, e2) =
      >>=-eq-ok (check_order i prev o.kind)
        (λ _. append_value (append_varint out ((o.kind + 2 ^ 64 - prev) % 2 ^ 64)) o >>= λ out'.
          encode_pairs (i + 1) o.kind out' os)
        e in
    let (out', e3, e4) =
      >>=-eq-ok (append_value (append_varint out ((o.kind + 2 ^ 64 - prev) % 2 ^ 64)) o)
        (λ out'. encode_pairs (i + 1) o.kind out' os) e2 in
    let le = check_order-ok i prev o.kind e1 in
    let (p, up) = encode_pairs-wire (i + 1) o.kind out' os bytes h.1 e4 in
    let q = append_value-ok (append_varint out ((o.kind + 2 ^ 64 - prev) % 2 ^ 64)) o out' h.0 e3 in
    let d : (o.kind + 2 ^ 64 - prev) % 2 ^ 64 ≡ o.kind - prev = omega arith in
    (
      rw (p, q, d, append_varint-split out (o.kind - prev) (omega arith)) (simp append_assoc),
      (le, up),
    )

-- What the decoder makes of a value as the encoder writes it.
decode_value-wire :
    (o : SetupOption) (rest : List ℕ)
    → IsOption o
    → decode_value o.kind (bytes_reader (value_wire o ++ rest))
      ≡ ok ((canonical o).raw, bytes_reader rest)
unfolding decode_value
decode_value-wire o rest h = elim (Bool-cases (o.kind % 2 == 1)) [
  | inl odd ↦ rw (
    odd,
    append_assoc,
    read_varint-append_varint (length o.raw) (o.raw ++ rest) eof h.1,
    le→not_ltb (length (o.raw ++ rest)) (length o.raw) (omega (arith, length-append o.raw rest)),
    read_full-append o.raw rest eof,
  )
  | inr even ↦
      rw (even, read_varint-append_varint (even_value o.raw) rest eof (even_value-IsU64 o.raw h.2))
]

decode_pair-wire :
    (prev : ℕ) (o : SetupOption) (rest : List ℕ)
    → IsOption o
    → prev ≤ o.kind
    → decode_pair prev (bytes_reader (append_varint [] (o.kind - prev) ++ (value_wire o ++ rest)))
      ≡ ok (record { kind = o.kind; raw = (canonical o).raw }, bytes_reader rest)
unfolding decode_pair
decode_pair-wire prev o rest h le =
    let t : (prev + (o.kind - prev)) % 2 ^ 64 ≡ o.kind = omega arith in
    rw (
      read_varint-append_varint (o.kind - prev) (value_wire o ++ rest) eof (omega arith),
      le→not_ltb (2 ^ 64 - 1 - prev) (o.kind - prev) (omega arith),
      t,
      decode_value-wire o rest h,
    )

wire_longer :
    (prev : ℕ) (o : SetupOption) (os : List SetupOption)
    → IsOption o
    → length (wire o.kind os) < length (wire prev (o ∷ os))
wire_longer prev o os h =
    let (_, len, lo, _, _) = append_varint_shape [] (o.kind - prev) (omega arith) in
    omega (
      arith,
      length-append (append_varint [] (o.kind - prev)) (value_wire o ++ wire o.kind os),
      length-append (value_wire o) (wire o.kind os),
    )

pairs_of : List SetupOption → List KvPair
pairs_of [] = []
pairs_of (o ∷ os) = record { kind = o.kind; raw = (canonical o).raw } ∷ pairs_of os

decode_pairs-wire :
    (fuel prev : ℕ) (out : List KvPair) (os : List SetupOption)
    → All IsOption os
    → Ascending prev os
    → length (wire prev os) ≤ fuel
    → decode_pairs fuel prev out (bytes_reader (wire prev os)) ≡ ok (out ++ pairs_of os)
unfolding decode_pairs pairs_of
decode_pairs-wire zero prev out [] h up f = rw append-nil
decode_pairs-wire (suc fuel) prev out [] h up f = rw append-nil
decode_pairs-wire zero prev out (o ∷ os) h up f = absurd (omega (arith, wire_longer prev o os h.0))
decode_pairs-wire (suc fuel) prev out (o ∷ os) h up f =
    let longer = wire_longer prev o os h.0 in
    let more : (length (wire prev (o ∷ os)) == 0) ≡ false = ground arith in
    rw (
      more,
      decode_pair-wire prev o (wire o.kind os) h.0 up.0,
      decode_pairs-wire fuel o.kind (out ++ record { kind = o.kind; raw = (canonical o).raw } ∷ [])
          os h.1 up.1 (omega arith),
      append_assoc,
    )

as_option-pairs_of : (os : List SetupOption) → map as_option (pairs_of os) ≡ map canonical os
unfolding pairs_of
as_option-pairs_of [] = refl
as_option-pairs_of (o ∷ os) = ap (λ t. canonical o ∷ t) (as_option-pairs_of os)

-- What `EncodeSetup` accepts, `DecodeSetup` reads back: the same options in the same order, the value
-- of each even option in its shortest form. The options are what Go's types allow: a type is a
-- uint64, a value is a slice of bytes.
pub decode_setup-encode_setup :
    (m : SetupMessage) (bytes : List ℕ)
    → All IsOption m.options
    → encode_setup m ≡ ok bytes
    → decode_setup bytes ≡ ok (record { options = map canonical m.options })
unfolding decode_setup encode_setup encode_key_value_pairs decode_key_value_pairs
decode_setup-encode_setup m bytes h e =
    let (shape, up) = encode_pairs-wire 0 0 [] m.options bytes h e in
    rw (shape, decode_pairs-wire (length (wire 0 m.options)) 0 [] m.options h up (omega arith))
      (ap (λ os. ok (record { options = os })) (as_option-pairs_of m.options))
