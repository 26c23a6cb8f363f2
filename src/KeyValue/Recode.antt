-- ===== src/KeyValue/Recode.antt =====
-- What comes of decoding any payload, and of encoding the result again.
use moqsub.Common.{
  ℕ, zero, suc, ◌%◌, ◌≤◌, ◌≡◌, ◌⊎◌, refl, sym, ap, ◌∙◌, List, [], ◌∷◌, ◌++◌, false, Bool-cases, inl,
  inr, ◌==◌, length, map, arith, All, IsByte, IsU64,
}
use moqsub.Common.Result.{ok, >>=-eq-ok}
use moqsub.Reader.{Reader, bytes_reader}
use moqsub.Varint.{append_varint, parse_varint}
use moqsub.Varint.Accepts.{read_varint_bytes, append_varint_shape}
use moqsub.Varint.RoundTrip.{parse_varint-append_varint}
use moqsub.KeyValue.{
  SetupOption, SetupMessage, KvPair, decode_pair, decode_pairs, decode_key_value_pairs, as_option,
  encode_setup, decode_setup,
}
use moqsub.KeyValue.Decodes.{decode_pair-eq_ok, decode_value_bytes}
use moqsub.KeyValue.Encodes.{IsIncreasing, HasValue, encode_setup_accepts}
use moqsub.KeyValue.RoundTrip.{IsOption, canonical, even_value, decode_setup-encode_setup}
use moqsub.Common.{append-nil, append_assoc}

-- The value of a pair that the decoder returned.
abbrev pub IsDecoded : KvPair → Type 0
IsDecoded p =
    IsU64 p.kind
    × All IsByte p.raw
    × ((p.kind % 2 ≡ 1) ⊎ ((v : ℕ) × IsU64 v × (p.raw ≡ append_varint [] v)))

-- The types do not fall, from `prev` on.
abbrev pub FromOn : ℕ → List KvPair → Type 0
FromOn prev [] = Unit {0}
FromOn prev (p ∷ ps) = (prev ≤ p.kind) × FromOn p.kind ps

decode_pairs_out :
    (fuel prev : ℕ) (out : List KvPair) (r : Reader) (ps : List KvPair)
    → IsU64 prev
    → All IsByte r.bytes
    → decode_pairs fuel prev out r ≡ ok ps
    → (qs : List KvPair) × (ps ≡ out ++ qs) × FromOn prev qs × All IsDecoded qs
unfolding decode_pairs
decode_pairs_out zero prev out r ps u h e = elim (Bool-cases (length r.bytes == 0)) [
  | inl z ↦ let e' = rw z at e in ([], rw append-nil (cc e'), tt, tt)
  | inr more ↦ let e' = rw more at e in cc
]
decode_pairs_out (suc fuel) prev out r ps u h e = elim (Bool-cases (length r.bytes == 0)) [
  | inl z ↦ let e' = rw z at e in ([], rw append-nil (cc e'), tt, tt)
  | inr more ↦
      let e' = rw more at e in
      let ((p, r1), e1, e2) = >>=-eq-ok (decode_pair prev r) _ e' in
      let (d, r0, e3, le, ek, e4) = decode_pair-eq_ok prev r p r1 e1 in
      let (_, h0) = read_varint_bytes r.bytes r.fin d r0 h e3 in
      let (h1, hr, shape) = decode_value_bytes p.kind r0 p.raw r1 h0 e4 in
      let uk : IsU64 p.kind = omega arith in
      let (qs, es, up, hs) = decode_pairs_out fuel p.kind (out ++ p ∷ []) r1 ps uk h1 e2 in
      (p ∷ qs, es ∙ append_assoc out (p ∷ []) qs, (omega arith, up), ((uk, hr, shape), hs))
]

-- The same of options, which are pairs by another name.
abbrev pub IsDecodedOption : SetupOption → Type 0
IsDecodedOption o =
    IsU64 o.kind
    × All IsByte o.raw
    × ((o.kind % 2 ≡ 1) ⊎ ((v : ℕ) × IsU64 v × (o.raw ≡ append_varint [] v)))

abbrev pub NotFalling : ℕ → List SetupOption → Type 0
NotFalling prev [] = Unit {0}
NotFalling prev (o ∷ os) = (prev ≤ o.kind) × NotFalling o.kind os

as_options :
    (prev : ℕ) (ps : List KvPair)
    → FromOn prev ps
    → All IsDecoded ps
    → NotFalling prev (map as_option ps) × All IsDecodedOption (map as_option ps)
as_options prev [] up h = (tt, tt)
as_options prev (p ∷ ps) up h =
    let (up', h') = as_options p.kind ps up.1 h.1 in ((up.0, up'), (h.0, h'))

-- Every option that `DecodeSetup` returns has a uint64 type, not below the type before it, and bytes
-- for its value; the value of an even type is a varint in its shortest form.
pub decode_setup_options :
    (payload : List ℕ) (m : SetupMessage)
    → All IsByte payload
    → decode_setup payload ≡ ok m
    → NotFalling 0 m.options × All IsDecodedOption m.options
unfolding decode_setup decode_key_value_pairs
decode_setup_options payload m h e =
    let (ps, e1, e2) = >>=-eq-ok (decode_pairs (length payload) 0 [] (bytes_reader payload)) _ e in
    let (qs, es, up, hs) =
      decode_pairs_out (length payload) 0 [] (bytes_reader payload) ps (omega arith) h e1 in
    let shape : m.options ≡ map as_option qs = cc in rw shape (as_options 0 qs up hs)

-- A varint in its shortest form is a value that the encoder accepts and leaves as it is.
parse_shortest :
    (v : ℕ) → IsU64 v → parse_varint (append_varint [] v) ≡ ok (v, length (append_varint [] v))
parse_shortest v u =
    let (_, len, _, _, _) = append_varint_shape [] v u in
    rw len (rw append-nil at (parse_varint-append_varint v [] u))

IsDecodedOption-HasValue : (o : SetupOption) → IsDecodedOption o → HasValue o
IsDecodedOption-HasValue o (_, _, inl odd) = inl odd
IsDecodedOption-HasValue o (_, _, inr (v, u, shape)) = inr (inr (v, rw shape (parse_shortest v u)))

shortest_value : (v : ℕ) → IsU64 v → even_value (append_varint [] v) ≡ v
shortest_value v u =
    let (_, len, lo, _, _) = append_varint_shape [] v u in
    let more : (length (append_varint [] v) == 0) ≡ false = ground arith in
    rw (more, parse_shortest v u)

canonical-IsDecodedOption : (o : SetupOption) → IsDecodedOption o → canonical o ≡ o
canonical-IsDecodedOption o (_, _, inl odd) = ground arith
canonical-IsDecodedOption o (_, _, inr (v, u, shape)) = elim (Bool-cases (o.kind % 2 == 1)) [
  | inl odd ↦ rw odd
  | inr even ↦ rw even (
      ap (λ (t : List ℕ). record o { raw = t })
        (ap (λ t. append_varint [] (even_value t)) shape
          ∙ ap (append_varint []) (shortest_value v u)
          ∙ sym shape))
]

decoded_options :
    (os : List SetupOption)
    → All IsDecodedOption os
    → All (λ o. IsU64 (length o.raw)) os
    → All HasValue os × All IsOption os × (map canonical os ≡ os)
decoded_options [] h hl = (tt, tt, refl)
decoded_options (o ∷ os) h hl =
    let (hv, ho, same) = decoded_options os h.1 hl.1 in
    let (u, hb, _) = h.0 in
    (
      (IsDecodedOption-HasValue o h.0, hv),
      ((u, hl.0, hb), ho),
      rw (canonical-IsDecodedOption o h.0, same),
    )

-- A decoded message whose types are strictly increasing is a message that `EncodeSetup` accepts, and
-- the encoding decodes to the same message. The payload is of bytes, and the lengths of the values
-- are uint64s.
pub decode_setup_again :
    (payload : List ℕ) (m : SetupMessage)
    → All IsByte payload
    → All (λ o. IsU64 (length o.raw)) m.options
    → decode_setup payload ≡ ok m
    → IsIncreasing m.options
    → (bytes : List ℕ) × (encode_setup m ≡ ok bytes) × (decode_setup bytes ≡ ok m)
decode_setup_again payload m h hl e up =
    let (_, ds) = decode_setup_options payload m h e in
    let (hv, ho, same) = decoded_options m.options ds hl in
    let (bytes, e') = (encode_setup_accepts m).1 (up, hv) in
    (
      bytes,
      e',
      decode_setup-encode_setup m bytes ho e' ∙ ap (λ os. ok (record { options = os })) same,
    )
