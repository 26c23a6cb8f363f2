-- ===== src/Message/Subscribe.antt =====
-- `EncodeSubscribe` against the layout of SUBSCRIBE.
use moqsub.Common.{
  ℕ, suc, ◌+◌, ◌≤◌, ◌<◌, ◌≡◌, ◌↔◌, refl, ap, subst, List, [], ◌∷◌, ◌++◌, false, Bool-cases, inl,
  inr, ltb, ◌==◌, length, arith, append_assoc, IsU64, All,
}
use moqsub.Common.Result.{eof, ok, wrap, wrap-eq-ok, >>=-eq-ok}
use moqsub.Varint.{append_varint}
use moqsub.Varint.RoundTrip.{read_varint-append_varint}
use moqsub.Varint.Accepts.{append_varint_shape}
use moqsub.KeyValue.{count_key_value_pairs}
use moqsub.KeyValue.Decodes.{count_key_value_pairs-le}
use moqsub.Message.{
  SubscribeMessage, encode_fields, encode_track_namespace, append_parameters, encode_subscribe,
}
use moqsub.Message.Layout.{
  texts_wire, text_wire, total_length, read_subscribe, read_text-wire, read_texts-wire,
  num_parameters, IsSubscribe,
}
use moqsub.Common.{append-nil, le→not_ltb}

-- What the encoder asks of a namespace: at most 32 fields, none empty, 4096 bytes in all.
abbrev pub IsNamespace : List (List ℕ) → Type 0
IsNamespace fs = (length fs ≤ 32) × All (λ f. 0 < length f) fs × (total_length fs ≤ 4096)

encode_fields-wire :
    (b : List ℕ) (full : ℕ) (fs : List (List ℕ))
    → All (λ f. 0 < length f) fs
    → full + total_length fs ≤ 4096
    → encode_fields b full fs ≡ ok (b ++ texts_wire fs)
unfolding encode_fields texts_wire text_wire
encode_fields-wire b full [] ne le = rw append-nil (ground arith)
encode_fields-wire b full (f ∷ fs) ne le =
    let some : (length f == 0) ≡ false = ground arith in
    rw
      (
        some,
        encode_fields-wire (append_varint b (length f) ++ f) (full + length f) fs ne.1
            (omega arith),
        (append_varint_shape b (length f) (omega arith)).0,
      )
      (simp append_assoc)

encode_fields-ok :
    (b : List ℕ) (full : ℕ) (fs : List (List ℕ)) (out : List ℕ)
    → encode_fields b full fs ≡ ok out
    → All (λ f. 0 < length f) fs × (full + total_length fs ≤ 4096)
unfolding encode_fields
encode_fields-ok b full [] out e = (tt, ground arith)
encode_fields-ok b full (f ∷ fs) out e = elim (Bool-cases (length f == 0)) [
  | inl none_left ↦ let e' = rw none_left at e in cc
  | inr some ↦
      let e' = rw some at e in
      let (ne, le) =
        encode_fields-ok (append_varint b (length f) ++ f) (full + length f) fs out e' in
      ((ground arith, ne), omega arith)
]

encode_track_namespace-wire :
    (fs : List (List ℕ))
    → IsNamespace fs
    → encode_track_namespace fs ≡ ok (append_varint [] (length fs) ++ texts_wire fs)
unfolding encode_track_namespace
encode_track_namespace-wire fs (few, ne, le) =
    rw (le→not_ltb 32 (length fs) few)
      (encode_fields-wire (append_varint [] (length fs)) 0 fs ne (omega arith))

encode_track_namespace-ok :
    (fs : List (List ℕ)) (out : List ℕ) → encode_track_namespace fs ≡ ok out → IsNamespace fs
unfolding encode_track_namespace
encode_track_namespace-ok fs out e = elim (Bool-cases (ltb 32 (length fs))) [
  | inl many ↦ let e' = rw many at e in cc
  | inr few ↦
      let e' = rw few at e in
      let (ne, le) = encode_fields-ok (append_varint [] (length fs)) 0 fs out e' in
      (ground arith, ne, omega arith)
]

append_parameters-wire :
    (payload raw : List ℕ) (n : ℕ)
    → IsU64 n
    → num_parameters raw ≡ ok n
    → append_parameters payload raw ≡ ok (payload ++ (append_varint [] n ++ raw))
unfolding append_parameters
append_parameters-wire payload [] n u e =
    let zero_params : 0 ≡ n = cc in
    rw (← zero_params, append-nil) (ap ok (append_varint_shape payload 0 (omega arith)).0)
append_parameters-wire payload (b ∷ raw) n u e =
    let more : (suc (length raw) == 0) ≡ false = ground arith in
    let counted : count_key_value_pairs (b ∷ raw) ≡ ok n = rw more at e in
    rw (more, counted, (append_varint_shape payload n u).0, append_assoc)

append_parameters-ok :
    (payload raw out : List ℕ)
    → append_parameters payload raw ≡ ok out
    → (n : ℕ) × (num_parameters raw ≡ ok n)
unfolding append_parameters
append_parameters-ok payload [] out e = (0, refl)
append_parameters-ok payload (b ∷ raw) out e =
    let more : (suc (length raw) == 0) ≡ false = ground arith in
    let e' = rw more at e in
    let (n, e1, _) =
      >>=-eq-ok (wrap "invalid parameters payload: %w" [] (count_key_value_pairs (b ∷ raw))) _ e' in
    (n, rw more (wrap-eq-ok _ _ _ e1))

num_parameters-le : (raw : List ℕ) (n : ℕ) → num_parameters raw ≡ ok n → n ≤ length raw
num_parameters-le [] n e = let zero_params : 0 ≡ n = cc in omega arith
num_parameters-le (b ∷ raw) n e =
    let more : (suc (length raw) == 0) ≡ false = ground arith in
    count_key_value_pairs-le (b ∷ raw) n (rw more at e)

pub fields-IsU64 : (fs : List (List ℕ)) → total_length fs ≤ 4096 → All (λ f. IsU64 (length f)) fs
fields-IsU64 [] le = tt
fields-IsU64 (f ∷ fs) le = (omega arith, fields-IsU64 fs (omega arith))

-- What the encoder writes, for a message that it accepts.
unfoldable pub subscribe_wire : SubscribeMessage → ℕ → List ℕ
subscribe_wire m n =
    append_varint [] m.request_id
    ++ (append_varint [] (length m.track_namespace)
        ++ (texts_wire m.track_namespace
            ++ (text_wire m.track_name ++ (append_varint [] n ++ m.parameters_raw))))

accepted :
    (m : SubscribeMessage) (bytes : List ℕ)
    → encode_subscribe m ≡ ok bytes
    → IsNamespace m.track_namespace × ((n : ℕ) × (num_parameters m.parameters_raw ≡ ok n))
unfolding encode_subscribe
accepted m bytes e =
    let (out, e1, e2) = >>=-eq-ok (encode_track_namespace m.track_namespace) _ e in
    (
      encode_track_namespace-ok m.track_namespace out e1,
      append_parameters-ok _ m.parameters_raw bytes e2,
    )

module _ (m : SubscribeMessage) (n : ℕ) (h : IsSubscribe m) (ns : IsNamespace m.track_namespace)
    (counted : num_parameters m.parameters_raw ≡ ok n) where
  small : IsU64 n
  small = omega (arith, num_parameters-le m.parameters_raw n counted, h.2)

  pub encode_subscribe-wire : encode_subscribe m ≡ ok (subscribe_wire m n)
  unfolding encode_subscribe subscribe_wire text_wire
  encode_subscribe-wire =
      rw
        (
          encode_track_namespace-wire m.track_namespace ns,
          append_parameters-wire
              (append_varint
                  (append_varint [] m.request_id
                    ++ (append_varint [] (length m.track_namespace)
                        ++ texts_wire m.track_namespace))
                  (length m.track_name)
                ++ m.track_name)
              m.parameters_raw n small counted,
          (append_varint_shape
              (append_varint [] m.request_id
                ++ (append_varint [] (length m.track_namespace) ++ texts_wire m.track_namespace))
              (length m.track_name) h.1).0,
        )
        (simp append_assoc)

  pub read_subscribe-wire : read_subscribe (subscribe_wire m n) ≡ ok (m, n)
  unfolding read_subscribe subscribe_wire
  read_subscribe-wire = rw (
    read_varint-append_varint m.request_id _ eof h.0,
    read_varint-append_varint (length m.track_namespace) _ eof (omega (arith, ns.0)),
    read_texts-wire m.track_namespace _ (fields-IsU64 m.track_namespace ns.2),
    read_text-wire m.track_name _ h.1,
    read_varint-append_varint n m.parameters_raw eof small,
  )

-- `EncodeSubscribe`, on a request ID and lengths of the name and the parameters that are uint64s,
-- succeeds exactly on a namespace of at most 32 fields, none empty, with at most 4096 bytes in
-- all, and parameters that are empty or decode as key-value pairs.
pub encode_subscribe_accepts :
    (m : SubscribeMessage)
    → IsSubscribe m
    → ((bytes : List ℕ) × (encode_subscribe m ≡ ok bytes))
      ↔ (IsNamespace m.track_namespace × ((n : ℕ) × (num_parameters m.parameters_raw ≡ ok n)))
encode_subscribe_accepts m h = (
  λ (bytes, e). accepted m bytes e,
  λ (ns, (n, counted)). (subscribe_wire m n, encode_subscribe-wire m n h ns counted),
)

-- A receiver that reads the layout of SUBSCRIBE gets back the message that `EncodeSubscribe` encoded,
-- and the number of its parameters.
pub read_subscribe-encode_subscribe :
    (m : SubscribeMessage) (bytes : List ℕ)
    → IsSubscribe m
    → encode_subscribe m ≡ ok bytes
    → (n : ℕ) × (num_parameters m.parameters_raw ≡ ok n) × (read_subscribe bytes ≡ ok (m, n))
read_subscribe-encode_subscribe m bytes h e =
    let (ns, (n, counted)) = accepted m bytes e in
    let same : subscribe_wire m n ≡ bytes = cc (encode_subscribe-wire m n h ns counted) in
    (
      n,
      counted,
      subst (λ b. read_subscribe b ≡ ok (m, n)) same (read_subscribe-wire m n h ns counted),
    )
