-- ===== src/Message/Layout.antt =====
-- The layout of SUBSCRIBE, independent of the encoder.
use moqsub.Common.{
  ℕ, zero, suc, ◌+◌, ◌≡◌, refl, List, [], ◌∷◌, ◌++◌, ◌==◌, if◌then◌else◌, length, append_assoc,
  IsU64, All,
}
use moqsub.Common.Result.{eof, Result, ok, ◌>>=◌}
use moqsub.Reader.{Reader, bytes_reader, read_full}
use moqsub.Reader.Laws.{read_full-append}
use moqsub.Varint.{append_varint, read_varint}
use moqsub.Varint.RoundTrip.{read_varint-append_varint}
use moqsub.KeyValue.{count_key_value_pairs}
use moqsub.Message.{SubscribeMessage}

-- The layout of SUBSCRIBE as its receiver reads it: a text is a length and its bytes, a namespace the
-- number of its fields and the fields.
unfoldable pub read_text : Reader → Result (List ℕ × Reader)
read_text r = do (n, r1) ← read_varint r; read_full n r1

unfoldable pub read_texts : ℕ → Reader → Result (List (List ℕ) × Reader)
read_texts zero r = ok ([], r)
read_texts (suc n) r = do (f, r1) ← read_text r; (fs, r2) ← read_texts n r1; ok (f ∷ fs, r2)

unfoldable pub read_subscribe : List ℕ → Result (SubscribeMessage × ℕ)
read_subscribe payload = do
  (id, r1) ← read_varint (bytes_reader payload)
  (n, r2) ← read_varint r1
  (ns, r3) ← read_texts n r2
  (name, r4) ← read_text r3
  (num_params, r5) ← read_varint r4
  ok (
    record { request_id = id; track_namespace = ns; track_name = name; parameters_raw = r5.bytes },
    num_params,
  )

-- What the types of Go say of the message.
abbrev pub IsSubscribe : SubscribeMessage → Type 0
IsSubscribe m = IsU64 m.request_id × IsU64 (length m.track_name) × IsU64 (length m.parameters_raw)

-- The number of parameters in the raw bytes.
abbrev pub num_parameters : List ℕ → Result ℕ
num_parameters raw = if length raw == 0 then ok 0 else count_key_value_pairs raw

unfoldable pub text_wire : List ℕ → List ℕ
text_wire f = append_varint [] (length f) ++ f

unfoldable pub texts_wire : List (List ℕ) → List ℕ
texts_wire [] = []
texts_wire (f ∷ fs) = text_wire f ++ texts_wire fs

abbrev pub total_length : List (List ℕ) → ℕ
total_length [] = 0
total_length (f ∷ fs) = length f + total_length fs

pub read_text-wire :
    (f rest : List ℕ)
    → IsU64 (length f)
    → read_text (bytes_reader (text_wire f ++ rest)) ≡ ok (f, bytes_reader rest)
unfolding read_text text_wire
read_text-wire f rest u =
    rw (append_assoc, read_varint-append_varint (length f) (f ++ rest) eof u)
      (read_full-append f rest eof)

pub read_texts-wire :
    (fs : List (List ℕ)) (rest : List ℕ)
    → All (λ f. IsU64 (length f)) fs
    → read_texts (length fs) (bytes_reader (texts_wire fs ++ rest)) ≡ ok (fs, bytes_reader rest)
unfolding read_texts texts_wire
read_texts-wire [] rest u = refl
read_texts-wire (f ∷ fs) rest u =
    rw (append_assoc, read_text-wire f (texts_wire fs ++ rest) u.0, read_texts-wire fs rest u.1)
