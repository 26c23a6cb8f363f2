-- ===== src/KeyValue.antt =====
-- internal/moqt/draft18/codec.go, the key-value pairs of SETUP options and of message parameters:
-- types in ascending order, each written as its distance from the one before; an odd type has a
-- length and bytes, an even type a varint. And the SETUP message, which is such a list.
pub mod RoundTrip
pub mod Encodes
pub mod Decodes
pub mod Recode
use moqsub.Common.{
  ℕ, zero, suc, ◌+◌, ◌-◌, ◌%◌, ◌^◌, List, [], ◌∷◌, ◌++◌, Bool, not, ◌||◌, ltb, leb, ◌==◌,
  if◌then◌else◌, length, map,
}
use moqsub.Common.Result.{num, message, Result, ok, err, panic, stuck, wrap, ◌>>=◌, ◌>>◌}
use moqsub.Reader.{Reader, bytes_reader, read_full}
use moqsub.Varint.{append_varint, parse_varint, read_varint}

-- types.go; `kind` is the field `Type`.
pub record SetupOption : Type 0 where
  pub kind : ℕ
  pub raw : List ℕ

pub record SetupMessage : Type 0 where
  pub options : List SetupOption

pub record KvPair : Type 0 where
  pub kind : ℕ
  pub raw : List ℕ

-- The test of the loop of `encodeKeyValuePairs` at index i.
unfoldable pub check_order : ℕ → ℕ → ℕ → Result (Unit {0})
check_order i prev kind =
    if i == 0
    then (if ltb kind prev then err (message "option type ordering invalid" []) else ok tt)
    else (if leb kind prev
        then err (message "option types must be strictly increasing" [])
        else ok tt)

-- The value of an even option: `raw` has to be one varint, or empty, which stands for 0.
unfoldable pub append_even : List ℕ → SetupOption → Result (List ℕ)
append_even out opt =
    if length opt.raw == 0 then ok (append_varint out 0) else elim (parse_varint opt.raw) [
      | ok (val, n) ↦
          if leb n 0 || not (n == length opt.raw)
          then err (message "even option %d must be a varint" (num opt.kind ∷ []))
          else ok (append_varint out val)
      | err e ↦ err (message "even option %d must be a varint" (num opt.kind ∷ []))
      | panic ↦ panic
      | stuck ↦ stuck
    ]

unfoldable pub append_value : List ℕ → SetupOption → Result (List ℕ)
append_value out opt =
    if opt.kind % 2 == 1
    then ok (append_varint out (length opt.raw) ++ opt.raw)
    else append_even out opt

-- The loop of `encodeKeyValuePairs`, at index i behind the type `prev`, with `out` written.
unfoldable pub encode_pairs : ℕ → ℕ → List ℕ → List SetupOption → Result (List ℕ)
encode_pairs i prev out [] = ok out
encode_pairs i prev out (opt ∷ rest) = do
  check_order i prev opt.kind
  out' ← append_value (append_varint out ((opt.kind + 2 ^ 64 - prev) % 2 ^ 64)) opt
  encode_pairs (i + 1) opt.kind out' rest

unfoldable pub encode_key_value_pairs : List SetupOption → Result (List ℕ)
encode_key_value_pairs options = encode_pairs 0 0 [] options

-- The value behind the type t, in the form of `KvPair.raw`.
unfoldable pub decode_value : ℕ → Reader → Result (List ℕ × Reader)
decode_value t r =
    if t % 2 == 1
    then (do
      (l, r1) ← wrap "length for type %d: %w" (num t ∷ []) (read_varint r)
      if ltb (length r1.bytes) l
          then err (message "length exceeds payload for type %d" (num t ∷ []))
          else wrap "value for type %d: %w" (num t ∷ []) (read_full l r1))
    else (do
      (val, r1) ← wrap "varint value for type %d: %w" (num t ∷ []) (read_varint r)
      ok (append_varint [] val, r1))

-- One round of the loop of `decodeKeyValuePairs`: the pair and the reader behind it.
unfoldable pub decode_pair : ℕ → Reader → Result (KvPair × Reader)
decode_pair prev_type r = do
  (delta, r1) ← wrap "delta type: %w" [] (read_varint r)
  if ltb (2 ^ 64 - 1 - prev_type) delta then err (message "delta overflows type" []) else do
    let t = (prev_type + delta) % 2 ^ 64
    (raw, r2) ← decode_value t r1
    ok (record { kind = t; raw = raw }, r2)

-- The loop, with `out` decoded. Each round takes two bytes at least.
unfoldable pub decode_pairs : ℕ → ℕ → List KvPair → Reader → Result (List KvPair)
decode_pairs zero prev_type out r = if length r.bytes == 0 then ok out else stuck
decode_pairs (suc fuel) prev_type out r =
    if length r.bytes == 0
    then ok out
    else do (p, r1) ← decode_pair prev_type r; decode_pairs fuel p.kind (out ++ p ∷ []) r1

unfoldable pub decode_key_value_pairs : List ℕ → Result (List KvPair)
decode_key_value_pairs payload = decode_pairs (length payload) 0 [] (bytes_reader payload)

unfoldable pub count_key_value_pairs : List ℕ → Result ℕ
count_key_value_pairs payload = do pairs ← decode_key_value_pairs payload; ok (length pairs)

abbrev pub as_option : KvPair → SetupOption
as_option p = record { kind = p.kind; raw = p.raw }

unfoldable pub encode_setup : SetupMessage → Result (List ℕ)
encode_setup msg = encode_key_value_pairs msg.options

unfoldable pub decode_setup : List ℕ → Result SetupMessage
decode_setup payload = do
  pairs ← decode_key_value_pairs payload
  ok (record { options = map as_option pairs })
