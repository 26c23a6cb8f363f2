-- ===== src/Message.antt =====
-- internal/moqt/draft18/codec.go, the bodies of the request messages: SUBSCRIBE as it is written, and
-- SUBSCRIBE_OK and REQUEST_ERROR as they are read. A Go string is the list of its bytes.
pub mod Layout
pub mod Subscribe
pub mod Replies
use moqsub.Common.{ℕ, ◌+◌, List, [], ◌∷◌, ◌++◌, ltb, ◌==◌, if◌then◌else◌, length}
use moqsub.Common.Result.{num, message, Result, ok, err, wrap, ◌>>=◌, ◌>>◌}
use moqsub.Reader.{make_bytes, bytes_reader, read_full, read_all}
use moqsub.Varint.{append_varint, read_varint}
use moqsub.KeyValue.{count_key_value_pairs}

pub record SubscribeMessage : Type 0 where
  pub request_id : ℕ
  pub track_namespace : List (List ℕ)
  pub track_name : List ℕ
  pub parameters_raw : List ℕ

pub record SubscribeOkMessage : Type 0 where
  pub track_alias : ℕ
  pub num_params : ℕ
  pub track_properties : List ℕ

pub record RequestErrorMessage : Type 0 where
  pub code : ℕ
  pub retry_interval : ℕ
  pub reason : List ℕ
  pub redirect : List ℕ

-- `EncodeTrackNamespaceFromStrings` behind the fields in `ns`.
unfoldable pub namespace_from_strings : List (List ℕ) → List (List ℕ) → Result (List (List ℕ))
namespace_from_strings ns [] = ok ns
namespace_from_strings ns (f ∷ fields) =
    if length f == 0
    then err (message "track namespace field cannot be empty" [])
    else namespace_from_strings (ns ++ f ∷ []) fields

unfoldable pub encode_track_namespace_from_strings : List (List ℕ) → Result (List (List ℕ))
encode_track_namespace_from_strings fields = namespace_from_strings [] fields

-- The loop of `encodeTrackNamespace`, with `b` written and the lengths of the fields summed up, and
-- the test behind it.
unfoldable pub encode_fields : List ℕ → ℕ → List (List ℕ) → Result (List ℕ)
encode_fields b full_len [] =
    if ltb 4096 full_len
    then err (message "namespace length too large: %d" (num full_len ∷ []))
    else ok b
encode_fields b full_len (f ∷ fields) =
    if length f == 0
    then err (message "namespace field must not be empty" [])
    else encode_fields (append_varint b (length f) ++ f) (full_len + length f) fields

unfoldable pub encode_track_namespace : List (List ℕ) → Result (List ℕ)
encode_track_namespace fields =
    if ltb 32 (length fields)
    then err (message "too many namespace fields: %d" (num (length fields) ∷ []))
    else encode_fields (append_varint [] (length fields)) 0 fields

-- The parameters of SUBSCRIBE: their number, and the bytes as they are.
unfoldable pub append_parameters : List ℕ → List ℕ → Result (List ℕ)
append_parameters payload raw = if length raw == 0 then ok (append_varint payload 0) else do
  n ← wrap "invalid parameters payload: %w" [] (count_key_value_pairs raw)
  ok (append_varint payload n ++ raw)

unfoldable pub encode_subscribe : SubscribeMessage → Result (List ℕ)
encode_subscribe msg = do
  ns ← encode_track_namespace msg.track_namespace
  let payload = append_varint [] msg.request_id ++ ns
  append_parameters (append_varint payload (length msg.track_name) ++ msg.track_name)
      msg.parameters_raw

unfoldable pub decode_subscribe_ok : List ℕ → Result SubscribeOkMessage
decode_subscribe_ok payload = do
  (alias, r1) ← wrap "track alias: %w" [] (read_varint (bytes_reader payload))
  (num_params, r2) ← wrap "number of parameters: %w" [] (read_varint r1)
  rest ← read_all r2
  ok (record { track_alias = alias; num_params = num_params; track_properties = rest })

unfoldable pub decode_request_error : List ℕ → Result RequestErrorMessage
decode_request_error payload = do
  (code, r1) ← wrap "error code: %w" [] (read_varint (bytes_reader payload))
  (retry, r2) ← wrap "retry interval: %w" [] (read_varint r1)
  (reason_len, r3) ← wrap "reason length: %w" [] (read_varint r2)
  if ltb 1024 reason_len
      then err (message "reason phrase too long: %d" (num reason_len ∷ []))
      else do
        make_bytes reason_len
        (reason, r4) ← wrap "reason bytes: %w" [] (read_full reason_len r3)
        rest ← read_all r4
        ok (record { code = code; retry_interval = retry; reason = reason; redirect = rest })
