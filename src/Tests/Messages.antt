-- ===== src/Tests/Messages.antt =====
-- SETUP, SUBSCRIBE and its replies at concrete inputs.
use moqsub.Common.{
  ℕ, ◌≡◌, ◌↔◌, refl, List, [], ◌∷◌, map, arith, length, take, drop, All, IsByte, ltb, leb,
  if◌then◌else◌,
}
use moqsub.Common.Result.{eof, message, wrapped, num, ok, err}
use moqsub.Reader.{short_read}
use moqsub.KeyValue.{
  SetupMessage, encode_setup, decode_setup, encode_key_value_pairs, encode_pairs, check_order,
  append_value, append_even, decode_key_value_pairs, decode_pairs, decode_pair, decode_value,
}
use moqsub.KeyValue.RoundTrip.{IsOption, canonical, decode_setup-encode_setup}
use moqsub.KeyValue.Encodes.{IsIncreasing, HasValue, encode_setup_accepts}
use moqsub.KeyValue.Recode.{decode_setup_options, NotFalling, IsDecodedOption}
use moqsub.Message.{
  SubscribeMessage, encode_subscribe, decode_request_error, encode_track_namespace, encode_fields,
  append_parameters,
}
use moqsub.Message.Layout.{num_parameters, read_subscribe, IsSubscribe}
use moqsub.Message.Subscribe.{
  IsNamespace, encode_subscribe_accepts, read_subscribe-encode_subscribe,
}
use moqsub.Namespace.{split_namespace, trim_left, trim_right, split, to_first, without_empty}
use moqsub.Message.Replies.{request_error_body, decode_request_error-body}
use moqsub.Varint.{
  append_varint, append_sized, parse_varint, read_varint, varint_size, extra_bytes,
  decode_varint_bytes,
}

-- A path and an even option.
abbrev setup : SetupMessage
setup = record {
  options = record { kind = 1; raw = 47 ∷ 97 ∷ [] } ∷ record { kind = 4; raw = 9 ∷ [] } ∷ [];
}

setup-IsOption : All IsOption setup.options
setup-IsOption = (
  (omega arith, omega arith, (omega arith, (omega arith, tt))),
  ((omega arith, omega arith, (omega arith, tt)), tt),
)

abbrev setup_bytes : List ℕ
setup_bytes = 1 ∷ 2 ∷ 47 ∷ 97 ∷ 3 ∷ 9 ∷ []

setup_encodes : encode_setup setup ≡ ok setup_bytes
unfolding encode_setup encode_key_value_pairs encode_pairs check_order append_value append_even
    append_varint parse_varint extra_bytes append_sized varint_size decode_varint_bytes
setup_encodes = refl

setup_decodes : decode_setup setup_bytes ≡ ok setup
unfolding decode_setup decode_key_value_pairs decode_pairs decode_pair decode_value append_varint
    read_varint extra_bytes append_sized varint_size
setup_decodes = refl

setup_bytes-IsByte : All IsByte setup_bytes
setup_bytes-IsByte =
    (omega arith, (omega arith, (omega arith, (omega arith, (omega arith, (omega arith, tt))))))

decode_setup-encode_setup_example :
    decode_setup setup_bytes ≡ ok (record { options = map canonical setup.options })
decode_setup-encode_setup_example =
    decode_setup-encode_setup setup setup_bytes setup-IsOption setup_encodes

encode_setup_accepts_example :
    ((bytes : List ℕ) × (encode_setup setup ≡ ok bytes))
    ↔ (IsIncreasing setup.options × All HasValue setup.options)
encode_setup_accepts_example = encode_setup_accepts setup

decode_setup_options_example : NotFalling 0 setup.options × All IsDecodedOption setup.options
decode_setup_options_example =
    decode_setup_options setup_bytes setup setup_bytes-IsByte setup_decodes

abbrev subscribe_catalog : SubscribeMessage
subscribe_catalog = record {
  request_id = 2;
  track_namespace = (97 ∷ []) ∷ (98 ∷ 99 ∷ []) ∷ [];
  track_name = 46 ∷ 99 ∷ [];
  parameters_raw = [];
}

subscribe_catalog_encodes :
    encode_subscribe subscribe_catalog ≡ ok (2 ∷ 2 ∷ 1 ∷ 97 ∷ 2 ∷ 98 ∷ 99 ∷ 2 ∷ 46 ∷ 99 ∷ 0 ∷ [])
unfolding encode_subscribe encode_track_namespace encode_fields append_parameters append_varint
    append_sized varint_size
subscribe_catalog_encodes = refl

subscribe_catalog-IsSubscribe : IsSubscribe subscribe_catalog
subscribe_catalog-IsSubscribe = (omega arith, omega arith, omega arith)

encode_subscribe_accepts_example :
    ((bytes : List ℕ) × (encode_subscribe subscribe_catalog ≡ ok bytes)) ↔ (
      IsNamespace subscribe_catalog.track_namespace
      × ((n : ℕ) × (num_parameters subscribe_catalog.parameters_raw ≡ ok n)))
encode_subscribe_accepts_example =
    encode_subscribe_accepts subscribe_catalog subscribe_catalog-IsSubscribe

read_subscribe-encode_subscribe_example :
    (n : ℕ) × (num_parameters subscribe_catalog.parameters_raw ≡ ok n)
    × (read_subscribe (2 ∷ 2 ∷ 1 ∷ 97 ∷ 2 ∷ 98 ∷ 99 ∷ 2 ∷ 46 ∷ 99 ∷ 0 ∷ [])
        ≡ ok (subscribe_catalog, n))
read_subscribe-encode_subscribe_example =
    read_subscribe-encode_subscribe subscribe_catalog _ subscribe_catalog-IsSubscribe
      subscribe_catalog_encodes

decode_request_error-body_example :
    decode_request_error (request_error_body 16 0 2 (110 ∷ 111 ∷ 7 ∷ [])) ≡ (
      if ltb 1024 2
      then err (message "reason phrase too long: %d" (num 2 ∷ []))
      else if leb 2 (length {A = ℕ} (110 ∷ 111 ∷ 7 ∷ []))
      then ok (record {
        code = 16;
        retry_interval = 0;
        reason = take 2 (110 ∷ 111 ∷ 7 ∷ []);
        redirect = drop 2 (110 ∷ 111 ∷ 7 ∷ []);
      })
      else err (wrapped "reason bytes: %w" [] (short_read (110 ∷ 111 ∷ 7 ∷ []) eof)))
decode_request_error-body_example =
    decode_request_error-body 16 0 2 (110 ∷ 111 ∷ 7 ∷ []) (omega arith) (omega arith) (omega arith)

-- "/a//b/"
two_fields : split_namespace (47 ∷ 97 ∷ 47 ∷ 47 ∷ 98 ∷ 47 ∷ []) ≡ (97 ∷ []) ∷ (98 ∷ []) ∷ []
unfolding split_namespace trim_left trim_right split to_first without_empty
two_fields = refl
