-- ===== src/Session/SetupOptions.antt =====
-- The options of `sendClientSetup` are such that `EncodeSetup` takes them, and in a frame.
use moqsub.Common.{
  ℕ, ◌≤◌, ◌≡◌, refl, sym, List, [], Bool-cases, inl, inr, arith, length, length-append, subst, All,
  IsByte, IsU64, bytes_eq, map,
}
use moqsub.Common.Result.{ok}
use moqsub.Varint.{append_varint}
use moqsub.Varint.Accepts.{append_varint_shape}
use moqsub.Frame.{max_frame_len}
use moqsub.KeyValue.{SetupOption, encode_setup, encode_key_value_pairs}
use moqsub.KeyValue.RoundTrip.{IsOption, canonical, wire, encode_pairs-wire}
use moqsub.KeyValue.Encodes.{IsIncreasing, HasValue}
use moqsub.Session.Setup.{root_path, implementation, setup_options}

-- What `EncodeSetup` is handed: types in increasing order, all of them odd, and bytes.
pub record Encodable (options : List SetupOption) : Type 0 where
  pub typed : All IsOption options
  pub increasing : IsIncreasing options
  pub valued : All HasValue options
  pub odd : map canonical options ≡ options
  pub short : length (wire 0 options) ≤ max_frame_len

implementation-IsByte : All IsByte implementation
implementation-IsByte = (
  omega arith,
  (
    omega arith,
    (
      omega arith,
      (
        omega arith,
        (
          omega arith,
          (
            omega arith,
            (
              omega arith,
              (
                omega arith,
                (
                  omega arith,
                  (
                    omega arith,
                    (omega arith, (omega arith, (omega arith, (omega arith, (omega arith, tt))))),
                  ),
                ),
              ),
            ),
          ),
        ),
      ),
    ),
  ),
)

length-append_varint : (v : ℕ) → IsU64 v → length (append_varint [] v) ≤ 9
length-append_varint v u = let (_, len, _, hi, _) = append_varint_shape [] v u in omega arith

pub payload_fits :
    (options : List SetupOption) (payload : List ℕ)
    → Encodable options
    → encode_setup (record { options = options }) ≡ ok payload
    → length payload ≤ max_frame_len
unfolding encode_setup encode_key_value_pairs
payload_fits options payload h e =
    subst (λ b. length b ≤ max_frame_len)
      (sym (encode_pairs-wire 0 0 [] options payload h.typed e).0) h.short

module _ (path authority : List ℕ) (path_bytes : All IsByte path)
    (authority_bytes : All IsByte authority) (path_short : length path ≤ 30000)
    (authority_short : length authority ≤ 30000) where
  pub setup_options-Encodable : Encodable (setup_options path authority)
  unfolding setup_options
  setup_options-Encodable = elim (Bool-cases (bytes_eq path root_path)) [
    | inl e ↦ rw e (record {
      typed = (
        (omega arith, omega arith, authority_bytes),
        ((omega arith, omega arith, implementation-IsByte), tt),
      );
      increasing = (omega arith, tt);
      valued = (inl refl, (inl refl, tt));
      odd = refl;
      short =
          rw
            (
              length-append, length-append, length-append, length-append, length-append,
              length-append,
            )
            (omega (
              arith,
              length-append_varint 5 (omega arith),
              length-append_varint (length authority) (omega arith),
              length-append_varint 2 (omega arith),
              length-append_varint 15 (omega arith),
            ));
    })
    | inr e ↦ rw e (record {
      typed = (
        (omega arith, omega arith, path_bytes),
        (
          (omega arith, omega arith, authority_bytes),
          ((omega arith, omega arith, implementation-IsByte), tt),
        ),
      );
      increasing = (omega arith, (omega arith, tt));
      valued = (inl refl, (inl refl, (inl refl, tt)));
      odd = refl;
      short =
          rw
            (
              length-append, length-append, length-append, length-append, length-append,
              length-append, length-append, length-append, length-append,
            )
            (omega (
              arith,
              length-append_varint 1 (omega arith),
              length-append_varint (length path) (omega arith),
              length-append_varint 4 (omega arith),
              length-append_varint (length authority) (omega arith),
              length-append_varint 2 (omega arith),
              length-append_varint 15 (omega arith),
            ));
    })
  ]
