-- ===== src/Session/SetupSent.antt =====
-- What the relay gets of `sendClientSetup`.
use moqsub.Common.{
  ℕ, ◌≤◌, ◌<◌, ◌≡◌, ◌≢◌, ◌⊎◌, ◌∷◌, ◌++◌, ◌==◌, false, not, if◌then◌else◌, if-eq_true, if-eq_false,
  bytes_eq→eq, bytes_eq→neq, refl, ap, ◌∙◌, sym, List, [], Bool-cases, inl, inr, none, some, arith,
  length, append-nil, subst, All, IsByte, bytes_eq,
}
use moqsub.Common.Result.{Error, ok}
use moqsub.Frame.{max_frame_len, read_frame}
use moqsub.Frame.RoundTrip.{frame, write_frame-frame, read_frame-frame}
use moqsub.KeyValue.{SetupOption, SetupMessage, decode_setup}
use moqsub.KeyValue.RoundTrip.{decode_setup-encode_setup}
use moqsub.KeyValue.Encodes.{encode_setup_accepts}
use moqsub.Runner.{Runner, rich_add}
use moqsub.Runner.Control.{msg_setup}
use moqsub.Session.{Url, Streams}
use moqsub.Session.Setup.{
  root_path, implementation, client_path, setup_options, write_client_setup, after_setup,
  send_client_setup,
}
use moqsub.Session.SetupOptions.{payload_fits, setup_options-Encodable}

-- The path that a request for a URL has: "/" for an empty one, and a query that is not empty behind a '?'.
abbrev pub IsRequestPath : Url → List ℕ → Type 0
IsRequestPath url path =
    (base : List ℕ) × (((url.escaped_path ≡ []) × (base ≡ root_path))
      ⊎ ((0 < length url.escaped_path) × (base ≡ url.escaped_path)))
    × (((url.raw_query ≡ []) × (path ≡ base))
        ⊎ ((0 < length url.raw_query) × (path ≡ base ++ 63 ∷ url.raw_query)))

-- The options of a client: AUTHORITY (5) and IMPLEMENTATION (7), and in front of them PATH (1) unless
-- the path is "/".
abbrev pub IsMeant : (path authority : List ℕ) → List SetupOption → Type 0
IsMeant path authority options =
    ((path ≡ root_path)
      × (options
          ≡ record { kind = 5; raw = authority } ∷ record { kind = 7; raw = implementation } ∷ []))
    ⊎ ((path ≢ root_path)
        × (options
            ≡ record { kind = 1; raw = path }
              ∷ record { kind = 5; raw = authority }
              ∷ record { kind = 7; raw = implementation }
              ∷ []))

not_zero : (n : ℕ) → 0 < n → (n == 0) ≡ false
not_zero n h = ground arith

client_path_base :
    (url : Url) (base : List ℕ)
    → ((url.escaped_path ≡ []) × (base ≡ root_path))
      ⊎ ((0 < length url.escaped_path) × (base ≡ url.escaped_path))
    → (if length url.escaped_path == 0 then root_path else url.escaped_path) ≡ base
client_path_base url base (inl (e, b)) = rw e (sym b)
client_path_base url base (inr (lt, b)) =
    if-eq_false _ _ _ (not_zero (length url.escaped_path) lt) ∙ sym b

client_path-eq : (url : Url) (path : List ℕ) → IsRequestPath url path → client_path url ≡ path
unfolding client_path
client_path-eq url path (base, b, inl (e, p)) = rw e (client_path_base url base b ∙ sym p)
client_path-eq url path (base, b, inr (lt, p)) =
    if-eq_true _ _ _ (ap not (not_zero (length url.raw_query) lt))
    ∙ ap (λ x. x ++ 63 ∷ url.raw_query) (client_path_base url base b)
    ∙ sym p

setup_options-IsMeant :
    (path authority : List ℕ) → IsMeant path authority (setup_options path authority)
unfolding setup_options
setup_options-IsMeant path authority = elim (Bool-cases (bytes_eq path root_path)) [
  | inl e ↦ inl (bytes_eq→eq path root_path e, rw e refl)
  | inr e ↦ inr (bytes_eq→neq path root_path e, rw e refl)
]

-- On a fresh control stream, for a URL whose path with its query, "/" for an empty path and the query
-- behind a '?', and whose authority are of at most 30000 bytes each, `sendClientSetup` returns without an
-- error, and the relay reads from the control stream one frame of type SETUP and nothing behind it. Its
-- body decodes to AUTHORITY and IMPLEMENTATION, with PATH, the path with its query, in front of them
-- unless that is "/".
pub send_client_setup-read :
    {W : Type 0} (net : Streams) (url : Url) (path : List ℕ) (r : Runner W) (fin : Error)
    → net.open_control ≡ ok (record { written = []; fault = none })
    → IsRequestPath url path
    → All IsByte path
    → All IsByte url.host
    → length path ≤ 30000
    → length url.host ≤ 30000
    → (bytes : List ℕ) × (payload : List ℕ) × (options : List SetupOption) × ((send_client_setup net
          url r).1
        ≡ ok tt)
      × ((send_client_setup net url r).0.control_sent ≡ some bytes)
      × (read_frame (record { bytes = bytes; fin = fin })
          ≡ ok (msg_setup, payload, record { bytes = []; fin = fin }))
      × (decode_setup payload ≡ ok (record { options = options }))
      × IsMeant path url.host options
unfolding send_client_setup after_setup write_client_setup rich_add
send_client_setup-read net url path r fin fresh request path_bytes host_bytes path_short
      host_short =
    let same = client_path-eq url path request in
    let h = setup_options-Encodable path url.host path_bytes host_bytes path_short host_short in
    let message : SetupMessage = record { options = setup_options path url.host } in
    let (payload, e) = (encode_setup_accepts message).1 (h.increasing, h.valued) in
    let fits : length payload ≤ max_frame_len = payload_fits message.options payload h e in
    let wrote =
      write_frame-frame (record { written = []; fault = none }) msg_setup payload refl fits in
    (
      frame msg_setup payload,
      payload,
      setup_options path url.host,
      rw (send_client_setup, fresh, same, e, wrote) refl,
      rw (send_client_setup, fresh, same, e, wrote) refl,
      subst
          (λ b.
            read_frame (record { bytes = b; fin = fin })
            ≡ ok (msg_setup, payload, record { bytes = []; fin = fin }))
          (append-nil (frame msg_setup payload))
          (read_frame-frame payload [] fin fits msg_setup (omega arith)),
      decode_setup-encode_setup message payload h.typed e
          ∙ ap (λ os. ok (record { options = os })) h.odd,
      setup_options-IsMeant path url.host,
    )
