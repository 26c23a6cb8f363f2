-- ===== src/Client.antt =====
-- internal/quicclient/client.go: the connection to the relay. The parser of URLs, `net.JoinHostPort` and
-- the QUIC handshake are the parameter `Network`.
pub mod Laws
use moqsub.Common.{
  ℕ, List, [], ◌∷◌, Bool, not, Option, none, some, ◌==◌, ltb, if◌then◌else◌, length, bytes_eq,
}
use moqsub.Common.Result.{Error, message, text, Result, ok, err, wrap, ◌>>=◌}
use moqsub.Session.{Url}
use moqsub.Media.{choose}

-- "moqt-18"
abbrev pub draft18_alpn : List ℕ
draft18_alpn = 109 ∷ 111 ∷ 113 ∷ 116 ∷ 45 ∷ 49 ∷ 56 ∷ []

-- "moqt"
abbrev pub scheme_moqt : List ℕ
scheme_moqt = 109 ∷ 111 ∷ 113 ∷ 116 ∷ []

-- "443"
abbrev pub default_port : List ℕ
default_port = 52 ∷ 52 ∷ 51 ∷ []

-- `quicclient.Config`; the timeout is in nanoseconds, `none` for a negative one.
pub record ClientConfig : Type 0 where
  pub relay_uri : List ℕ
  pub insecure_skip_tls : Bool
  pub alpn : List ℕ
  pub handshake_timeout : Option ℕ

-- What the handshake is asked for: the address, what the TLS configuration says of the protocol, the
-- server's name and the check of its certificate, and the time that it has, if that is limited.
pub record DialRequest : Type 0 where
  pub address : List ℕ
  pub next_proto : List ℕ
  pub server_name : List ℕ
  pub insecure_skip_verify : Bool
  pub timeout : Option ℕ

-- `dial_addr` gives the remote address of the connection.
pub record Network : Type 0 where
  pub parse_url : List ℕ → Result Url
  pub join_host_port : (host port : List ℕ) → List ℕ
  pub dial_addr : DialRequest → Result (List ℕ)

-- `if c.cfg.HandshakeTimeout > 0`
unfoldable pub dial_timeout : Option ℕ → Option ℕ
dial_timeout none = none
dial_timeout (some n) = if ltb 0 n then some n else none

unfoldable pub dial_request : Network → ClientConfig → Url → DialRequest
dial_request net cfg url = record {
  address = net.join_host_port url.hostname (choose url.port default_port);
  next_proto = choose cfg.alpn draft18_alpn;
  server_name = url.hostname;
  insecure_skip_verify = cfg.insecure_skip_tls;
  timeout = dial_timeout cfg.handshake_timeout;
}

-- `Dial` behind the parser.
unfoldable pub dial_url : Network → ClientConfig → Url → Result (List ℕ × Url)
dial_url net cfg url =
    if not (bytes_eq url.scheme scheme_moqt)
    then err (message "unsupported relay scheme %q (expected moqt)" (text url.scheme ∷ []))
    else do
      remote ← wrap "quic dial: %w" [] (net.dial_addr (dial_request net cfg url))
      ok (remote, url)

-- The remote address of the connection, and the relay's URL.
unfoldable pub dial : Network → ClientConfig → Result (List ℕ × Url)
dial net cfg = do
  url ← wrap "parse relay uri: %w" [] (net.parse_url cfg.relay_uri)
  dial_url net cfg url
