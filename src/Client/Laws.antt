-- ===== src/Client/Laws.antt =====
-- What a connection to the relay stands for.
use moqsub.Common.{
  ℕ, ◌≡◌, ◌↔◌, ap, ◌∙◌, sym, List, [], not, Bool-cases, true, inl, inr, if-eq_true, if-eq_false,
  bytes_eq, bytes_eq→eq, bytes_eq_refl, subst,
}
use moqsub.Common.Result.{Result, ok, wrap, wrap-eq-ok, >>=-eq-ok, ◌>>=◌, ok-injective}
use moqsub.Session.{Url}
use moqsub.Client.{ClientConfig, Network, scheme_moqt, dial_request, dial_url, dial}

dial_url-ok :
    (net : Network) (cfg : ClientConfig) (u url : Url) (remote : List ℕ)
    → dial_url net cfg u ≡ ok (remote, url)
    → (u ≡ url) × (u.scheme ≡ scheme_moqt) × (net.dial_addr (dial_request net cfg u) ≡ ok remote)
unfolding dial_url
dial_url-ok net cfg u url remote e = elim (Bool-cases (bytes_eq u.scheme scheme_moqt)) [
  | inr other ↦ let e' = sym (if-eq_true _ _ _ (ap not other)) ∙ e in cc
  | inl moqt ↦
      let (rem, e1, e2) =
        >>=-eq-ok (wrap "quic dial: %w" [] (net.dial_addr (dial_request net cfg u))) _
          (sym (if-eq_false _ _ _ (ap not moqt)) ∙ e) in
      let same = ok-injective e2 in
      (
        ap (λ (x : List ℕ × Url). x.1) same,
        bytes_eq→eq u.scheme scheme_moqt moqt,
        wrap-eq-ok _ _ _ e1 ∙ ap (λ (x : List ℕ × Url). ok x.0) same,
      )
]

dial_url-accepts :
    (net : Network) (cfg : ClientConfig) (url : Url) (remote : List ℕ)
    → url.scheme ≡ scheme_moqt
    → net.dial_addr (dial_request net cfg url) ≡ ok remote
    → dial_url net cfg url ≡ ok (remote, url)
unfolding dial_url
dial_url-accepts net cfg url remote scheme dialed =
    let moqt : bytes_eq url.scheme scheme_moqt ≡ true =
      subst (λ s. bytes_eq s scheme_moqt ≡ true) (sym scheme) (bytes_eq_refl scheme_moqt) in
    if-eq_false _ _ _ (ap not moqt)
    ∙ ap (λ (m : Result (List ℕ)). wrap "quic dial: %w" [] m >>= (λ rem. ok (rem, url))) dialed

-- `Dial` succeeds exactly where the relay's URI parses, has the scheme "moqt", and the handshake for the
-- request that URL and configuration make succeeds; it returns the connection and the URL.
pub dial_iff :
    (net : Network) (cfg : ClientConfig) (remote : List ℕ) (url : Url)
    → (dial net cfg ≡ ok (remote, url)) ↔ (
        (net.parse_url cfg.relay_uri ≡ ok url)
        × (url.scheme ≡ scheme_moqt)
        × (net.dial_addr (dial_request net cfg url) ≡ ok remote))
unfolding dial
dial_iff net cfg remote url = (
  λ e.
      let (u, e1, e2) =
        >>=-eq-ok (wrap "parse relay uri: %w" [] (net.parse_url cfg.relay_uri)) _ e in
      let (same, scheme, dialed) = dial_url-ok net cfg u url remote e2 in
      subst
        (λ (v : Url).
          (net.parse_url cfg.relay_uri ≡ ok v)
          × (v.scheme ≡ scheme_moqt)
          × (net.dial_addr (dial_request net cfg v) ≡ ok remote))
        same (wrap-eq-ok _ _ _ e1, scheme, dialed),
  λ (parsed, scheme, dialed).
      ap (λ (m : Result Url). wrap "parse relay uri: %w" [] m >>= dial_url net cfg) parsed
      ∙ dial_url-accepts net cfg url remote scheme dialed,
)
