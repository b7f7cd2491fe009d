-- ===== src/Indexing/Canonical.antt =====
-- What a canonical URL satisfies, and that it is its own canonical form.
use eal_api.Prelude.{
  ◌≡◌, refl, ap, ◌∙◌, Bool, true, false, not, ◌&&◌, ◌||◌, inl, inr, ◌⊎◌, Option, none, some, List,
  [], ◌∷◌, arith, Bool-cases, ◌==◌, if◌then◌else◌, is_empty, any, ok, >>=-eq-ok, ensure-then,
  refuse-then, ensure-eq-ok, map_err-then, map_err-eq-ok,
}
use eal_api.Prelude.Ordered.{text_ord}
use eal_api.Prelude.TreeSet.{eqb, eqb_iff_eq}
use eal_api.Text.{Text, text, trim_end_matches}
use eal_api.Urls.{Host, domain, ipv4, ipv6, UrlView, Urls}
use eal_api.Indexing.{
  normalize_host, host_is_allowed, path_is_allowed, public_host, is_some, port_is, is_default_port,
  check_url, without_default_port, canonicalize,
}
use eal_api.Indexing.Hosts.{
  Any, IsHostOrSubdomain, IsPathOrBelow, any-true_iff, host_is_allowed_iff, path_is_allowed_iff,
}

-- What a source may index.
pub record IsIndexable (hosts : List Text) (subdomains : Bool) (prefixes : List Text)
    (url : UrlView) : Type 0 where
  pub web : (url.scheme ≡ text "http") ⊎ (url.scheme ≡ text "https")
  pub base : url.cannot_be_a_base ≡ false
  pub no_user : is_empty url.username ≡ true
  pub no_password : url.password ≡ none
  pub name : Text
  pub named : url.host ≡ some (domain name)
  pub dotted : any (λ c. c == b'.') (normalize_host name) ≡ true
  pub host_allowed :
      Any
        (λ allowed. IsHostOrSubdomain (normalize_host name) subdomains (normalize_host allowed))
        hosts
  pub path_allowed :
      Any
        (λ prefix.
          (prefix ≡ b'/' ∷ []) ⊎ IsPathOrBelow url.path (trim_end_matches (λ c. c == b'/') prefix))
        prefixes

credentials :
    (username : Text) (password : Option Text)
    → (not (is_empty username) || is_some password) ≡ false
    → (is_empty username ≡ true) × (password ≡ none)
credentials username none h = (ground arith, refl)
credentials username (some p) h = absurd (ground arith)

public_host-eq-ok :
    (host : Option Host) (out : Text)
    → public_host host ≡ ok out
    → (name : Text) × (host ≡ some (domain name)) × (normalize_host name ≡ out)
unfolding public_host
public_host-eq-ok (some (domain name)) out h = (name, refl, cc h)
public_host-eq-ok (some ipv4) out h = absurd (cc h)
public_host-eq-ok (some ipv6) out h = absurd (cc h)
public_host-eq-ok none out h = absurd (cc h)

public_name : (a b : Bool) → (a || not b) ≡ false → b ≡ true
public_name a b h = ground arith

either_scheme :
    (s : Text)
    → (eqb s (text "http") || eqb s (text "https")) ≡ true
    → (s ≡ text "http") ⊎ (s ≡ text "https")
either_scheme s h = elim (Bool-cases (eqb s (text "http"))) [
  | inl e ↦ inl (eqb_iff_eq s (text "http") e)
  | inr n ↦ inr (eqb_iff_eq s (text "https") (rw n at h))
]

check_url-IsIndexable :
    (url : UrlView) (hosts : List Text) (subdomains : Bool) (prefixes : List Text)
    → check_url url hosts subdomains prefixes ≡ ok tt
    → IsIndexable hosts subdomains prefixes url
unfolding check_url
check_url-IsIndexable url hosts subdomains prefixes h =
    let (web, h1) = ensure-then _ _ _ h in
    let (base, h2) = refuse-then _ _ _ h1 in
    let (anonymous, h3) = refuse-then _ _ _ h2 in
    let (host, found, h4) = >>=-eq-ok (public_host url.host) _ h3 in
    let (public, h5) = refuse-then _ _ _ h4 in
    let (allowed, h6) = ensure-then (host_is_allowed host hosts subdomains) _ _ h5 in
    let path = ensure-eq-ok (any (path_is_allowed url.path) prefixes) _ h6 in
    let (no_user, no_password) = credentials url.username url.password anonymous in
    let (name, named, same) = public_host-eq-ok url.host host found in
    record {
      web = either_scheme url.scheme web;
      base = base;
      no_user = no_user;
      no_password = no_password;
      name = name;
      named = named;
      dotted = rw same (public_name _ _ public);
      host_allowed = rw same ((host_is_allowed_iff host hosts subdomains).0 allowed);
      path_allowed = (any-true_iff _ _ (path_is_allowed_iff url.path) prefixes).0 path;
    }

-- The view of the canonical URL.
abbrev normal_view : UrlView → UrlView
normal_view url = record url {
  port = if is_default_port url then none else url.port;
  fragment = none;
}

port_is-none : (a b : Bool) → ((a && port_is 80 none) || (b && port_is 443 none)) ≡ false
port_is-none a b = ground arith

is_default_port-normal_view : (url : UrlView) → is_default_port (normal_view url) ≡ false
is_default_port-normal_view url = elim (Bool-cases (is_default_port url)) [
  | inl default ↦ rw default (
      unfold is_default_port in
      port_is-none (eqb url.scheme (text "http")) (eqb url.scheme (text "https")))
  | inr other ↦ rw other (unfold is_default_port in other)
]

module _ (urls : Urls) where
  open urls use {Url, parse, to_text, view, set_port, set_fragment}

  without_default_port-view :
      (url normal : Url)
      → (view url).cannot_be_a_base ≡ false
      → without_default_port urls url ≡ ok normal
      → view (set_fragment normal none) ≡ normal_view (view url)
  unfolding without_default_port
  without_default_port-view url normal base h = elim (Bool-cases (is_default_port (view url))) [
    | inl default ↦
        let stripped = map_err-eq-ok _ (set_port url none) (rw default at h) in
        let seen = urls.set_port_none-view url normal base stripped in
        let normal_base : (view normal).cannot_be_a_base ≡ false =
          ap (λ (v : UrlView). v.cannot_be_a_base) seen ∙ base in
        rw (urls.set_fragment_none-view normal normal_base, seen, default) refl
    | inr other ↦
        let same : url ≡ normal = cc (rw other at h) in
        rw (← same, urls.set_fragment_none-view url base, other) refl
  ]

  -- A URL is accepted only if it parses, with the scheme http or https, no credentials, a dotted
  -- domain at or below an allowed host and a path at or below an allowed prefix; the canonical
  -- form is then the text of a URL that differs from it in its port and its fragment only.
  pub canonicalize-IsIndexable :
      (raw out : Text) (hosts : List Text) (subdomains : Bool) (prefixes : List Text)
      → canonicalize urls raw hosts subdomains prefixes ≡ ok out
      → (url final : Url) × (parse raw ≡ ok url)
        × IsIndexable hosts subdomains prefixes (view url)
        × (out ≡ to_text final)
        × (view final ≡ record (view url) {
          port = if is_default_port (view url) then none else (view url).port;
          fragment = none;
        })
  unfolding canonicalize
  canonicalize-IsIndexable raw out hosts subdomains prefixes h =
      let (url, parsed, h1) = map_err-then _ (parse raw) _ h in
      let (_, checked, h2) = >>=-eq-ok (check_url (view url) hosts subdomains prefixes) _ h1 in
      let (normal, stripped, last) = >>=-eq-ok (without_default_port urls url) _ h2 in
      let indexable = check_url-IsIndexable (view url) hosts subdomains prefixes checked in
      (
        url,
        set_fragment normal none,
        parsed,
        indexable,
        cc last,
        without_default_port-view url normal indexable.base stripped,
      )

  unchanged :
      (final : Url) (url : UrlView)
      → view final ≡ normal_view url
      → without_default_port urls final ≡ ok final
  unfolding without_default_port
  unchanged final url same = rw (same, is_default_port-normal_view url) refl

  -- The canonical form is its own canonical form under the same rules.
  pub canonicalize-stable :
      (raw out : Text) (hosts : List Text) (subdomains : Bool) (prefixes : List Text)
      → canonicalize urls raw hosts subdomains prefixes ≡ ok out
      → canonicalize urls out hosts subdomains prefixes ≡ ok out
  unfolding canonicalize
  canonicalize-stable raw out hosts subdomains prefixes h =
      let (url, parsed, h1) = map_err-then _ (parse raw) _ h in
      let (_, checked, h2) = >>=-eq-ok (check_url (view url) hosts subdomains prefixes) _ h1 in
      let (normal, stripped, last) = >>=-eq-ok (without_default_port urls url) _ h2 in
      let base = (check_url-IsIndexable (view url) hosts subdomains prefixes checked).base in
      let final = set_fragment normal none in
      let same : out ≡ to_text final = cc last in
      let seen : view final ≡ normal_view (view url) =
        without_default_port-view url normal base stripped in
      let final_base : (view final).cannot_be_a_base ≡ false =
        ap (λ (v : UrlView). v.cannot_be_a_base) seen ∙ base in
      let checked_again : check_url (view final) hosts subdomains prefixes ≡ ok tt =
        rw seen (unfold check_url in checked) in
      let no_fragment : (view final).fragment ≡ none = ap (λ (v : UrlView). v.fragment) seen in
      rw
        (
          same,
          urls.parse-to_text final final_base,
          checked_again,
          unchanged final (view url) seen,
          urls.set_fragment_unchanged final final_base no_fragment,
        )
        refl
