-- ===== src/Indexing.antt =====
-- src/indexing.rs: the canonical form of a URL that a source may index.
pub mod Hosts
pub mod Canonical
use eal_api.Prelude.{
  ℕ, ◌≡◌, Bool, true, false, not, ◌&&◌, ◌||◌, Option, none, some, List, [], ◌∷◌, ◌++◌, ltb, ◌==◌,
  if◌then◌else◌, is_empty, any, Result, ok, err, ◌>>=◌, ◌>>◌, ensure, refuse, map_err,
}
use eal_api.Prelude.Ordered.{text_ord}
use eal_api.Prelude.TreeSet.{eqb}
use eal_api.Text.{Text, text, byte_length, trim, trim_end_matches, to_ascii_lowercase, strip_prefix}
use eal_api.Urls.{Host, domain, ipv4, ipv6, UrlView, Urls}
use eal_api.Text.Affix.{starts_with, ends_with, strip_suffix}

abbrev pub ValidationError : Type 0
ValidationError = Text

-- The fields of `CreateSourcePolicy` and `SourcePolicy` that are used here.
pub record SourcePolicy : Type 0 where
  pub root_url : Text
  pub allowed_hosts : List Text
  pub include_subdomains : Bool
  pub allowed_path_prefixes : List Text

unfoldable pub normalize_host : Text → Text
normalize_host host = to_ascii_lowercase (trim_end_matches (λ c. c == b'.') (trim host))

-- `is_some_and(|prefix| prefix.ends_with('.') && prefix.len() > 1)`
unfoldable pub is_subdomain_prefix : Option Text → Bool
is_subdomain_prefix none = false
is_subdomain_prefix (some prefix) = ends_with b'.' prefix && ltb 1 (byte_length prefix)

-- The test of `host_is_allowed` for one allowed host in normal form.
unfoldable pub host_matches : Text → Bool → Text → Bool
host_matches host include_subdomains allowed =
    eqb host allowed || (include_subdomains && is_subdomain_prefix (strip_suffix allowed host))

unfoldable pub host_is_allowed : Text → List Text → Bool → Bool
host_is_allowed host allowed_hosts include_subdomains =
    any (λ allowed. host_matches host include_subdomains (normalize_host allowed)) allowed_hosts

abbrev pub starts_with_slash : Option Text → Bool
starts_with_slash none = false
starts_with_slash (some remaining) = starts_with b'/' remaining

unfoldable pub path_is_allowed : Text → Text → Bool
path_is_allowed path prefix =
    if eqb prefix (b'/' ∷ [])
    then true
    else let base = trim_end_matches (λ c. c == b'/') prefix in
      eqb path base || starts_with_slash (strip_prefix base path)

unfoldable pub public_host : Option Host → Result ValidationError Text
public_host (some (domain host)) = ok (normalize_host host)
public_host (some ipv4) =
    err (text "literal IP addresses are forbidden; configure an exact public domain")
public_host (some ipv6) =
    err (text "literal IP addresses are forbidden; configure an exact public domain")
public_host none = err (text "URL must include a public host")

abbrev pub is_some {ℓ} : {A : Type ℓ} → Option A → Bool
is_some none = false
is_some (some a) = true

abbrev pub port_is : ℕ → Option ℕ → Bool
port_is n none = false
port_is n (some m) = m == n

unfoldable pub is_default_port : UrlView → Bool
is_default_port url =
    (eqb url.scheme (text "http") && port_is 80 url.port)
    || (eqb url.scheme (text "https") && port_is 443 url.port)

-- The tests of `canonicalize` in their order.
unfoldable pub check_url :
    UrlView → List Text → Bool → List Text → Result ValidationError (Unit {0})
check_url url allowed_hosts include_subdomains allowed_path_prefixes = do
  ensure (eqb url.scheme (text "http") || eqb url.scheme (text "https"))
      (text "only http and https URLs may be indexed")
  refuse url.cannot_be_a_base (text "URL cannot be used as a crawl base")
  refuse (not (is_empty url.username) || is_some url.password)
      (text "URL credentials are forbidden for indexed sources")
  host ← public_host url.host
  refuse (eqb host (text "localhost") || not (any (λ c. c == b'.') host))
      (text "URL must use an exact public DNS host")
  ensure (host_is_allowed host allowed_hosts include_subdomains)
      (text "host " ++ (host ++ text " is outside the source allowlist"))
  ensure (any (path_is_allowed url.path) allowed_path_prefixes)
      (text "path " ++ (url.path ++ text " is outside the source allowlist"))

module _ (urls : Urls) where
  open urls use {Url, parse, to_text, view, set_port, set_fragment}

  unfoldable pub without_default_port : Url → Result ValidationError Url
  without_default_port url =
      if is_default_port (view url)
      then map_err (λ _. text "could not normalize URL port") (set_port url none)
      else ok url

  unfoldable pub canonicalize : Text → List Text → Bool → List Text → Result ValidationError Text
  canonicalize raw_url allowed_hosts include_subdomains allowed_path_prefixes = do
    url ← map_err (λ error. text "invalid absolute URL: " ++ error) (parse raw_url)
    check_url (view url) allowed_hosts include_subdomains allowed_path_prefixes
    normal ← without_default_port url
    ok (to_text (set_fragment normal none))

  unfoldable pub canonicalize_source_root : SourcePolicy → Result ValidationError Text
  canonicalize_source_root input =
      canonicalize input.root_url input.allowed_hosts input.include_subdomains
        input.allowed_path_prefixes

  unfoldable pub canonicalize_for_source : SourcePolicy → Text → Result ValidationError Text
  canonicalize_for_source source raw_url =
      canonicalize raw_url source.allowed_hosts source.include_subdomains
        source.allowed_path_prefixes
