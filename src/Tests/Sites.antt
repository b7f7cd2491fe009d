-- ===== src/Tests/Sites.antt =====
-- A site's pages under a toy URL crate.
use eal_api.Prelude.{
  ℕ, ◌≡◌, ◌↔◌, ◌⊎◌, refl, Bool, true, false, Option, none, some, List, [], ◌∷◌, ◌==◌, if◌then◌else◌,
  Result, ok, err,
}
use eal_api.Prelude.Ordered.{text_ord, text_cmp}
use eal_api.Text.{
  Text, text, byte_length, utf8_width, trim, trim_matches, trim_start_matches, trim_end_matches,
  is_whitespace, to_ascii_lowercase, ascii_lower, strip_prefix,
}
use eal_api.Text.Affix.{starts_with, ends_with, strip_suffix}
use eal_api.Urls.{domain, UrlView, Urls}
use eal_api.Indexing.{
  normalize_host, is_subdomain_prefix, host_matches, host_is_allowed, path_is_allowed, public_host,
  is_default_port, check_url, without_default_port, canonicalize,
}
use eal_api.Indexing.Hosts.{
  Any, IsHostOrSubdomain, IsPathOrBelow, host_is_allowed_iff, path_is_allowed_iff,
}
use eal_api.Indexing.Canonical.{IsIndexable, canonicalize-IsIndexable, canonicalize-stable}

-- One site, at its root or at a page, perhaps with the default port and a fragment.
pub record Place : Type 0 where
  pub root : Bool
  pub port : Bool
  pub fragment : Option Text

abbrev pub flag : Bool → ℕ
flag true = b'1'
flag false = b'0'

abbrev tail : Option Text → Text
tail none = []
tail (some f) = b'#' ∷ f

abbrev read_tail : Text → Option Text
read_tail [] = none
read_tail (c ∷ f) = some f

abbrev place_text : Place → Text
place_text u = flag u.root ∷ flag u.port ∷ tail u.fragment

abbrev parse_place : Text → Result Text Place
parse_place (r ∷ p ∷ s) = ok (record { root = r == b'1'; port = p == b'1'; fragment = read_tail s })
parse_place other = err other

unfoldable pub place_view : Place → UrlView
unfolding text
place_view u = record {
  scheme = text "https";
  cannot_be_a_base = false;
  username = [];
  password = none;
  host = some (domain (text "Blog.Site.org."));
  port = if u.port then some 443 else none;
  path = if u.root then text "/" else text "/inside/item";
  query = none;
  fragment = u.fragment;
}

abbrev drop_port : Place → Option ℕ → Result (Unit {0}) Place
drop_port u none = ok (record u { port = false })
drop_port u (some n) = err tt

pub read_back :
    (r p : Bool) (f : Option Text)
    → parse_place (flag r ∷ flag p ∷ tail f) ≡ ok (record { root = r; port = p; fragment = f })
read_back true true none = refl
read_back true true (some f) = refl
read_back true false none = refl
read_back true false (some f) = refl
read_back false true none = refl
read_back false true (some f) = refl
read_back false false none = refl
read_back false false (some f) = refl

pub drop_port-view :
    (u u' : Place)
    → drop_port u none ≡ ok u'
    → place_view u' ≡ record (place_view u) { port = none }
unfolding place_view
drop_port-view u u' h = let e : record u { port = false } ≡ u' = cc h in rw (← e) refl

pub drop_fragment-view :
    (u : Place)
    → place_view (record u { fragment = none }) ≡ record (place_view u) { fragment = none }
unfolding place_view
drop_fragment-view u = refl

pub set_same_fragment :
    (u : Place) → (place_view u).fragment ≡ none → record u { fragment = none } ≡ u
unfolding place_view
set_same_fragment u h = cc h

unfoldable pub places : Urls
unfolding text
places = record {
  Url = Place;
  parse = parse_place;
  to_text = place_text;
  view = place_view;
  host_str = λ u. some (text "blog.site.org");
  origin = λ u. text "https://blog.site.org";
  set_port = drop_port;
  set_fragment = λ u f. record u { fragment = f };
  parse-to_text = λ u base. read_back u.root u.port u.fragment;
  set_port_none-view = λ u u' base h. drop_port-view u u' h;
  set_fragment_none-view = λ u base. drop_fragment-view u;
  set_fragment_unchanged = λ u base h. set_same_fragment u h;
}

abbrev hosts : List Text
hosts = text " SITE.org" ∷ []

abbrev prefixes : List Text
prefixes = text "/inside/" ∷ []

canonicalize_run : canonicalize places (text "01#part") hosts true prefixes ≡ ok (text "00")
unfolding canonicalize places place_view check_url public_host normalize_host host_is_allowed
    host_matches is_subdomain_prefix path_is_allowed is_default_port without_default_port text
    text_cmp byte_length utf8_width trim trim_matches trim_start_matches trim_end_matches
    is_whitespace to_ascii_lowercase ascii_lower strip_prefix starts_with ends_with strip_suffix
canonicalize_run = refl

canonicalize-IsIndexable_example :
    (url final : places.Url) × (places.parse (text "01#part") ≡ ok url)
    × IsIndexable hosts true prefixes (places.view url)
    × (text "00" ≡ places.to_text final)
    × (places.view final ≡ record (places.view url) {
      port = if is_default_port (places.view url) then none else (places.view url).port;
      fragment = none;
    })
canonicalize-IsIndexable_example =
    canonicalize-IsIndexable places (text "01#part") (text "00") hosts true prefixes
      canonicalize_run

canonicalize-stable_example : canonicalize places (text "00") hosts true prefixes ≡ ok (text "00")
canonicalize-stable_example =
    canonicalize-stable places (text "01#part") (text "00") hosts true prefixes canonicalize_run

host_is_allowed_iff_example :
    (host_is_allowed (text "blog.site.org") hosts true ≡ true)
    ↔ Any (λ allowed. IsHostOrSubdomain (text "blog.site.org") true (normalize_host allowed)) hosts
host_is_allowed_iff_example = host_is_allowed_iff (text "blog.site.org") hosts true

path_is_allowed_iff_example : (path_is_allowed (text "/inside-item") (text "/inside/") ≡ true) ↔ (
    (text "/inside/" ≡ b'/' ∷ [])
    ⊎ IsPathOrBelow (text "/inside-item") (trim_end_matches (λ c. c == b'/') (text "/inside/")))
path_is_allowed_iff_example = path_is_allowed_iff (text "/inside-item") (text "/inside/")
