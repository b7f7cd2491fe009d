-- ===== src/Urls.antt =====
-- The `url` crate, a library: `Urls` names its parser and serialiser, its getters, gathered in a
-- view, and its two setters, with what their documentation says of them.
use eal_api.Prelude.{ℕ, ◌≡◌, Bool, false, Option, none, Result, ok}
use eal_api.Text.{Text}

pub data Host : Type 0 where
  domain : Text → Host
  ipv4 ipv6 : Host

pub record UrlView : Type 0 where
  pub scheme : Text
  pub cannot_be_a_base : Bool
  pub username : Text
  pub password : Option Text
  pub host : Option Host
  pub port : Option ℕ
  pub path : Text
  pub query : Option Text
  pub fragment : Option Text

pub record Urls : Type 1 where
  pub Url : Type 0
  -- `Url::parse`, with the error as it is displayed
  pub parse : Text → Result Text Url
  -- `url.to_string()`
  pub to_text : Url → Text
  pub view : Url → UrlView
  -- `url.host_str()`
  pub host_str : Url → Option Text
  -- `url.origin().ascii_serialization()`
  pub origin : Url → Text
  pub set_port : Url → Option ℕ → Result (Unit {0}) Url
  pub set_fragment : Url → Option Text → Url
  -- The laws are of URLs that can be a base: their path is not opaque, so that no setter trims it.
  -- Such a URL is what its serialisation parses to.
  pub parse-to_text : (u : Url) → (view u).cannot_be_a_base ≡ false → parse (to_text u) ≡ ok u
  -- `set_port(None)` and `set_fragment(None)` remove the part, and nothing else.
  pub set_port_none-view :
      (u u' : Url)
      → (view u).cannot_be_a_base ≡ false
      → set_port u none ≡ ok u'
      → view u' ≡ record (view u) { port = none }
  pub set_fragment_none-view :
      (u : Url)
      → (view u).cannot_be_a_base ≡ false
      → view (set_fragment u none) ≡ record (view u) { fragment = none }
  pub set_fragment_unchanged :
      (u : Url)
      → (view u).cannot_be_a_base ≡ false
      → (view u).fragment ≡ none
      → set_fragment u none ≡ u
