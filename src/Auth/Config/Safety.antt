-- ===== src/Auth/Config/Safety.antt =====
-- What a configuration that is accepted guarantees.
use eal_api.Prelude.{
  ℕ, ◌≤◌, ◌≡◌, refl, sym, ap, Bool, true, false, ◌||◌, ◌&&◌, inl, inr, none, arith, Option-cases,
  in_range, is_empty, length, ok, >>=-eq-ok, ensure-then, refuse-then,
}
use eal_api.Prelude.Int.{ℤ, pos, ◌≤ℤ◌, int_leb}
use eal_api.Prelude.Ordered.{text_ord}
use eal_api.Prelude.TreeSet.{contains}
use eal_api.Prelude.TreeSet.Laws.{is_subset-contains}
use eal_api.Text.{Text, text, trim}
use eal_api.Auth.Roles.{parse_claim_path, validate_cookie_name}
use eal_api.Auth.Config.{
  JwtVerifier, jwt_mode, AuthConfig, JwtSettings, jwt, is_jwt, insecure_headers, Environment,
  secret_of, jwt_from_env, required_env, configured_allowed_roles, configured_admin_roles,
  configured_leeway, unconfigured, from_env, mode_is_jwt,
}

pub record IsSafeVerifier (s : JwtSettings) (v : JwtVerifier) : Type 0 where
  pub secret : v.secret ≡ s.secret
  pub secret_least : 32 ≤ length v.secret
  pub secret_most : length v.secret ≤ 4096
  pub issuer : (v.issuer ≡ trim s.issuer) × (is_empty v.issuer ≡ false)
  pub audience : (v.audience ≡ trim s.audience) × (is_empty v.audience ≡ false)
  pub roles : is_empty v.allowed_roles ≡ false
  pub admins :
      (role : Text) → contains role v.admin_roles ≡ true → contains role v.allowed_roles ≡ true
  pub leeway_least : pos 0 ≤ℤ v.leeway_seconds
  pub leeway_most : v.leeway_seconds ≤ℤ pos 300

or-false_left : (a b : Bool) → (a || b) ≡ false → a ≡ false
or-false_left a b h = ground arith

range_bounds : (lo hi n : ℕ) → in_range lo hi n ≡ true → (lo ≤ n) × (n ≤ hi)
range_bounds lo hi n h = ground arith

leeway_bounds :
    (n : ℤ) → (int_leb (pos 0) n && int_leb n (pos 300)) ≡ true → (pos 0 ≤ℤ n) × (n ≤ℤ pos 300)
leeway_bounds n h = ground arith

-- `AuthConfig::jwt` accepts only a secret of 32 to 4096 bytes, a nonempty issuer and audience, at
-- least one allowed role, admin roles that are all allowed, and a leeway of 0 to 300 seconds; the
-- configuration then verifies tokens, with this secret and the trimmed issuer and audience.
pub jwt-IsSafeVerifier :
    (s : JwtSettings) (c : AuthConfig)
    → jwt s ≡ ok c
    → (v : JwtVerifier) × (c.mode ≡ jwt_mode v) × IsSafeVerifier s v
unfolding jwt
jwt-IsSafeVerifier s c h =
    let (secret, h1) = ensure-then _ _ _ h in
    let (issuer, h2) = refuse-then _ _ _ h1 in
    let (audience, h3) = refuse-then _ _ _ h2 in
    let (tenant_path, _, h4) = >>=-eq-ok (parse_claim_path s.tenant_claim) _ h3 in
    let (role_path, _, h5) = >>=-eq-ok (parse_claim_path s.role_claim) _ h4 in
    let (allowed, h6) = refuse-then _ _ _ h5 in
    let (admins, h7) = ensure-then _ _ _ h6 in
    let (leeway, h8) = ensure-then _ _ _ h7 in
    let (_, _, last) = >>=-eq-ok (validate_cookie_name s.cookie_name) _ h8 in
    let (least, most) = range_bounds 32 4096 (length s.secret) secret in
    let (from_zero, to_limit) = leeway_bounds s.leeway_seconds leeway in
    let v : JwtVerifier = record {
      secret = s.secret;
      issuer = trim s.issuer;
      audience = trim s.audience;
      tenant_claim_path = tenant_path;
      role_claim_path = role_path;
      allowed_roles = s.allowed_roles;
      admin_roles = s.admin_roles;
      leeway_seconds = s.leeway_seconds;
    } in
    let same : record { mode = jwt_mode v; cookie_name = s.cookie_name } ≡ c = cc last in
    (
      v,
      ap (λ (a : AuthConfig). a.mode) (sym same),
      record {
        secret = refl;
        secret_least = least;
        secret_most = most;
        issuer = (refl, or-false_left _ _ issuer);
        audience = (refl, or-false_left _ _ audience);
        roles = allowed;
        admins = λ role. is_subset-contains s.admin_roles s.allowed_roles role admins;
        leeway_least = from_zero;
        leeway_most = to_limit;
      },
    )

jwt-is_jwt : (s : JwtSettings) (c : AuthConfig) → jwt s ≡ ok c → is_jwt c ≡ true
unfolding is_jwt
jwt-is_jwt s c h = let (v, e, _) = jwt-IsSafeVerifier s c h in ap mode_is_jwt e

jwt_from_env-is_jwt :
    (env : Environment) (secret : Text) (c : AuthConfig)
    → jwt_from_env env secret ≡ ok c
    → is_jwt c ≡ true
unfolding jwt_from_env
jwt_from_env-is_jwt env secret c h =
    let (_, _, h1) = >>=-eq-ok (required_env env (text "EAL_JWT_ISSUER")) _ h in
    let (_, _, h2) = >>=-eq-ok (required_env env (text "EAL_JWT_AUDIENCE")) _ h1 in
    let (_, _, h3) = >>=-eq-ok (configured_allowed_roles env) _ h2 in
    let (_, _, h4) = >>=-eq-ok (configured_admin_roles env) _ h3 in
    let (_, _, last) = >>=-eq-ok (configured_leeway env) _ h4 in jwt-is_jwt _ c last

unconfigured-eq-ok :
    (production allow : Bool) (c : AuthConfig)
    → unconfigured production allow ≡ ok c
    → (production ≡ false) × (allow ≡ true) × (c ≡ insecure_headers)
unfolding unconfigured
unconfigured-eq-ok false true c h = (refl, refl, cc h)
unconfigured-eq-ok false false c h = cc
unconfigured-eq-ok true allow c h = cc

-- Without verified tokens a configuration from the environment is the insecure one: it is never
-- accepted in production, nor without the explicit flag, nor where a secret is set.
pub from_env-insecure :
    (env : Environment) (production allow : Bool) (c : AuthConfig)
    → from_env env production allow ≡ ok c
    → is_jwt c ≡ false
    → (production ≡ false)
      × (allow ≡ true)
      × (secret_of (env (text "EAL_JWT_HS256_SECRET")) ≡ none)
      × (c ≡ insecure_headers)
unfolding from_env
from_env-insecure env production allow c h k =
    elim (Option-cases (secret_of (env (text "EAL_JWT_HS256_SECRET")))) [
      | inl unset ↦
          let (dev, allowed, same) =
            unconfigured-eq-ok production allow c (rw (unset, from_env) at h) in
          (dev, allowed, unset, same)
      | inr (secret, is_set) ↦
          absurd (cc (jwt_from_env-is_jwt env secret c (rw (is_set, from_env) at h), k))
    ]
