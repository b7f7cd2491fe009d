-- ===== src/Auth/Jwt/Parts.antt =====
-- The parts of a token, its protected header and its times, as far as each check establishes them.
use eal_api.Prelude.{
  ◌≤◌, ◌≡◌, refl, ap, ◌∙◌, Bool, true, false, ◌||◌, Option, none, some, List, [], ◌∷◌, arith,
  ltb-false→le, ◌==◌, is_empty, any, subst, Bool-cases, inl, inr, ok, >>=-eq-ok, ensure-then,
  refuse-then, refuse-eq-ok,
}
use eal_api.Prelude.Int.{ℤ, ◌≤ℤ◌, int_leb, saturating_sub, saturating_add}
use eal_api.Prelude.Ordered.{text_ord}
use eal_api.Prelude.TreeSet.{eqb_iff_eq}
use eal_api.Text.{Text, text, byte_length, split, is_ascii_whitespace}
use eal_api.Headers.{as_bytes}
use eal_api.Json
use eal_api.Json.{Json, as_str, as_object}
use eal_api.Auth.Jwt.{
  Segments, max_token_bytes, next_segment, split_token, str_is, str_at, is_some, typ_is_other,
  check_protected, integer_claim, not_after,
}

-- The three nonempty parts of a token between its dots, none with a space in it.
pub record IsSplit (token : Text) (s : Segments) : Type 0 where
  pub bytes : byte_length token ≤ max_token_bytes
  pub no_space : any is_ascii_whitespace (as_bytes token) ≡ false
  pub parts : split (λ c. c == b'.') token ≡ s.protected ∷ s.claims ∷ s.signature ∷ []
  pub protected_given : is_empty s.protected ≡ false
  pub claims_given : is_empty s.claims ≡ false
  pub signature_given : is_empty s.signature ≡ false

pub record IsProtected (object : List (Text × Json)) : Type 0 where
  pub algorithm : str_at (text "alg") object ≡ some (text "HS256")
  pub typ : typ_is_other (str_at (text "typ") object) ≡ false
  pub critical : Json.lookup (text "crit") object ≡ none

next_segment-eq-ok :
    (parts : List Text) (s : Text) (rest : List Text)
    → next_segment parts ≡ ok (s, rest)
    → (parts ≡ s ∷ rest) × (is_empty s ≡ false)
unfolding next_segment
next_segment-eq-ok [] s rest h = absurd (cc h)
next_segment-eq-ok (p ∷ parts) s rest h = elim (Bool-cases (is_empty p)) [
  | inl e ↦ absurd (cc (rw e at h))
  | inr e ↦
      let q : ok (p, parts) ≡ ok (s, rest) = rw e at h in
      let same : p ≡ s = cc q in (cc q, subst (λ x. is_empty x ≡ false) same e)
]

is_empty-eq-nil {ℓ} : {A : Type ℓ} (xs : List A) → is_empty xs ≡ true → xs ≡ []
is_empty-eq-nil [] h = refl
is_empty-eq-nil (x ∷ xs) h = cc

or-false : (a b : Bool) → (a || b) ≡ false → (a ≡ false) × (b ≡ false)
or-false a b h = ground arith

pub split_token-IsSplit : (token : Text) (s : Segments) → split_token token ≡ ok s → IsSplit token s
unfolding split_token
split_token-IsSplit token s h =
    let pieces = split (λ c. c == b'.') token in
    let (fits, h1) = refuse-then _ _ _ h in
    let ((p, rest), e1, h2) = >>=-eq-ok (next_segment pieces) _ h1 in
    let ((c, rest'), e2, h3) = >>=-eq-ok (next_segment rest) _ h2 in
    let ((t, rest''), e3, h4) = >>=-eq-ok (next_segment rest') _ h3 in
    let (done, last) = ensure-then _ _ _ h4 in
    let same : record { protected = p; claims = c; signature = t } ≡ s = cc last in
    let (small, solid) = or-false _ _ fits in
    let (parts_p, given_p) = next_segment-eq-ok pieces p rest e1 in
    let (parts_c, given_c) = next_segment-eq-ok rest c rest' e2 in
    let (parts_t, given_t) = next_segment-eq-ok rest' t rest'' e3 in
    rw (← same) (record {
      bytes = ltb-false→le max_token_bytes (byte_length token) small;
      no_space = solid;
      parts =
          parts_p
          ∙ ap (◌∷◌ p) (parts_c ∙ ap (◌∷◌ c) (parts_t ∙ ap (◌∷◌ t) (is_empty-eq-nil rest'' done)));
      protected_given = given_p;
      claims_given = given_c;
      signature_given = given_t;
    })

pub str_is-eq : (o : Option Text) (expected : Text) → str_is o expected ≡ true → o ≡ some expected
str_is-eq none expected h = cc
str_is-eq (some s) expected h = ap some (eqb_iff_eq s expected h)

is_some-false {ℓ} : {A : Type ℓ} (o : Option A) → is_some o ≡ false → o ≡ none
is_some-false none h = refl
is_some-false (some a) h = cc

pub check_protected-IsProtected :
    (object : List (Text × Json)) → check_protected object ≡ ok tt → IsProtected object
unfolding check_protected
check_protected-IsProtected object h =
    let (alg, h1) = ensure-then _ _ _ h in
    let (typ, h2) = refuse-then _ _ _ h1 in
    record {
      algorithm = str_is-eq _ _ alg;
      typ = typ;
      critical = is_some-false _ (refuse-eq-ok (is_some (Json.lookup (text "crit") object)) tt h2);
    }

-- `exp` lies beyond the present less the leeway, and `nbf` and `iat`, where given, do not lie
-- beyond the present plus the leeway.
pub record IsCurrent (leeway now : ℤ) (object : List (Text × Json)) : Type 0 where
  pub exp : Json
  pub exp_given : Json.lookup (text "exp") object ≡ some exp
  pub expiration : ℤ
  pub exp_integer : integer_claim exp ≡ ok expiration
  pub unexpired : int_leb expiration (saturating_sub now leeway) ≡ false
  pub begun :
      (claim : Json) (time : ℤ)
      → Json.lookup (text "nbf") object ≡ some claim
      → integer_claim claim ≡ ok time
      → time ≤ℤ saturating_add now leeway
  pub issued :
      (claim : Json) (time : ℤ)
      → Json.lookup (text "iat") object ≡ some claim
      → integer_claim claim ≡ ok time
      → time ≤ℤ saturating_add now leeway

pub not_after-bound :
    (given : Option Json) (limit : ℤ) (claim : Json) (time : ℤ)
    → not_after given limit ≡ ok tt
    → given ≡ some claim
    → integer_claim claim ≡ ok time
    → time ≤ℤ limit
unfolding not_after
not_after-bound none limit claim time h e k = absurd (cc e)
not_after-bound (some given) limit claim time h e k = ground arith
