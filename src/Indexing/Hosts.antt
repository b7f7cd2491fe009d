-- ===== src/Indexing/Hosts.antt =====
-- The Boolean tests on hosts and paths, as statements about their dotted and slashed parts.
use eal_api.Prelude.{
  ℕ, ◌≤◌, ◌<◌, ◌≡◌, ◌↔◌, ◌⊎◌, refl, sym, ap, ◌∙◌, Bool, true, false, ◌&&◌, ◌||◌, inl, inr, Option,
  none, some, List, [], ◌∷◌, ◌++◌, append_assoc, arith, Bool-cases, ltb, lt→ltb, is_empty, any,
  ◌==◌,
}
use eal_api.Prelude.Ordered.{text_ord}
use eal_api.Prelude.TreeSet.{eqb, eqb_iff_eq, eqb_of_eq}
use eal_api.Text.{Text, byte_length, utf8_width, trim_end_matches, strip_prefix}
use eal_api.Text.Affix.{
  starts_with, starts_with-eq, ends_with, ends_with-eq, ends_with-append, strip_prefix-eq,
  strip_prefix-append_self, strip_suffix, strip_suffix-eq, strip_suffix-append_self,
}
use eal_api.Indexing.{
  normalize_host, is_subdomain_prefix, host_matches, host_is_allowed, path_is_allowed,
  starts_with_slash,
}

-- The host itself, or some nonempty text, a dot, and the host.
abbrev pub IsHostOrSubdomain : Text → Bool → Text → Type 0
IsHostOrSubdomain host include_subdomains allowed =
    (host ≡ allowed)
    ⊎ ((include_subdomains ≡ true)
        × (label : Text) × (is_empty label ≡ false)
        × (host ≡ label ++ (b'.' ∷ allowed)))

-- The path itself, or more segments behind it.
abbrev pub IsPathOrBelow : Text → Text → Type 0
IsPathOrBelow path base = (path ≡ base) ⊎ ((rest : Text) × (path ≡ base ++ (b'/' ∷ rest)))

-- Some element of a list satisfies `P`.
abbrev pub Any {ℓ} : {A : Type ℓ} → (A → Type 0) → List A → Type 0
Any P [] = ⊥
Any P (x ∷ xs) = P x ⊎ Any P xs

long_nonempty :
    (front : Text) → ltb 1 (byte_length (front ++ b'.' ∷ [])) ≡ true → is_empty front ≡ false
unfolding byte_length utf8_width
long_nonempty [] h = absurd (cc h)
long_nonempty (c ∷ front) h = refl

utf8_width_pos : (c : ℕ) → 1 ≤ utf8_width c
unfolding utf8_width
utf8_width_pos c = ground arith

byte_length_pos : (c : ℕ) (s : Text) → 1 ≤ byte_length (c ∷ s)
unfolding byte_length
byte_length_pos c s = omega (arith, utf8_width_pos c)

nonempty_long : (front : Text) → is_empty front ≡ false → 1 < byte_length (front ++ b'.' ∷ [])
unfolding byte_length
nonempty_long [] h = absurd (cc h)
nonempty_long (c ∷ []) h = omega (arith, utf8_width_pos c, utf8_width_pos b'.')
nonempty_long (c ∷ d ∷ s) h = omega (arith, utf8_width_pos c, byte_length_pos d (s ++ b'.' ∷ []))

or-true : (a b : Bool) → (a || b) ≡ true → (a ≡ true) ⊎ (b ≡ true)
or-true a b h = ground arith

and-true : (a b : Bool) → (a && b) ≡ true → (a ≡ true) × (b ≡ true)
and-true a b h = ground arith

or-true_left : (a b : Bool) → a ≡ true → (a || b) ≡ true
or-true_left a b h = ground arith

or-true_right : (a b : Bool) → b ≡ true → (a || b) ≡ true
or-true_right a b h = ground arith

pub any-true_iff {ℓ} :
    {A : Type ℓ} (p : A → Bool) (P : A → Type 0)
    → ((a : A) → (p a ≡ true) ↔ P a)
    → (xs : List A) → (any p xs ≡ true) ↔ Any P xs
any-true_iff p P each [] = (λ h. absurd (cc h), λ h. absurd h)
any-true_iff p P each (x ∷ xs) =
    let (to, from) = any-true_iff p P each xs in
    (
      λ h. elim (or-true (p x) (any p xs) h) [
        | inl here ↦ inl ((each x).0 here)
        | inr later ↦ inr (to later)
      ],
      λ h. elim h [
        | inl here ↦ or-true_left (p x) (any p xs) ((each x).1 here)
        | inr later ↦ or-true_right (p x) (any p xs) (from later)
      ],
    )

is_subdomain_prefix-label :
    (o : Option Text)
    → is_subdomain_prefix o ≡ true
    → (label : Text) × (is_empty label ≡ false) × (o ≡ some (label ++ b'.' ∷ []))
unfolding is_subdomain_prefix
is_subdomain_prefix-label none h = absurd (cc h)
is_subdomain_prefix-label (some prefix) h =
    let (dotted, long) = and-true (ends_with b'.' prefix) _ h in
    let (label, same) = ends_with-eq b'.' prefix dotted in
    (label, long_nonempty label (rw (← same) long), ap some same)

label-is_subdomain_prefix :
    (label : Text) → is_empty label ≡ false → is_subdomain_prefix (some (label ++ b'.' ∷ [])) ≡ true
unfolding is_subdomain_prefix
label-is_subdomain_prefix label h =
    rw (ends_with-append b'.' label) (lt→ltb 1 _ (nonempty_long label h))

-- A host matches an allowed host exactly if it is this host or, where subdomains are included, it
-- is a nonempty text, a dot and this host: never a host that merely ends alike.
pub host_matches_iff :
    (host : Text) (include_subdomains : Bool) (allowed : Text)
    → (host_matches host include_subdomains allowed ≡ true)
      ↔ IsHostOrSubdomain host include_subdomains allowed
unfolding host_matches
host_matches_iff host include allowed = (to, from)
  where
    to : host_matches host include allowed ≡ true → IsHostOrSubdomain host include allowed
    to h = elim (or-true (eqb host allowed) _ h) [
      | inl same ↦ inl (eqb_iff_eq host allowed same)
      | inr below ↦
          let (included, prefixed) = and-true include _ below in
          let (label, some_label, e) =
            is_subdomain_prefix-label (strip_suffix allowed host) prefixed in
          let split = strip_suffix-eq allowed host _ e in
          inr (included, label, some_label, split ∙ append_assoc label (b'.' ∷ []) allowed)
    ]

    from : IsHostOrSubdomain host include allowed → host_matches host include allowed ≡ true
    from (inl same) = or-true_left (eqb host allowed) _ (eqb_of_eq host allowed same)
    from (inr (included, label, some_label, split)) =
        let dotted = label ++ b'.' ∷ [] in
        let stripped : strip_suffix allowed host ≡ some dotted =
          ap (strip_suffix allowed) (split ∙ sym (append_assoc label (b'.' ∷ []) allowed))
          ∙ strip_suffix-append_self allowed dotted in
        or-true_right (eqb host allowed) _
          (rw (included, stripped, label-is_subdomain_prefix label some_label) refl)

-- A host is allowed exactly if some allowed host, in normal form, is this host or has it below.
pub host_is_allowed_iff :
    (host : Text) (allowed_hosts : List Text) (include_subdomains : Bool)
    → (host_is_allowed host allowed_hosts include_subdomains ≡ true)
      ↔ Any
          (λ allowed. IsHostOrSubdomain host include_subdomains (normalize_host allowed))
          allowed_hosts
unfolding host_is_allowed
host_is_allowed_iff host hosts include =
    any-true_iff _ _ (λ allowed. host_matches_iff host include (normalize_host allowed)) hosts

starts_with_slash-eq :
    (o : Option Text) → starts_with_slash o ≡ true → (rest : Text) × (o ≡ some (b'/' ∷ rest))
starts_with_slash-eq none h = absurd (cc h)
starts_with_slash-eq (some s) h = let (rest, e) = starts_with-eq b'/' s h in (rest, ap some e)

slash_starts : (rest : Text) → starts_with_slash (some (b'/' ∷ rest)) ≡ true
unfolding starts_with
slash_starts rest = refl

abbrev without_slashes : Text → Text
without_slashes = trim_end_matches (λ c. c == b'/')

-- A path is allowed exactly if the prefix is a slash, or the path is the prefix without its last
-- slashes, or this and further segments.
pub path_is_allowed_iff :
    (path prefix : Text)
    → (path_is_allowed path prefix ≡ true)
      ↔ ((prefix ≡ b'/' ∷ []) ⊎ IsPathOrBelow path (trim_end_matches (λ c. c == b'/') prefix))
unfolding path_is_allowed
path_is_allowed_iff path prefix = (to, from)
  where
    to :
        path_is_allowed path prefix ≡ true
        → (prefix ≡ b'/' ∷ []) ⊎ IsPathOrBelow path (without_slashes prefix)
    to h = elim (Bool-cases (eqb prefix (b'/' ∷ []))) [
      | inl root ↦ inl (eqb_iff_eq prefix (b'/' ∷ []) root)
      | inr other ↦ elim (or-true (eqb path (without_slashes prefix)) _ (rw other at h)) [
        | inl same ↦ inr (inl (eqb_iff_eq path _ same))
        | inr below ↦
            let (rest, e) =
              starts_with_slash-eq (strip_prefix (without_slashes prefix) path) below in
            inr (inr (rest, strip_prefix-eq (without_slashes prefix) path _ e))
      ]
    ]

    allowed :
        IsPathOrBelow path (without_slashes prefix)
        → (eqb path (without_slashes prefix)
            || starts_with_slash (strip_prefix (without_slashes prefix) path))
          ≡ true
    allowed (inl same) = or-true_left (eqb path (without_slashes prefix)) _ (eqb_of_eq path _ same)
    allowed (inr (rest, split)) =
        let stripped : strip_prefix (without_slashes prefix) path ≡ some (b'/' ∷ rest) =
          ap (strip_prefix (without_slashes prefix)) split
          ∙ strip_prefix-append_self (without_slashes prefix) (b'/' ∷ rest) in
        or-true_right (eqb path (without_slashes prefix)) _ (rw (stripped, slash_starts rest) refl)

    from :
        (prefix ≡ b'/' ∷ []) ⊎ IsPathOrBelow path (without_slashes prefix)
        → path_is_allowed path prefix ≡ true
    from h = elim (Bool-cases (eqb prefix (b'/' ∷ []))) [
      | inl root ↦ rw root refl
      | inr other ↦ elim h [
        | inl root ↦ absurd (cc (other, eqb_of_eq prefix (b'/' ∷ []) root))
        | inr below ↦ rw other (allowed below)
      ]
    ]
