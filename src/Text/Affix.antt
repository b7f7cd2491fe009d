-- ===== src/Text/Affix.antt =====
-- Prefixes and suffixes of a text.
use eal_api.Prelude.{
  ℕ, ◌≡◌, refl, sym, ap, Bool, true, false, inl, inr, Option, none, some, [], ◌∷◌, ◌++◌, arith,
  Bool-cases, ◌==◌, if◌then◌else◌, is_empty, length, length-append,
}
use eal_api.Prelude.Ordered.{text_ord}
use eal_api.Prelude.TreeSet.{eqb, eqb_iff_eq, eqb_refl}
use eal_api.Text.{Text, strip_prefix}

-- `s.starts_with(c)` and `s.ends_with(c)`
unfoldable pub starts_with : ℕ → Text → Bool
starts_with c [] = false
starts_with c (d ∷ s) = d == c

unfoldable pub ends_with : ℕ → Text → Bool
ends_with c [] = false
ends_with c (d ∷ []) = d == c
ends_with c (d ∷ e ∷ s) = ends_with c (e ∷ s)

abbrev pub pushed : ℕ → Option Text → Option Text
pushed c none = none
pushed c (some s) = some (c ∷ s)

-- `s.strip_suffix(suffix)`
unfoldable pub strip_suffix : Text → Text → Option Text
strip_suffix suffix [] = if is_empty suffix then some [] else none
strip_suffix suffix (c ∷ s) =
    let rest = strip_suffix suffix s in if eqb suffix (c ∷ s) then some [] else pushed c rest

pub starts_with-eq : (c : ℕ) (s : Text) → starts_with c s ≡ true → (rest : Text) × (s ≡ c ∷ rest)
unfolding starts_with
starts_with-eq c [] h = absurd (cc h)
starts_with-eq c (d ∷ s) h = (s, ground arith)

pub ends_with-eq :
    (c : ℕ) (s : Text) → ends_with c s ≡ true → (front : Text) × (s ≡ front ++ c ∷ [])
unfolding ends_with
ends_with-eq c [] h = absurd (cc h)
ends_with-eq c (d ∷ []) h = ([], ground arith)
ends_with-eq c (d ∷ e ∷ s) h =
    let (front, same) = ends_with-eq c (e ∷ s) h in (d ∷ front, ap (◌∷◌ d) same)

pub ends_with-append : (c : ℕ) (front : Text) → ends_with c (front ++ c ∷ []) ≡ true
unfolding ends_with
ends_with-append c [] = ground arith
ends_with-append c (d ∷ []) = ground arith
ends_with-append c (d ∷ e ∷ s) = ends_with-append c (e ∷ s)

pub strip_prefix-eq :
    (prefix s rest : Text) → strip_prefix prefix s ≡ some rest → s ≡ prefix ++ rest
unfolding strip_prefix
strip_prefix-eq [] s rest h = cc h
strip_prefix-eq (a ∷ prefix) [] rest h = absurd (cc h)
strip_prefix-eq (a ∷ prefix) (c ∷ s) rest h = ground (arith, strip_prefix-eq prefix s rest)

pub strip_prefix-append_self :
    (prefix rest : Text) → strip_prefix prefix (prefix ++ rest) ≡ some rest
unfolding strip_prefix
strip_prefix-append_self [] rest = refl
strip_prefix-append_self (a ∷ prefix) rest = ground (arith, strip_prefix-append_self prefix rest)

pushed-eq :
    (c : ℕ) (o : Option Text) (s : Text)
    → pushed c o ≡ some s
    → (t : Text) × (o ≡ some t) × (s ≡ c ∷ t)
pushed-eq c none s h = absurd (cc h)
pushed-eq c (some t) s h = (t, refl, cc h)

pub strip_suffix-eq :
    (suffix s front : Text) → strip_suffix suffix s ≡ some front → s ≡ front ++ suffix
unfolding strip_suffix
strip_suffix-eq [] [] front h = cc h
strip_suffix-eq (a ∷ suffix) [] front h = absurd (cc h)
strip_suffix-eq suffix (c ∷ s) front h = elim (Bool-cases (eqb suffix (c ∷ s))) [
  | inl whole ↦
      let none_left : [] ≡ front = cc (rw whole at h) in
      rw (← none_left) (sym (eqb_iff_eq suffix (c ∷ s) whole))
  | inr shorter ↦
      let (t, e, same) = pushed-eq c (strip_suffix suffix s) front (rw shorter at h) in
      rw same (ap (◌∷◌ c) (strip_suffix-eq suffix s t e))
]

longer_differs : (suffix front : Text) (c : ℕ) → eqb suffix (c ∷ front ++ suffix) ≡ false
longer_differs suffix front c = elim (Bool-cases (eqb suffix (c ∷ front ++ suffix))) [
  | inl e ↦
      let same : length suffix ≡ length (c ∷ front ++ suffix) =
        ap length (eqb_iff_eq suffix (c ∷ front ++ suffix) e) in
      absurd (omega (arith, same, length-append front suffix))
  | inr n ↦ n
]

pub strip_suffix-append_self :
    (suffix front : Text) → strip_suffix suffix (front ++ suffix) ≡ some front
unfolding strip_suffix
strip_suffix-append_self [] [] = refl
strip_suffix-append_self (a ∷ suffix) [] = rw (eqb_refl (a ∷ suffix)) refl
strip_suffix-append_self suffix (c ∷ front) =
    rw (longer_differs suffix front c, strip_suffix-append_self suffix front) refl
