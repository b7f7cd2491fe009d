-- ===== src/Auth/Roles/WellFormed.antt =====
-- Role sets hold bounded lower-case identifiers, in order and once each.
use eal_api.Prelude.{
  ℕ, ◌≤◌, ◌≡◌, refl, true, false, not, ◌||◌, inl, inr, List, [], ◌∷◌, arith, Bool-cases, ltb,
  is_empty, all, All, ok, >>=-eq-ok, ok_or, map_err, map_err-eq-ok,
}
use eal_api.Prelude.Ordered.{text_ord}
use eal_api.Prelude.TreeSet.{insert, IsSorted, insert-IsSorted, insert-All}
use eal_api.Text.{Text, byte_length, trim, to_ascii_lowercase, ascii_lower}
use eal_api.Headers.{as_bytes}
use eal_api.Json.{Json, str, arr, items, as_str}
use eal_api.Auth.Roles.{
  is_role_byte, insert_role, insert_roles, parse_role_set, insert_json_roles, parsed_roles,
  parse_roles,
}

pub record IsRole (role : Text) : Type 0 where
  pub nonempty : is_empty role ≡ false
  pub bounded : byte_length role ≤ 80
  pub identifier : all is_role_byte (as_bytes role) ≡ true
  pub lower : to_ascii_lowercase role ≡ role

pub record IsRoleSet (roles : List Text) : Type 0 where
  pub sorted : IsSorted roles
  pub each : All IsRole roles

ascii_lower_idem : (c : ℕ) → ascii_lower (ascii_lower c) ≡ ascii_lower c
unfolding ascii_lower
ascii_lower_idem c = ground arith

to_ascii_lowercase_idem :
    (s : Text) → to_ascii_lowercase (to_ascii_lowercase s) ≡ to_ascii_lowercase s
unfolding to_ascii_lowercase
to_ascii_lowercase_idem [] = refl
to_ascii_lowercase_idem (c ∷ s) =
    unfold to_ascii_lowercase in ground (arith, ascii_lower_idem c, to_ascii_lowercase_idem s)

role_tests :
    (role : Text)
    → is_empty role ≡ false
    → (ltb 80 (byte_length role) || not (all is_role_byte (as_bytes role))) ≡ false
    → (byte_length role ≤ 80) × (all is_role_byte (as_bytes role) ≡ true)
role_tests role h k = ground arith

insert_role-IsRoleSet :
    (roles more : List Text) (raw : Text)
    → insert_role roles raw ≡ ok more
    → IsRoleSet roles
    → IsRoleSet more
unfolding insert_role
insert_role-IsRoleSet roles more raw h v =
    let role = to_ascii_lowercase (trim raw) in
    let test = ltb 80 (byte_length role) || not (all is_role_byte (as_bytes role)) in
    elim (Bool-cases (is_empty role)) [
      | inl blank ↦ let same : roles ≡ more = cc (rw blank at h) in rw (← same) v
      | inr some_role ↦ elim (Bool-cases test) [
        | inl bad ↦ absurd (cc (rw (some_role, bad) at h))
        | inr good ↦
            let same : insert role roles ≡ more = cc (rw (some_role, good) at h) in
            let (bounded, identifier) = role_tests role some_role good in
            let valid : IsRole role = record {
              nonempty = some_role;
              bounded = bounded;
              identifier = identifier;
              lower = to_ascii_lowercase_idem (trim raw);
            } in
            rw (← same) (record {
              sorted = insert-IsSorted role roles v.sorted;
              each = insert-All IsRole role roles valid v.each;
            })
      ]
    ]

insert_roles-IsRoleSet :
    (roles more values : List Text)
    → insert_roles roles values ≡ ok more
    → IsRoleSet roles
    → IsRoleSet more
unfolding insert_roles
insert_roles-IsRoleSet roles more [] h v = let same : roles ≡ more = cc h in rw (← same) v
insert_roles-IsRoleSet roles more (value ∷ values) h v =
    let (next, one, rest) = >>=-eq-ok (insert_role roles value) _ h in
    insert_roles-IsRoleSet next more values rest (insert_role-IsRoleSet roles next value one v)

-- A configured role list parses only to bounded lower-case identifiers, strictly increasing.
pub parse_role_set-IsRoleSet :
    (value : Text) (roles : List Text) → parse_role_set value ≡ ok roles → IsRoleSet roles
unfolding parse_role_set
parse_role_set-IsRoleSet value roles h =
    insert_roles-IsRoleSet [] roles _ h (record { sorted = tt; each = tt })

insert_json_roles-IsRoleSet :
    (roles more : List Text) (values : List Json)
    → insert_json_roles roles values ≡ ok more
    → IsRoleSet roles
    → IsRoleSet more
unfolding insert_json_roles
insert_json_roles-IsRoleSet roles more [] h v = let same : roles ≡ more = cc h in rw (← same) v
insert_json_roles-IsRoleSet roles more (value ∷ values) h v =
    let (role, _, h1) = >>=-eq-ok (ok_or (as_str value) tt) _ h in
    let (next, one, rest) = >>=-eq-ok (map_err (λ _. tt) (insert_role roles role)) _ h1 in
    insert_json_roles-IsRoleSet next more values rest
      (insert_role-IsRoleSet roles next role (map_err-eq-ok _ _ one) v)

parsed_roles-IsRoleSet :
    (value : Json) (roles : List Text) → parsed_roles value ≡ ok roles → IsRoleSet roles
unfolding parsed_roles
parsed_roles-IsRoleSet (str value) roles h =
    insert_roles-IsRoleSet [] roles _ (map_err-eq-ok _ _ h) (record { sorted = tt; each = tt })
parsed_roles-IsRoleSet (arr values) roles h =
    insert_json_roles-IsRoleSet [] roles (items values) h (record { sorted = tt; each = tt })
parsed_roles-IsRoleSet other roles h = absurd (cc h)

-- A role claim parses only to bounded lower-case identifiers, strictly increasing, of which there
-- is at least one.
pub parse_roles-IsRoleSet :
    (value : Json) (roles : List Text)
    → parse_roles value ≡ ok roles
    → IsRoleSet roles × (is_empty roles ≡ false)
unfolding parse_roles
parse_roles-IsRoleSet value roles h =
    let (parsed, e, last) = >>=-eq-ok (parsed_roles value) _ h in
    elim (Bool-cases (is_empty parsed)) [
      | inl blank ↦ absurd (cc (rw blank at last))
      | inr some_role ↦
          let same : parsed ≡ roles = cc (rw some_role at last) in
          rw (← same) (parsed_roles-IsRoleSet value parsed e, some_role)
    ]
