-- ===== src/Auth/Credentials/Agreement.antt =====
-- Every credential of a request names the same token, or the request is refused.
use eal_api.Prelude.{
  ◌≤◌, ◌≡◌, refl, sym, ap, ◌∙◌, false, ◌⊎◌, inl, inr, Option, none, some, List, [], ◌∷◌, arith,
  ◌==◌, Bool-cases, Option-cases, ltb, ltb-false→le, is_empty, length, All, All-map, ok, >>=-eq-ok,
  refuse-then, ok_or-then,
}
use eal_api.Prelude.Ordered.{text_ord}
use eal_api.Prelude.TreeSet.{eqb, eqb_iff_eq, eqb_refl}
use eal_api.Text.{Text, text, trim, split, split_once}
use eal_api.Headers
use eal_api.Headers.{HeaderMap, HeaderText, HeaderValue}
use eal_api.Auth.Credentials.{
  agreeing, cookie_pair, cookie_pairs, choose_token, cookie_headers, cookie_token,
  authorization_token, extract_token,
}

-- A `name=value` pair of a Cookie header.
abbrev pub Names : Text → Text → Text → Type 0
Names cookie_name pair value = split_once b'=' (trim pair) ≡ some (cookie_name, value)

-- A pair with the cookie's name holds the token that was found, which is not empty.
abbrev pub Agrees : Text → Option Text → Text → Type 0
Agrees cookie_name found pair =
    (value : Text) → Names cookie_name pair value → (found ≡ some value) × (is_empty value ≡ false)

-- What one round of a loop has found stays.
abbrev Keeps : Option Text → Option Text → Type 0
Keeps found next = (found ≡ none) ⊎ (found ≡ next)

Keeps-trans : (a b c : Option Text) → Keeps a b → Keeps b c → Keeps a c
Keeps-trans a b c h k = ground arith

Agrees-Keeps :
    (name pair : Text) (a b : Option Text) → Keeps a b → Agrees name a pair → Agrees name b pair
Agrees-Keeps name pair a b k h value named =
    let (found, filled) = h value named in (ground arith, filled)

agreeing-Keeps :
    (found next : Option Text) (value : Text)
    → agreeing found value ≡ ok next
    → Keeps found next × (next ≡ some value)
unfolding agreeing
agreeing-Keeps none next value h = (inl refl, ground arith)
agreeing-Keeps (some existing) next value h = ground (arith, eqb_iff_eq existing value)

cookie_pair-Agrees :
    (name pair : Text) (found next : Option Text)
    → cookie_pair name found pair ≡ ok next
    → Keeps found next × Agrees name next pair
unfolding cookie_pair
cookie_pair-Agrees name pair found next h = elim (Option-cases (split_once b'=' (trim pair))) [
  | inl absent ↦ (inr (ground arith), λ value named. absurd (cc (absent, named)))
  | inr ((key, given), present) ↦ elim (Bool-cases (eqb key name)) [
    | inr other ↦ (
      inr (ground arith),
      λ value named. absurd (cc (other, eqb_refl name, ap first_of_pair (sym present ∙ named))),
    )
    | inl same ↦ elim (Bool-cases (is_empty given)) [
      | inl blank ↦ absurd (cc (rw (present, same, blank, cookie_pair) at h))
      | inr filled ↦
          let (kept, taken) =
            agreeing-Keeps found next given (rw (present, same, filled, cookie_pair) at h) in
          (kept, λ value named. (ground arith, ground arith))
    ]
  ]
]
  where
    first_of_pair : Option (Text × Text) → Text
    first_of_pair none = []
    first_of_pair (some (a, b)) = a

cookie_pairs-Agrees :
    (name : Text) (found last : Option Text) (pairs : List Text)
    → cookie_pairs name found pairs ≡ ok last
    → Keeps found last × All (Agrees name last) pairs
unfolding cookie_pairs
cookie_pairs-Agrees name found last [] h = (inr (ground arith), tt)
cookie_pairs-Agrees name found last (pair ∷ pairs) h =
    let (next, here, rest) = >>=-eq-ok (cookie_pair name found pair) _ h in
    let (kept, agrees) = cookie_pair-Agrees name pair found next here in
    let (later, all_agree) = cookie_pairs-Agrees name next last pairs rest in
    (
      Keeps-trans found next last kept later,
      (Agrees-Keeps name pair next last later agrees, all_agree),
    )

module _ (to_str : HeaderText) where
  -- All the pairs of one Cookie header.
  abbrev pub HeaderAgrees : Text → Option Text → HeaderValue → Type 0
  HeaderAgrees name found header =
      (value : Text) × (to_str header ≡ some value)
      × All (Agrees name found) (split (λ c. c == b';') value)

  HeaderAgrees-Keeps :
      (name : Text) (a b : Option Text) (headers : HeaderValue)
      → Keeps a b
      → HeaderAgrees name a headers
      → HeaderAgrees name b headers
  HeaderAgrees-Keeps name a b header k (value, readable, pairs) =
      (value, readable, All-map (λ pair. Agrees-Keeps name pair a b k) _ pairs)

  cookie_headers-Agrees :
      (name : Text) (found last : Option Text) (headers : List HeaderValue)
      → cookie_headers to_str name found headers ≡ ok last
      → Keeps found last × All (HeaderAgrees name last) headers
  unfolding cookie_headers
  cookie_headers-Agrees name found last [] h = (inr (ground arith), tt)
  cookie_headers-Agrees name found last (header ∷ headers) h =
      let (value, readable, h1) = ok_or-then (to_str header) _ _ h in
      let (next, here, rest) =
        >>=-eq-ok (cookie_pairs name found (split (λ c. c == b';') value)) _ h1 in
      let (kept, agrees) = cookie_pairs-Agrees name found next _ here in
      let (later, all_agree) = cookie_headers-Agrees name next last headers rest in
      (
        Keeps-trans found next last kept later,
        (HeaderAgrees-Keeps name next last header later (value, readable, agrees), all_agree),
      )

  -- A token comes from one Authorization header, from the cookie, or from both alike.
  pub record IsAgreed (headers : HeaderMap) (cookie_name token : Text) : Type 0 where
    pub single : length (headers (text "authorization")) ≤ 1
    pub bearer : Option Text
    pub bearer_read :
        authorization_token to_str (Headers.first (headers (text "authorization"))) ≡ ok bearer
    pub bearer_agrees : (bearer ≡ none) ⊎ (bearer ≡ some token)
    pub cookie : Option Text
    pub cookie_agrees : (cookie ≡ none) ⊎ (cookie ≡ some token)
    pub given : (bearer ≡ some token) ⊎ (cookie ≡ some token)
    pub pairs_agree : All (HeaderAgrees cookie_name cookie) (headers (text "cookie"))

  choose_token-eq-ok :
      (bearer cookie : Option Text) (token : Text)
      → choose_token bearer cookie ≡ ok token
      → ((bearer ≡ none) ⊎ (bearer ≡ some token))
        × ((cookie ≡ none) ⊎ (cookie ≡ some token))
        × ((bearer ≡ some token) ⊎ (cookie ≡ some token))
  unfolding choose_token
  choose_token-eq-ok (some a) (some b) token h = ground (arith, eqb_iff_eq a b)
  choose_token-eq-ok (some a) none token h = ground arith
  choose_token-eq-ok none (some b) token h = ground arith
  choose_token-eq-ok none none token h = absurd (cc h)

  -- A request yields a token only if it has at most one Authorization header, and that header and
  -- every cookie of the configured name, in every Cookie header, give this same token, no such
  -- cookie being empty.
  pub extract_token-IsAgreed :
      (headers : HeaderMap) (cookie_name token : Text)
      → extract_token to_str headers cookie_name ≡ ok token
      → IsAgreed headers cookie_name token
  unfolding extract_token cookie_token
  extract_token-IsAgreed headers cookie_name token h =
      let values = headers (text "authorization") in
      let (few, h1) = refuse-then (ltb 1 (length values)) _ _ h in
      let (bearer, read, h2) = >>=-eq-ok (authorization_token to_str (Headers.first values)) _ h1 in
      let (cookie, found, last) =
        >>=-eq-ok (cookie_headers to_str cookie_name none (headers (text "cookie"))) _ h2 in
      let (bearer_agrees, cookie_agrees, given) = choose_token-eq-ok bearer cookie token last in
      record {
        single = ltb-false→le 1 (length values) few;
        bearer = bearer;
        bearer_read = read;
        bearer_agrees = bearer_agrees;
        cookie = cookie;
        cookie_agrees = cookie_agrees;
        given = given;
        pairs_agree = (cookie_headers-Agrees cookie_name none cookie _ found).1;
      }
