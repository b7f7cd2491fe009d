-- ===== src/Alerts/Lists.antt =====
-- Delivery channels in normal form.
use mathlib.Core.Bool.{◌||◌}
use eal_api.Prelude.{
  ℕ, ◌≤◌, ◌≡◌, refl, ap, ◌∙◌, false, List, [], ◌∷◌, map, arith, ltb, ltb-false→le, is_empty, length,
  All, All-map, any-false→All, ok, >>=-eq-ok, refuse-eq-ok,
}
use eal_api.Prelude.Ordered.{text_ord}
use eal_api.Prelude.TreeSet.{
  sort, dedup, from_list, IsSorted, from_list-IsSorted, from_list-eq_self,
}
use eal_api.Prelude.TreeSet.Laws.{dedup-sort, from_list-All}
use eal_api.Text.{Text, byte_length, trim}
use eal_api.Text.Trim.{trim_idem}
use eal_api.Alerts.{validate_list, normalize_list}

-- What a validated list of texts satisfies.
pub record IsBounded (max_items max_bytes : ℕ) (values : List Text) : Type 0 where
  pub few : length values ≤ max_items
  pub each : All (λ v. (is_empty v ≡ false) × (byte_length v ≤ max_bytes)) values

pub nonempty_bounded :
    (s : Text) (n : ℕ)
    → (is_empty s || ltb n (byte_length s)) ≡ false
    → (is_empty s ≡ false) × (byte_length s ≤ n)
nonempty_bounded s n h = ground arith

each_bounded :
    (n : ℕ) (vs : List Text)
    → All (λ v. (is_empty v || ltb n (byte_length v)) ≡ false) vs
    → All (λ v. (is_empty v ≡ false) × (byte_length v ≤ n)) vs
each_bounded n vs h = All-map (λ v. nonempty_bounded v n) vs h

pub validate_list-IsBounded :
    (vs : List Text) (items bytes : ℕ) (name : Text)
    → validate_list vs items bytes name ≡ ok tt
    → IsBounded items bytes vs
unfolding validate_list
validate_list-IsBounded vs items bytes name h =
    let (_, few, rest) = >>=-eq-ok _ _ h in
    let (_, each, _) = >>=-eq-ok _ _ rest in
    record {
      few = ltb-false→le items (length vs) (refuse-eq-ok _ _ few);
      each = each_bounded bytes vs (any-false→All _ vs (refuse-eq-ok _ _ each));
    }

All-trimmed : (vs : List Text) → All (λ v. trim v ≡ v) (map trim vs)
All-trimmed [] = tt
All-trimmed (v ∷ vs) = (trim_idem v, All-trimmed vs)

map-trim_trimmed : (vs : List Text) → All (λ v. trim v ≡ v) vs → map trim vs ≡ vs
map-trim_trimmed [] h = refl
map-trim_trimmed (v ∷ vs) h = ground (arith, h.0, map-trim_trimmed vs h.1)

sorted_again :
    (vs : List Text)
    → dedup (sort (map trim (dedup (sort (map trim vs))))) ≡ dedup (sort (map trim vs))
sorted_again vs =
    let set = from_list (map trim vs) in
    let trimmed = map-trim_trimmed set (from_list-All _ (map trim vs) (All-trimmed vs)) in
    rw (dedup-sort (map trim vs)) (
      dedup-sort (map trim set)
      ∙ ap from_list trimmed
      ∙ from_list-eq_self set (from_list-IsSorted (map trim vs)))

-- A normalised list is strictly increasing and bounded, and normalising it again changes nothing.
pub normalize_list-stable :
    (vs ws : List Text) (items bytes : ℕ) (name : Text)
    → normalize_list vs items bytes name ≡ ok ws
    → IsSorted ws
      × (validate_list ws items bytes name ≡ ok tt)
      × (normalize_list ws items bytes name ≡ ok ws)
unfolding normalize_list
normalize_list-stable vs ws items bytes name h =
    let (_, valid, last) = >>=-eq-ok _ _ h in
    let same : dedup (sort (map trim vs)) ≡ ws = cc last in
    rw (← same) (
      rw (dedup-sort (map trim vs)) (from_list-IsSorted (map trim vs)),
      valid,
      rw (sorted_again vs, valid),
    )
