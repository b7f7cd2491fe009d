-- ===== src/Tests/Tables.antt =====
-- A small database: numbers in hundredths, constraints that keep the primary keys, and encoders
-- that can be read back.
use eal_api.Prelude.{
  ℕ, zero, suc, ◌≤◌, ◌<◌, ◌≡◌, refl, ap, true, not, some, List, [], ◌∷◌, all, arith, ltb, leb,
  length, ◌+◌, ◌-◌, ◌==◌, if◌then◌else◌, ok,
}
use eal_api.Prelude.Ordered.{nat_ord, text_ord}
use eal_api.Text.{Text}
use eal_api.Headers.{Bytes}
use eal_api.Embedding.{VectorNormalization}
use eal_api.Contracts.{Contracts}
use eal_api.Store.Rows.{Store}
use eal_api.Store.Engine.{Numbers, Constraints}
use eal_api.Store.Encoders.{Encoders}
use eal_api.Tests.Instances.{hundredths}

abbrev larger : ℕ → ℕ → ℕ
larger a b = if leb a b then b else a

pub below : (a b : ℕ) → ltb a b ≡ true → a < b
below a b h = ground arith

pub above : (a b : ℕ) → (a ≤ larger a b) × (b ≤ larger a b)
above a b = (ground arith, ground arith)

-- Two vectors are near when their texts have one length.
unfoldable pub numbers : Numbers hundredths
numbers = record {
  widen = λ n. n;
  narrow = λ n. n;
  double_is_finite = λ n. true;
  double_le = leb;
  double_lt = ltb;
  double_zero = 0;
  double_one = 100;
  double_max = larger;
  single_max = larger;
  single_is_zero = λ n. n == 0;
  single_bits = λ n. n;
  display_single = λ n. n ∷ [];
  from_json = λ n. n;
  rank = λ n. n;
  one_minus = λ n. 100 - n;
  cosine_distance = λ a b. if length a == length b then 0 else 40;
  rank-double_lt = below;
  rank-double_max = λ a b h k. above a b;
}

unfoldable pub constraints : Constraints ℕ ℕ
constraints = record {
  checks_source = λ s row. leb row.max_depth 16;
  checks_page = λ s row. true;
  checks_page_revision = λ s row. true;
  checks_embedding = λ s row. true;
  checks_rule_embedding = λ s row. true;
  checks_match = λ s row. true;
  admits_rule = λ s row. all (λ old. not (old.id == row.id)) s.rules;
  admits_rule_revision = λ s row. all (λ old. not (old.id == row.id)) s.rule_revisions;
  admits_activation = λ s row. true;
  admits_source = λ s row. all (λ old. not (old.id == row.id)) s.sources;
  admits_page = λ s row. all (λ old. not (old.id == row.id)) s.pages;
  admits_page_revision = λ s row. true;
  admits_embedding = λ s row. true;
  admits_rule_embedding = λ s row. true;
  admits_match = λ s row. true;
  gen_random_uuid = λ s.
      20 + (length s.sources + (length s.pages + (length s.page_revisions + length s.matches)));
  admits_rule-fresh = λ s row h. h;
  admits_rule_revision-fresh = λ s row h. h;
  admits_source-fresh = λ s row h. h;
  admits_page-fresh = λ s row h. h;
}

-- Texts one after the other, each with a zero behind it.
unfoldable pub joined : List Text → Bytes
joined [] = []
joined ([] ∷ rest) = 0 ∷ joined rest
joined ((c ∷ s) ∷ rest) = suc c ∷ joined (s ∷ rest)

abbrev prepend : ℕ → List Text → List Text
prepend c [] = []
prepend c (s ∷ rest) = (c ∷ s) ∷ rest

unfoldable separated : Bytes → List Text
separated [] = []
separated (zero ∷ bytes) = [] ∷ separated bytes
separated (suc c ∷ bytes) = prepend c (separated bytes)

separated-joined : (texts : List Text) → separated (joined texts) ≡ texts
unfolding separated joined
separated-joined [] = refl
separated-joined ([] ∷ rest) = ap (λ r. [] ∷ r) (separated-joined rest)
separated-joined ((c ∷ s) ∷ rest) = ap (prepend c) (separated-joined (s ∷ rest))

pub joined-injective : (a b : List Text) → joined a ≡ joined b → a ≡ b
joined-injective a b h = cc (separated-joined a, separated-joined b, ap separated h)

unfoldable pub encoders : Encoders
unfolding joined
encoders = record {
  hex_encode = λ bytes. bytes;
  json_strings = joined;
  hex_encode-injective = λ a b h. h;
  json_strings-injective = joined-injective;
}

unfoldable pub contracts : Contracts ℕ ℕ
contracts = record {
  validate_embedding = λ payload. ok tt;
  validate_page = λ page. ok tt;
  validate_search = λ search. ok tt;
  validate_source = λ policy. ok tt;
  read_normalization = λ name. some VectorNormalization.l2;
}

unfoldable pub no_rows : Store ℕ ℕ
no_rows = record {
  rules = [];
  rule_revisions = [];
  sources = [];
  pages = [];
  page_revisions = [];
  embeddings = [];
  rule_embeddings = [];
  matches = [];
}
