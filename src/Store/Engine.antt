-- ===== src/Store/Engine.antt =====
-- What the statements take from the machine and from PostgreSQL with pgvector: arithmetic on
-- `f32` and `f64`, distances of vectors, generated identifiers, and the constraints and triggers
-- of the migrations.
use eal_api.Prelude.{ℕ, ◌≤◌, ◌<◌, ◌≡◌, Bool, true, not, all, ◌==◌}
use eal_api.Text.{Text}
use eal_api.Uuids.{Uuid}
use eal_api.Floats.{Floats}
use eal_api.Store.Rows.{
  AlertRuleRow, RuleRevisionRow, SourceRow, PageRow, PageRevisionRow, EmbeddingRow,
  RuleEmbeddingRow, MatchRow, Store,
}

pub record Numbers (floats : Floats) : Type 0 where
  -- `f64::from(x)`, `x as f64` and `x::double precision`
  pub widen : Floats.Single floats → Floats.Double floats
  -- `x as f32`
  pub narrow : Floats.Double floats → Floats.Single floats
  -- `x.is_finite()`
  pub double_is_finite : Floats.Double floats → Bool
  -- `a <= b` and `a < b` of Rust, false where either is not a number
  pub double_le : Floats.Double floats → Floats.Double floats → Bool
  pub double_lt : Floats.Double floats → Floats.Double floats → Bool
  pub double_zero : Floats.Double floats
  pub double_one : Floats.Double floats
  -- `a.max(b)`
  pub double_max : Floats.Double floats → Floats.Double floats → Floats.Double floats
  pub single_max : Floats.Single floats → Floats.Single floats → Floats.Single floats
  -- `x == 0.0`, true of both zeros
  pub single_is_zero : Floats.Single floats → Bool
  -- `x.to_bits()`
  pub single_bits : Floats.Single floats → ℕ
  -- `format!("{x}")`
  pub display_single : Floats.Single floats → Text
  -- What `serde_json` reads back of the JSON that PostgreSQL writes for a number: without its
  -- feature `float_roundtrip` the reading may be off in the last place.
  pub from_json : Floats.Double floats → Floats.Double floats
  -- PostgreSQL orders `double precision` totally, so that a value has its place in this order.
  pub rank : Floats.Double floats → ℕ
  -- `1.0 - x`
  pub one_minus : Floats.Double floats → Floats.Double floats
  -- `CAST(a AS vector) <=> CAST(b AS vector)`
  pub cosine_distance : Text → Text → Floats.Double floats
  -- On numbers the order of PostgreSQL is that of the machine, and a maximum is above both.
  pub rank-double_lt : (a b : Floats.Double floats) → double_lt a b ≡ true → rank a < rank b
  pub rank-double_max :
      (a b : Floats.Double floats)
      → double_is_finite a ≡ true
      → double_is_finite b ≡ true
      → (rank a ≤ rank (double_max a b)) × (rank b ≤ rank (double_max a b))

-- Whether an INSERT of a row, or an UPDATE to it, goes through: a statement that violates a
-- constraint, or that a trigger or the connection refuses, is an error of the driver. Of the
-- constraints only the primary keys are named as laws.
pub record Constraints (Single Double : Type 0) : Type 0 where
  -- What PostgreSQL asks of a proposed row before it looks for a conflict: CHECK and NOT NULL, and
  -- the triggers BEFORE INSERT.
  pub checks_source : Store Single Double → SourceRow → Bool
  pub checks_page : Store Single Double → PageRow → Bool
  pub checks_page_revision : Store Single Double → PageRevisionRow → Bool
  pub checks_embedding : Store Single Double → EmbeddingRow → Bool
  pub checks_rule_embedding : Store Single Double → RuleEmbeddingRow → Bool
  pub checks_match : Store Single Double → MatchRow Double → Bool
  pub admits_rule : Store Single Double → AlertRuleRow → Bool
  pub admits_rule_revision : Store Single Double → RuleRevisionRow Single → Bool
  pub admits_activation : Store Single Double → AlertRuleRow → Bool
  pub admits_source : Store Single Double → SourceRow → Bool
  pub admits_page : Store Single Double → PageRow → Bool
  pub admits_page_revision : Store Single Double → PageRevisionRow → Bool
  pub admits_embedding : Store Single Double → EmbeddingRow → Bool
  pub admits_rule_embedding : Store Single Double → RuleEmbeddingRow → Bool
  pub admits_match : Store Single Double → MatchRow Double → Bool
  -- `gen_random_uuid()`, the default of an `id`
  pub gen_random_uuid : Store Single Double → Uuid
  pub admits_rule-fresh :
      (s : Store Single Double) (row : AlertRuleRow)
      → admits_rule s row ≡ true
      → all (λ old. not (old.id == row.id)) s.rules ≡ true
  pub admits_rule_revision-fresh :
      (s : Store Single Double) (row : RuleRevisionRow Single)
      → admits_rule_revision s row ≡ true
      → all (λ old. not (old.id == row.id)) s.rule_revisions ≡ true
  pub admits_source-fresh :
      (s : Store Single Double) (row : SourceRow)
      → admits_source s row ≡ true
      → all (λ old. not (old.id == row.id)) s.sources ≡ true
  pub admits_page-fresh :
      (s : Store Single Double) (row : PageRow)
      → admits_page s row ≡ true
      → all (λ old. not (old.id == row.id)) s.pages ≡ true
