-- ===== src/Store/Rows.antt =====
-- The rows of the tables, with the columns that the API reads or writes. `Single` and `Double` are
-- `real` and `double precision`; a vector is kept as the literal that it was cast from; a
-- timestamp is its number of microseconds.
use eal_api.Prelude.{ℕ, Bool, Option, List}
use eal_api.Text.{Text}
use eal_api.Uuids.{Uuid}

abbrev pub Time : Type 0
Time = ℕ

-- eal_alert_rules
pub record AlertRuleRow : Type 0 where
  pub id : Uuid
  pub tenant_id : Uuid
  pub owner_subject : Text
  pub active_revision_id : Option Uuid
  pub created_at : Time
  pub updated_at : Time

-- eal_alert_rule_revisions
pub record RuleRevisionRow (Single : Type 0) : Type 0 where
  pub id : Uuid
  pub tenant_id : Uuid
  pub alert_rule_id : Uuid
  pub revision_number : ℕ
  pub created_by_subject : Text
  pub name : Text
  pub query_text : Text
  pub embedding_model : Text
  pub similarity_threshold : Single
  pub source_filters : List Text
  pub delivery_channels : List Text
  pub enabled : Bool
  pub created_at : Time

-- eal_sources
pub record SourceRow : Type 0 where
  pub id : Uuid
  pub tenant_id : Uuid
  pub name : Text
  pub root_url : Text
  pub allowed_hosts : List Text
  pub allowed_path_prefixes : List Text
  pub include_subdomains : Bool
  pub discovery_modes : List Text
  pub crawl_interval_seconds : ℕ
  pub max_depth : ℕ
  pub max_pages_per_run : ℕ
  pub obey_robots : Bool
  pub enabled : Bool
  pub created_at : Time
  pub updated_at : Time

-- eal_pages
pub record PageRow : Type 0 where
  pub id : Uuid
  pub tenant_id : Uuid
  pub source_id : Uuid
  pub canonical_url : Text
  pub first_seen_at : Time
  pub last_seen_at : Time
  pub latest_revision_id : Option Uuid
  pub updated_at : Time

-- eal_page_revisions
pub record PageRevisionRow : Type 0 where
  pub id : Uuid
  pub tenant_id : Uuid
  pub page_id : Uuid
  pub predecessor_revision_id : Option Uuid
  pub original_url : Text
  pub final_url : Text
  pub title : Option Text
  pub content_text : Text
  pub content_sha256 : Text
  pub content_type : Text
  pub http_status : ℕ
  pub published_at : Option Time
  pub fetched_at : Time

-- A model space, as the columns of both tables of embeddings spell it.
pub record Space : Type 0 where
  pub model : Text
  pub model_version : Text
  pub dimensions : ℕ
  pub normalization : Text

-- eal_embeddings
pub record EmbeddingRow : Type 0 where
  pub id : Uuid
  pub tenant_id : Uuid
  pub revision_id : Uuid
  pub space : Space
  pub embedding : Text
  pub generated_at : Time

-- eal_alert_rule_embeddings
pub record RuleEmbeddingRow : Type 0 where
  pub id : Uuid
  pub tenant_id : Uuid
  pub alert_rule_id : Uuid
  pub alert_rule_revision_id : Uuid
  pub space : Space
  pub embedding : Text
  pub embedding_sha256 : Text
  pub generated_at : Time

-- What a match rests on: `historical_page_search` binds a stored embedding of the page,
-- `reverse_alert_stream` one of the rule, with the digest and the space of the page's vector.
pub data Evidence : Type 0 where
  historical_page_search : Uuid → Evidence
  reverse_alert_stream : Uuid → Text → Space → Evidence

-- eal_match_candidates
pub record MatchRow (Double : Type 0) : Type 0 where
  pub id : Uuid
  pub tenant_id : Uuid
  pub alert_rule_id : Uuid
  pub alert_rule_revision_id : Uuid
  pub revision_id : Uuid
  pub evidence : Evidence
  pub canonical_match_key : Text
  pub similarity : Double
  pub threshold : Double

pub record Store (Single Double : Type 0) : Type 0 where
  pub rules : List AlertRuleRow
  pub rule_revisions : List (RuleRevisionRow Single)
  pub sources : List SourceRow
  pub pages : List PageRow
  pub page_revisions : List PageRevisionRow
  pub embeddings : List EmbeddingRow
  pub rule_embeddings : List RuleEmbeddingRow
  pub matches : List (MatchRow Double)
