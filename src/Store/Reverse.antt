-- ===== src/Store/Reverse.antt =====
-- src/reverse_match.rs: a page that was just fetched is matched against the stored embeddings of
-- the alert rules; its own vector is not stored.
pub mod Embeddings
pub mod Revision
pub mod Stream
pub mod Bounds
pub mod Keeps
pub mod Atomic
use eal_api.Prelude.{
  ℕ, suc, Bool, true, false, not, ◌&&◌, ◌||◌, Option, none, some, List, [], ◌∷◌, ◌++◌, map, keep,
  take, any, leb, ltb, ◌==◌, if◌then◌else◌, is_empty, in_range, ok, err, Result, ensure, ◌>>=◌,
  ◌>>◌,
}
use eal_api.Prelude.Ordered.{text_ord}
use eal_api.Prelude.TreeSet.{eqb}
use eal_api.Text.{Text, text}
use eal_api.Uuids.{Uuid, Uuids}
use eal_api.HttpError
use eal_api.HttpError.{HttpError}
use eal_api.Floats.{Floats}
use eal_api.Headers.{first, as_bytes}
use eal_api.WorkerAuth.{Digests}
use eal_api.Alerts.{decimal}
use eal_api.Contracts.{EmbeddingPayload, PageIngestRequest, Contracts}
use eal_api.Store.Rows.{
  Time, AlertRuleRow, RuleRevisionRow, PageRow, PageRevisionRow, RuleEmbeddingRow, Space, Evidence,
  historical_page_search, reverse_alert_stream, MatchRow, Store,
}
use eal_api.Store.Action.{
  Action, pure, gets, lift, modify, or_raise, require, transaction, for_each,
}
use eal_api.Store.Order.{order_by, join_on}
use eal_api.Store.Engine.{Numbers, Constraints}
use eal_api.Store.Encoders.{Encoders}
use eal_api.Store.Rules.{is_active}
use eal_api.Store.Identity.{
  normalize_content, sha256_hex, embedding_sha256, vector_literal, space_of, MatchIdentity,
  match_key,
}
use eal_api.Store.Pages.{Visit, upserted_page, insert_page_revision, selected_revision}
use eal_api.Store.Ingest.{same_space}
use eal_api.Store.Matches.{insert_match, selected_match}

abbrev max_candidates_limit : ℕ
max_candidates_limit = 500

abbrev default_max_candidates : ℕ
default_max_candidates = 100

pub record AlertRuleEmbeddingUpsertRequest (Single : Type 0) : Type 0 where
  pub alert_rule_revision_id : Uuid
  pub embedding : EmbeddingPayload Single

pub record AlertRuleEmbeddingReceipt : Type 0 where
  pub id : Uuid
  pub alert_rule_id : Uuid
  pub alert_rule_revision_id : Uuid
  pub embedding_sha256 : Text
  pub created : Bool

-- The request is the page and the bound of the candidates.
pub record ReverseAlertPageRequest (Single : Type 0) : Type 0 where
  pub page : PageIngestRequest Single
  pub max_candidates : ℕ

pub record ReverseAlertCandidate (Double : Type 0) : Type 0 where
  pub id : Uuid
  pub alert_rule_id : Uuid
  pub alert_rule_revision_id : Uuid
  pub page_revision_id : Uuid
  pub alert_embedding_id : Uuid
  pub similarity : Double
  pub threshold : Double
  pub canonical_match_key : Text

pub record ReverseAlertMatchResponse (Double : Type 0) : Type 0 where
  pub page_id : Uuid
  pub page_revision_id : Uuid
  pub content_sha256 : Text
  pub changed : Bool
  pub page_vector_persisted : Bool
  pub candidates : List (ReverseAlertCandidate Double)

pub record PageWire : Type 0 where
  pub page_id : Uuid
  pub page_revision_id : Uuid
  pub content_sha256 : Text
  pub changed : Bool

pub record CandidateWire (Double : Type 0) : Type 0 where
  pub alert_rule_id : Uuid
  pub alert_rule_revision_id : Uuid
  pub alert_embedding_id : Uuid
  pub similarity : Double
  pub threshold : Double

-- The unique columns of the rules' embeddings.
abbrev pub is_rule_embedding : Uuid → Uuid → Space → RuleEmbeddingRow → Bool
is_rule_embedding tenant_id revision_id space row =
    row.tenant_id == tenant_id
    && (row.alert_rule_revision_id == revision_id && same_space row.space space)

-- A row of the join of an embedding with its rule and the rule's revision.
abbrev pub Watched : Type 0 → Type 0
Watched Single = (RuleEmbeddingRow × AlertRuleRow) × RuleRevisionRow Single

-- What a match of a stream rests on.
abbrev pub is_stream_evidence : Uuid → Text → Space → Evidence → Bool
is_stream_evidence embedding_id digest space (historical_page_search _) = false
is_stream_evidence embedding_id digest space (reverse_alert_stream id vector_sha256 vector_space) =
    id == embedding_id && (eqb vector_sha256 digest && same_space vector_space space)

-- `rule.active_revision_id = embedding.alert_rule_revision_id`
abbrev pub is_current : Uuid → Option Uuid → Bool
is_current id none = false
is_current id (some active) = active == id

abbrev pub is_active_of : RuleEmbeddingRow → AlertRuleRow → Bool
is_active_of embedding rule =
    rule.tenant_id == embedding.tenant_id
    && (rule.id == embedding.alert_rule_id
        && is_current embedding.alert_rule_revision_id rule.active_revision_id)

module _ {Single Double : Type 0} (contracts : Contracts Single Double) where
  unfoldable pub validate_upsert : AlertRuleEmbeddingUpsertRequest Single → Result Text (Unit {0})
  validate_upsert request = contracts.validate_embedding request.embedding

  unfoldable pub validate_page_request : ReverseAlertPageRequest Single → Result Text (Unit {0})
  validate_page_request request = do
    contracts.validate_page request.page
    ensure (in_range 1 max_candidates_limit request.max_candidates)
        (text "max_candidates must be between 1 and " ++ decimal max_candidates_limit)
