-- ===== src/Store/Ingest.antt =====
-- src/store.rs: `ingest_page`, one statement of seven parts.
pub mod Outcome
use eal_api.Prelude.{
  ℕ, Bool, true, false, not, ◌&&◌, Option, none, some, List, [], ◌∷◌, ◌++◌, map, keep, any, ◌==◌,
  if◌then◌else◌, ok, err,
}
use eal_api.Prelude.Ordered.{text_ord}
use eal_api.Prelude.TreeSet.{eqb}
use eal_api.Text.{Text}
use eal_api.Uuids.{Uuid}
use eal_api.HttpError
use eal_api.Floats.{Floats}
use eal_api.Headers.{first, as_bytes}
use eal_api.WorkerAuth.{Digests}
use eal_api.Contracts.{PageIngestRequest}
use eal_api.Store.Rows.{Time, PageRow, EmbeddingRow, Space, Store}
use eal_api.Store.Action.{Action, pure, or_raise, transaction, ◌>>=◌}
use eal_api.Store.Engine.{Numbers, Constraints}
use eal_api.Store.Encoders.{Encoders}
use eal_api.Store.Identity.{normalize_content, sha256_hex, vector_literal, space_of}
use eal_api.Store.Pages.{Visit, is_page, upserted_page, insert_page_revision, selected_revision}

pub record PageRevision : Type 0 where
  pub page_id : Uuid
  pub revision_id : Uuid
  pub embedding_id : Uuid
  pub source_id : Uuid
  pub tenant_id : Uuid
  pub canonical_url : Text
  pub content_sha256 : Text
  pub changed : Bool
  pub fetched_at : Time

abbrev pub same_space : Space → Space → Bool
same_space a b =
    eqb a.model b.model
    && (eqb a.model_version b.model_version
        && (a.dimensions == b.dimensions && eqb a.normalization b.normalization))

-- The unique columns of the embeddings.
abbrev is_embedding : Uuid → Uuid → Space → EmbeddingRow → Bool
is_embedding tenant_id revision_id space row =
    row.tenant_id == tenant_id && (row.revision_id == revision_id && same_space row.space space)

module _ {Single Double : Type 0} (constraints : Constraints Single Double) (visit : Visit)
    (space : Space) (vector : Text) where
  open constraints use {checks_embedding, admits_embedding, gen_random_uuid}

  abbrev embedding_row : Uuid → Uuid → EmbeddingRow
  embedding_row id revision_id = record {
    id = id;
    tenant_id = visit.tenant_id;
    revision_id = revision_id;
    space = space;
    embedding = vector;
    generated_at = visit.fetched_at;
  }

  -- `inserted_revision`: the page is joined with its row as it was when the statement began.
  abbrev pub inserted_revision : Uuid → Option PageRow → Action (Store Single Double) (Option Uuid)
  inserted_revision page_id none = pure none
  inserted_revision page_id (some current_page) =
      insert_page_revision constraints visit page_id current_page.latest_revision_id

  abbrev insert_embedding : Uuid → Action (Store Single Double) (Option Uuid)
  insert_embedding revision_id t =
      let row = embedding_row (gen_random_uuid t) revision_id in
      if not (checks_embedding t row)
      then (err HttpError.internal, t)
      else if any (is_embedding visit.tenant_id revision_id space) t.embeddings
      then (ok none, t)
      else if admits_embedding t row
      then (ok (some row.id), record t { embeddings = t.embeddings ++ (row ∷ []) })
      else (err HttpError.internal, t)

  abbrev pub inserted_embedding : Option (Uuid × Bool) → Action (Store Single Double) (Option Uuid)
  inserted_embedding none = pure none
  inserted_embedding (some (revision_id, _)) = insert_embedding revision_id

  abbrev pub embedding_id : Option EmbeddingRow → Option Uuid
  embedding_id none = none
  embedding_id (some row) = some row.id

  abbrev pub selected_embedding :
      Store Single Double → Option (Uuid × Bool) → Option Uuid → Option Uuid
  selected_embedding s none inserted = inserted
  selected_embedding s (some (revision_id, _)) (some id) = some id
  selected_embedding s (some (revision_id, _)) none =
      embedding_id (first (keep (is_embedding visit.tenant_id revision_id space) s.embeddings))

  -- The rows that `updated_page` updates: those with the page's identifier as they were when the
  -- statement began, but for rows that `upserted_page` has updated already, since a statement
  -- updates a row only once.
  abbrev pub to_update : Store Single Double → Uuid → List PageRow
  to_update s page_id = keep (λ row. row.id == page_id && not (is_page visit row)) s.pages

  abbrev set_latest : Uuid → Uuid → PageRow → PageRow
  set_latest page_id revision_id row =
      if row.id == page_id && not (is_page visit row)
      then record row {
        latest_revision_id = some revision_id;
        last_seen_at = visit.fetched_at;
        updated_at = visit.now;
      }
      else row

  abbrev pub updated_page :
      Store Single Double → Uuid → Option (Uuid × Bool) → Action (Store Single Double) (List Uuid)
  updated_page s page_id none t = (ok [], t)
  updated_page s page_id (some (revision_id, _)) t = (
    ok (map (λ row. row.id) (to_update s page_id)),
    record t { pages = map (set_latest page_id revision_id) t.pages },
  )

  -- The final SELECT: the CROSS JOIN of the three.
  abbrev pub ingested : List Uuid → Option (Uuid × Bool) → Option Uuid → Option PageRevision
  ingested [] revision embedding = none
  ingested (page_id ∷ _) none embedding = none
  ingested (page_id ∷ _) (some revision) none = none
  ingested (page_id ∷ _) (some (revision_id, changed)) (some embedding_id) = some (record {
    page_id = page_id;
    revision_id = revision_id;
    embedding_id = embedding_id;
    source_id = visit.source_id;
    tenant_id = visit.tenant_id;
    canonical_url = visit.canonical_url;
    content_sha256 = visit.content_sha256;
    changed = changed;
    fetched_at = visit.fetched_at;
  })

  abbrev pub the_page : Store Single Double → Uuid → Option PageRow
  the_page s page_id = first (keep (λ row. row.id == page_id) s.pages)

  -- A statement that fails writes nothing.
  unfoldable pub ingest_statement : Action (Store Single Double) (Option PageRevision)
  ingest_statement s =
      transaction
        (do
          page ← upserted_page constraints visit s
          inserted ← inserted_revision page.id (the_page s page.id)
          let revision = selected_revision visit s page.id inserted
          new_embedding ← inserted_embedding revision
          updated ← updated_page s page.id revision
          pure (ingested updated revision (selected_embedding s revision new_embedding)))
        s

module _ (floats : Floats) (numbers : Numbers floats)
    (constraints : Constraints (Floats.Single floats) (Floats.Double floats)) (digests : Digests)
    (encoders : Encoders) where
  abbrev pub visit_of :
      Time → Uuid → Uuid → PageIngestRequest (Floats.Single floats) → Text → Text → Visit
  visit_of now tenant_id source_id input canonical_original_url canonical_final_url =
      let normalized_content = normalize_content input.content_text in
      record {
        now = now;
        tenant_id = tenant_id;
        source_id = source_id;
        canonical_url = canonical_final_url;
        original_url = canonical_original_url;
        title = input.title;
        content_text = normalized_content;
        content_sha256 = sha256_hex digests encoders (as_bytes normalized_content);
        content_type = input.content_type;
        http_status = input.http_status;
        published_at = input.published_at;
        fetched_at = input.fetched_at;
      }

  unfoldable pub ingest_page :
      Time
      → Uuid
      → Uuid
      → PageIngestRequest (Floats.Single floats)
      → Text
      → Text
      → Action (Store (Floats.Single floats) (Floats.Double floats)) PageRevision
  ingest_page now tenant_id source_id input canonical_original_url canonical_final_url =
      ingest_statement constraints
        (visit_of now tenant_id source_id input canonical_original_url canonical_final_url)
        (space_of input.embedding) (vector_literal floats numbers input.embedding.values)
      >>= λ row. or_raise row HttpError.internal
