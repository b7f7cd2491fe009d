-- ===== src/Store/Search.antt =====
-- src/store.rs: `search_embeddings`, the nearest stored pages of a tenant, a page of them at a
-- time.
pub mod Pages
use eal_api.Prelude.{
  ℕ, suc, Bool, true, false, not, ◌&&◌, ◌||◌, Option, none, some, List, [], ◌∷◌, map, keep, take,
  any, length, ltb, leb, ◌==◌, if◌then◌else◌, is_empty, Result, ok, err, collect,
}
use eal_api.Prelude.Ordered.{text_ord}
use eal_api.Prelude.TreeSet.{eqb}
use eal_api.Text.{Text}
use eal_api.Uuids.{Uuid}
use eal_api.HttpError
use eal_api.HttpError.{HttpError}
use eal_api.Floats.{Floats}
use eal_api.Embedding.{VectorNormalization}
use eal_api.Contracts.{EmbeddingSearchRequest, SearchCursor, Contracts}
use eal_api.Store.Rows.{Time, EmbeddingRow, PageRevisionRow, PageRow, Store}
use eal_api.Store.Action.{Action, gets, lift, pure, ◌>>=◌}
use eal_api.Store.Order.{order_by, join_on}
use eal_api.Store.Order.Paging.{last}
use eal_api.Store.Engine.{Numbers}
use eal_api.Store.Identity.{space_of, vector_literal}
use eal_api.Store.Ingest.{same_space}

pub record EmbeddingSearchHit (Double : Type 0) : Type 0 where
  pub embedding_id : Uuid
  pub revision_id : Uuid
  pub page_id : Uuid
  pub source_id : Uuid
  pub canonical_url : Text
  pub title : Option Text
  pub excerpt : Text
  pub similarity : Double
  pub distance : Double
  pub model : Text
  pub model_version : Text
  pub dimensions : ℕ
  pub normalization : VectorNormalization
  pub fetched_at : Time

pub record SearchRecord (Double : Type 0) : Type 0 where
  pub hit : EmbeddingSearchHit Double
  pub content_sha256 : Text

pub record EmbeddingSearchResponse (Double : Type 0) : Type 0 where
  pub hits : List (EmbeddingSearchHit Double)
  pub next_cursor : Option (SearchCursor Double)

pub record SearchPage (Double : Type 0) : Type 0 where
  pub response : EmbeddingSearchResponse Double
  pub records : List (SearchRecord Double)

-- An embedding with its revision and its page.
abbrev pub Joined : Type 0
Joined = (EmbeddingRow × PageRevisionRow) × PageRow

abbrev pub has_revision : EmbeddingRow → PageRevisionRow → Bool
has_revision embedding revision =
    revision.id == embedding.revision_id && revision.tenant_id == embedding.tenant_id

abbrev pub has_page : EmbeddingRow × PageRevisionRow → PageRow → Bool
has_page (_, revision) page = page.id == revision.page_id && page.tenant_id == revision.tenant_id

-- `source_clause`: no source means any.
abbrev in_sources : List Uuid → Uuid → Bool
in_sources source_ids id = is_empty source_ids || any (λ source_id. id == source_id) source_ids

module _ (floats : Floats) (numbers : Numbers floats)
    (contracts : Contracts (Floats.Single floats) (Floats.Double floats)) where
  open numbers use {rank, widen, one_minus, cosine_distance, double_is_finite, from_json}
  open contracts use {read_normalization}

  abbrev pub SearchRequest : Type 0
  SearchRequest = EmbeddingSearchRequest (Floats.Single floats) (Floats.Double floats)

  abbrev pub distance_of : SearchRequest → Joined → Floats.Double floats
  distance_of request ((embedding, _), _) =
      cosine_distance embedding.embedding (vector_literal floats numbers request.embedding.values)

  -- The WHERE of `ranked` and of `filtered`.
  abbrev pub is_ranked : Uuid → SearchRequest → Joined → Bool
  is_ranked tenant_id request ((embedding, _), page) =
      embedding.tenant_id == tenant_id
      && (same_space embedding.space (space_of request.embedding)
          && in_sources request.source_ids page.source_id)

  abbrev pub is_similar : SearchRequest → Joined → Bool
  is_similar request row =
      leb (rank (widen request.min_similarity)) (rank (one_minus (distance_of request row)))

  unfoldable pub filtered :
      Uuid → SearchRequest → Store (Floats.Single floats) (Floats.Double floats) → List Joined
  filtered tenant_id request s =
      keep (λ row. is_ranked tenant_id request row && is_similar request row)
        (join_on has_page (join_on has_revision s.embeddings s.page_revisions) s.pages)

  -- `ORDER BY distance ASC, embedding_id ASC`
  abbrev pub nearer : SearchRequest → Joined → Joined → Bool
  nearer request a b =
      ltb (rank (distance_of request a)) (rank (distance_of request b))
      || (rank (distance_of request a) == rank (distance_of request b) && leb a.0.0.id b.0.0.id)

  -- `cursor_clause`
  abbrev pub is_after : SearchRequest → Option (SearchCursor (Floats.Double floats)) → Joined → Bool
  is_after request none row = true
  is_after request (some cursor) row =
      ltb (rank cursor.distance) (rank (distance_of request row))
      || (rank (distance_of request row) == rank cursor.distance
          && ltb cursor.embedding_id row.0.0.id)

  -- Everything from the request's cursor on.
  unfoldable pub ordered_rows :
      Uuid → SearchRequest → Store (Floats.Single floats) (Floats.Double floats) → List Joined
  ordered_rows tenant_id request s =
      order_by (nearer request)
        (keep (is_after request request.cursor) (filtered tenant_id request s))

  -- `into_record` of the row's JSON: a number that is not finite has no JSON that reads as one.
  abbrev pub into_record :
      SearchRequest → Joined → VectorNormalization → SearchRecord (Floats.Double floats)
  into_record request ((embedding, revision), page) normalization =
      let distance =
        cosine_distance embedding.embedding
          (vector_literal floats numbers request.embedding.values) in
      record {
        hit = record {
          embedding_id = embedding.id;
          revision_id = revision.id;
          page_id = page.id;
          source_id = page.source_id;
          canonical_url = page.canonical_url;
          title = revision.title;
          excerpt = take 600 revision.content_text;
          similarity = from_json (one_minus distance);
          distance = from_json distance;
          model = embedding.space.model;
          model_version = embedding.space.model_version;
          dimensions = embedding.space.dimensions;
          normalization = normalization;
          fetched_at = revision.fetched_at;
        };
        content_sha256 = revision.content_sha256;
      }

  abbrev pub decoded :
      SearchRequest
      → Joined
      → Option VectorNormalization
      → Result HttpError (SearchRecord (Floats.Double floats))
  decoded request row none = err HttpError.internal
  decoded request row (some normalization) = ok (into_record request row normalization)

  unfoldable pub decode_search_row :
      SearchRequest → Joined → Result HttpError (SearchRecord (Floats.Double floats))
  decode_search_row request row =
      let distance = distance_of request row in
      if double_is_finite distance && double_is_finite (one_minus distance)
      then decoded request row (read_normalization row.0.0.space.normalization)
      else err HttpError.internal

  abbrev pub cursor_of :
      Option (SearchRecord (Floats.Double floats)) → Option (SearchCursor (Floats.Double floats))
  cursor_of none = none
  cursor_of (some record_) =
      some (record { distance = record_.hit.distance; embedding_id = record_.hit.embedding_id })

  unfoldable pub page_of :
      ℕ → List (SearchRecord (Floats.Double floats)) → SearchPage (Floats.Double floats)
  page_of requested found =
      let has_more = ltb requested (length found) in
      let records = if has_more then take requested found else found in
      record {
        response = record {
          hits = map (λ record_. record_.hit) records;
          next_cursor = if has_more then cursor_of (last records) else none;
        };
        records = records;
      }

  unfoldable pub search_embeddings :
      Uuid
      → SearchRequest
      → Action
          (Store (Floats.Single floats) (Floats.Double floats))
          (SearchPage (Floats.Double floats))
  search_embeddings tenant_id request = do
    rows ← gets λ s. take (suc request.limit) (ordered_rows tenant_id request s)
    found ← lift (collect (decode_search_row request) rows)
    pure (page_of request.limit found)
