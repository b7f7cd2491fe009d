-- ===== src/Tests/Indexes.antt =====
-- A tenant's source with two stored pages, and the keys of its matches.
use eal_api.Prelude.{ℕ, ◌≡◌, ◌⊎◌, refl, true, none, some, [], ◌∷◌, Result, ok, err, arith}
use eal_api.Prelude.Ordered.{nat_ord, text_ord}
use eal_api.Text.{text}
use eal_api.HttpError.{HttpError}
use eal_api.Embedding.{VectorNormalization}
use eal_api.Contracts.{EmbeddingPayload, PageIngestRequest, CreateSourcePolicy}
use eal_api.Store.Rows.{Store, Space, PageRow, PageRevisionRow, EmbeddingRow, SourceRow}
use eal_api.Store.Identity.{MatchIdentity}
use eal_api.Store.Identity.Binding.{Collision, match_key-injective}
use eal_api.Store.Sources.{create_source, insert_source}
use eal_api.Store.Sources.Reads.{IsCreated, create_source-get_source}
use eal_api.Store.Ingest.{ingest_page}
use eal_api.Store.Ingest.Outcome.{ingest_page-fails}
use eal_api.Tests.Instances.{hundredths, unary}
use eal_api.Tests.Tables.{numbers, constraints, encoders, no_rows}
use eal_api.Tests.Rules.{normal}
use eal_api.Tests.Starts.{digests}
use eal_api.Tests.Stores.{one_rule}

abbrev identity : MatchIdentity
identity = record {
  tenant_id = 7;
  alert_rule_id = 1;
  alert_rule_revision_id = 2;
  page_revision_id = 13;
  content_sha256 = b'c' ∷ [];
  model = b'm' ∷ [];
  model_version = b'1' ∷ [];
  dimensions = 1;
  normalization = VectorNormalization.l2;
}

match_key-injective_example : (identity ≡ identity) ⊎ Collision digests encoders unary
match_key-injective_example =
    match_key-injective digests encoders unary identity identity
      (ground arith, ground arith, ground arith, ground arith)
      (ground arith, ground arith, ground arith, ground arith) refl

abbrev pub policy : CreateSourcePolicy
policy = record {
  name = b'n' ∷ [];
  root_url = text "10";
  allowed_hosts = text "site.org" ∷ [];
  allowed_path_prefixes = text "/" ∷ [];
  include_subdomains = true;
  discovery_modes = [];
  crawl_interval_seconds = 60;
  max_depth = 2;
  max_pages_per_run = 3;
  obey_robots = true;
  enabled = true;
}

abbrev pub site : SourceRow
site = record {
  id = 20;
  tenant_id = 7;
  name = policy.name;
  root_url = text "10";
  allowed_hosts = policy.allowed_hosts;
  allowed_path_prefixes = policy.allowed_path_prefixes;
  include_subdomains = true;
  discovery_modes = [];
  crawl_interval_seconds = 60;
  max_depth = 2;
  max_pages_per_run = 3;
  obey_robots = true;
  enabled = true;
  created_at = 5;
  updated_at = 5;
}

abbrev with_site : Store ℕ ℕ
with_site = record no_rows { sources = site ∷ [] }

site_run : create_source constraints 5 7 policy (text "10") no_rows ≡ (ok site, with_site)
unfolding create_source insert_source constraints no_rows text
site_run = refl

create_source-get_source_example :
    IsCreated constraints 5 7 policy (text "10") 6 policy site with_site
create_source-get_source_example =
    create_source-get_source constraints 5 7 policy (text "10") 6 policy no_rows with_site site
      site_run

abbrev pub space : Space
space = record {
  model = normal.embedding_model;
  model_version = b'1' ∷ [];
  dimensions = 1;
  normalization = text "l2";
}

abbrev pub vector : EmbeddingPayload ℕ
vector = record {
  model = normal.embedding_model;
  model_version = b'1' ∷ [];
  dimensions = 1;
  normalization = VectorNormalization.l2;
  values = 5 ∷ [];
}

abbrev pub page : PageIngestRequest ℕ
page = record {
  source_id = 1;
  url = text "00";
  final_url = text "00";
  title = none;
  content_text = text "a b";
  content_type = b't' ∷ [];
  http_status = 200;
  published_at = none;
  fetched_at = 9;
  embedding = vector;
}

abbrev stored_page : PageRow
stored_page = record {
  id = 11;
  tenant_id = 7;
  source_id = 1;
  canonical_url = text "00";
  first_seen_at = 3;
  last_seen_at = 3;
  latest_revision_id = some 13;
  updated_at = 3;
}

abbrev stored_revision : PageRevisionRow
stored_revision = record {
  id = 13;
  tenant_id = 7;
  page_id = 11;
  predecessor_revision_id = none;
  original_url = text "00";
  final_url = text "00";
  title = none;
  content_text = b'o' ∷ [];
  content_sha256 = b'o' ∷ [];
  content_type = b't' ∷ [];
  http_status = 200;
  published_at = none;
  fetched_at = 3;
}

abbrev stored_embedding : EmbeddingRow
stored_embedding = record {
  id = 15;
  tenant_id = 7;
  revision_id = 13;
  space = space;
  embedding = b'[' ∷ 5 ∷ b']' ∷ [];
  generated_at = 3;
}

abbrev pub with_pages : Store ℕ ℕ
with_pages = record one_rule {
  pages = stored_page ∷ [];
  page_revisions = stored_revision ∷ [];
  embeddings =
      record stored_embedding { id = 16; embedding = b'[' ∷ 5 ∷ b'5' ∷ b']' ∷ [] }
      ∷ stored_embedding
      ∷ [];
}

ingest_page-fails_example :
    (e : HttpError) × ((ingest_page hundredths numbers constraints digests encoders 9 7 1 page
        (text "00")
        (text "00")
        with_pages).0
      ≡ err e)
ingest_page-fails_example =
    ingest_page-fails hundredths numbers constraints digests encoders 9 7 1 page (text "00")
      (text "00") with_pages (refl, tt)

abbrev pub answer_or {ℓ} : {A : Type ℓ} → A → Result HttpError A → A
answer_or other (ok a) = a
answer_or other (err e) = other
