-- ===== src/Tests/Streams.antt =====
-- A fetched page that meets a rule.
use eal_api.Prelude.{ℕ, ◌≤◌, ◌≡◌, refl, false, List, [], ◌∷◌, length, Result, ok}
use eal_api.Prelude.Ordered.{nat_ord, text_ord, text_cmp}
use eal_api.Text.{text}
use eal_api.HttpError.{HttpError}
use eal_api.Headers.{as_bytes, utf8}
use eal_api.Text.{
  collapse_whitespace, split_whitespace, split, extend_head, join, join_rest, is_whitespace,
}
use eal_api.Alerts.{decimal, decimal_from}
use eal_api.Store.Rows.{Store, RuleEmbeddingRow}
use eal_api.Store.Order.{order_by, insert_by, join_on, pairs_with}
use eal_api.Store.Identity.{
  match_key, sha256_hex, normalization_name, normalize_content, vector_literal, more_values,
  embedding_sha256, vector_bytes,
}
use eal_api.Store.Pages.{upserted_page, insert_page, insert_page_revision, selected_revision}
use eal_api.Store.Matches.{insert_match}
use eal_api.Store.Reverse.{
  ReverseAlertPageRequest, ReverseAlertMatchResponse, CandidateWire, validate_page_request,
}
use eal_api.Store.Reverse.Revision.{upsert_page_revision, page_statement}
use eal_api.Store.Reverse.Stream.{
  find_alert_candidates, candidate_rows, decode_candidate, ingest_and_reverse_match, matching,
  persist_all, persist_reverse_candidate,
}
use eal_api.Store.Reverse.Atomic.{ingest_and_reverse_match-IsBounded}
use eal_api.Tests.Instances.{hundredths, unary, zeros}
use eal_api.Tests.Tables.{numbers, constraints, contracts, encoders, joined, no_rows}
use eal_api.Tests.Rules.{normal}
use eal_api.Tests.Starts.{digests, pad}
use eal_api.Store.Rules.{
  create_alert_rule, insert_rule, insert_rule_revision, activate_rule, read_back,
}
use eal_api.Tests.Indexes.{space, page, with_pages, answer_or}

-- The rule of tenant 7 has an embedding that the page's vector meets.
abbrev rule_embedding : RuleEmbeddingRow
rule_embedding = record {
  id = 4;
  tenant_id = 7;
  alert_rule_id = 1;
  alert_rule_revision_id = 2;
  space = space;
  embedding = b'[' ∷ 8 ∷ b']' ∷ [];
  embedding_sha256 = b'e' ∷ [];
  generated_at = 6;
}

abbrev pub watched_tables : Store ℕ ℕ
watched_tables = record with_pages { rule_embeddings = rule_embedding ∷ [] }

abbrev pub fetched : ReverseAlertPageRequest ℕ
fetched = record { page = page; max_candidates = 10 }

abbrev found : List (CandidateWire ℕ)
found =
    record {
      alert_rule_id = 1;
      alert_rule_revision_id = 2;
      alert_embedding_id = 4;
      similarity = 100;
      threshold = 80;
    }
    ∷ []

-- The page is matched again, whose revision is new.
abbrev matched : Result HttpError (ReverseAlertMatchResponse ℕ) × Store ℕ ℕ
matched =
    ingest_and_reverse_match hundredths numbers contracts constraints digests encoders unary 9 7 1
      fetched (text "00") (text "00") watched_tables

abbrev pub no_response : ReverseAlertMatchResponse ℕ
no_response = record {
  page_id = 0;
  page_revision_id = 0;
  content_sha256 = [];
  changed = false;
  page_vector_persisted = false;
  candidates = [];
}

abbrev pub response : ReverseAlertMatchResponse ℕ
response = answer_or no_response matched.0

abbrev matched_tables : Store ℕ ℕ
matched_tables = matched.1

matched_run :
    ingest_and_reverse_match hundredths numbers contracts constraints digests encoders unary 9 7 1
      fetched
      (text "00")
      (text "00")
      watched_tables
    ≡ (ok response, matched_tables)
unfolding ingest_and_reverse_match matching upsert_page_revision page_statement upserted_page
    insert_page insert_page_revision selected_revision validate_page_request contracts persist_all
    persist_reverse_candidate insert_match match_key sha256_hex digests pad encoders joined
    embedding_sha256 vector_bytes normalize_content collapse_whitespace split_whitespace split
    extend_head join join_rest is_whitespace as_bytes utf8 decimal decimal_from
    find_alert_candidates candidate_rows decode_candidate order_by insert_by join_on pairs_with
    numbers vector_literal more_values normalization_name text text_cmp normal unary zeros
    create_alert_rule insert_rule insert_rule_revision activate_rule read_back constraints no_rows
matched_run = refl

one_candidate : length response.candidates ≡ 1
unfolding ingest_and_reverse_match matching upsert_page_revision page_statement upserted_page
    insert_page insert_page_revision selected_revision validate_page_request contracts persist_all
    persist_reverse_candidate insert_match match_key sha256_hex digests pad encoders joined
    embedding_sha256 vector_bytes normalize_content collapse_whitespace split_whitespace split
    extend_head join join_rest is_whitespace as_bytes utf8 decimal decimal_from
    find_alert_candidates candidate_rows decode_candidate order_by insert_by join_on pairs_with
    numbers vector_literal more_values normalization_name text text_cmp normal unary zeros
    create_alert_rule insert_rule insert_rule_revision activate_rule read_back constraints no_rows
one_candidate = refl

ingest_and_reverse_match-IsBounded_example :
    (length response.candidates ≤ 10)
    × (10 ≤ 500)
    × (response.page_vector_persisted ≡ false)
    × (matched_tables.embeddings ≡ watched_tables.embeddings)
ingest_and_reverse_match-IsBounded_example =
    ingest_and_reverse_match-IsBounded hundredths numbers contracts constraints digests encoders
      unary 9 7 1 fetched (text "00") (text "00") watched_tables matched_tables response matched_run
