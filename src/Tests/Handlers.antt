-- ===== src/Tests/Handlers.antt =====
-- Requests to the handlers, on the tables of the other tests.
use eal_api.Prelude.{ℕ, ◌≡◌, refl, true, some, List, [], ◌∷◌, ◌++◌, if◌then◌else◌, Result, ok}
use eal_api.Prelude.Ordered.{nat_ord, text_ord, text_cmp}
use eal_api.Prelude.TreeSet.{eqb, insert, from_list, sort, sort_insert, dedup, push_unless_same}
use eal_api.Text.{
  text, byte_length, utf8_width, trim, trim_matches, trim_start_matches, trim_end_matches,
  is_whitespace, strip_prefix, split, extend_head, split_whitespace, join, join_rest,
  collapse_whitespace, to_ascii_lowercase, ascii_lower, is_ascii_hexdigit,
}
use eal_api.Text.Affix.{starts_with, ends_with, strip_suffix}
use eal_api.HttpError.{HttpError}
use eal_api.Headers.{HeaderMap, as_bytes, utf8}
use eal_api.Tenant.{tenant_id_from_headers}
use eal_api.SourceScope.{
  source_prefix, parse_source_filter, parse_source_filter_ids, canonical_filter,
  normalize_source_filters, validate_source_filters,
}
use eal_api.Alerts.{validate_list, normalize_list, validate, normalized, decimal, decimal_from}
use eal_api.Indexing.{
  normalize_host, is_subdomain_prefix, host_matches, host_is_allowed, path_is_allowed, public_host,
  is_default_port, check_url, without_default_port, canonicalize, canonicalize_source_root,
  canonicalize_for_source,
}
use eal_api.WorkerAuth.{
  fixed_time_eq, difference_from, token_matches, parse_configured_digest, configured_digest,
  authorize,
}
use eal_api.Auth.Context.{AuthContext, require_tenant_admin}
use eal_api.Store.Rows.{SourceRow, MatchRow}
use eal_api.Store.Order.{order_by, insert_by, join_on, pairs_with}
use eal_api.Store.Rules.{
  AlertRule, create_alert_rule, insert_rule, insert_rule_revision, activate_rule, read_back,
}
use eal_api.Store.Identity.{
  match_key, sha256_hex, normalization_name, normalize_content, vector_literal, more_values,
  embedding_sha256, vector_bytes,
}
use eal_api.Store.Sources.{get_source, create_source, insert_source}
use eal_api.Store.Pages.{upserted_page, insert_page, insert_page_revision, selected_revision}
use eal_api.Store.Matches.{insert_match}
use eal_api.Store.Reverse.{ReverseAlertMatchResponse, validate_page_request}
use eal_api.Store.Reverse.Revision.{upsert_page_revision, page_statement}
use eal_api.Store.Reverse.Stream.{
  find_alert_candidates, candidate_rows, decode_candidate, ingest_and_reverse_match, matching,
  persist_all, persist_reverse_candidate,
}
use eal_api.Server.Routes.{Services, World, EvaluateMatchesRequest, require_database}
use eal_api.Server.Routes.Handlers.{
  publish_event, create_record, create_source_route, page_urls, reverse_match_page,
  evaluate_matches_route,
}
use eal_api.Server.Routes.Creation.{
  IsRecorded, IsAdded, create_record-IsRecorded, create_source_route-IsAdded,
}
use eal_api.Server.Routes.Crawler.{IsMatched, reverse_match_page-IsMatched}
use eal_api.Tests.Instances.{hundredths, unary, zeros, is_zeros, parse_unary, ascii_text}
use eal_api.Tests.Tables.{numbers, constraints, contracts, encoders, joined, no_rows}
use eal_api.Tests.Rules.{raw, normal}
use eal_api.Tests.Starts.{digests, pad, env, sixteen, state, member}
use eal_api.Tests.Sites.{places, place_view}
use eal_api.Tests.Indexes.{policy, site, answer_or}
use eal_api.Tests.Searches.{search}
use eal_api.Tests.Streams.{fetched, watched_tables, no_response}

abbrev services : Services
services = record {
  floats = hundredths;
  numbers = numbers;
  contracts = contracts;
  constraints = constraints;
  digests = digests;
  encoders = encoders;
  uuids = unary;
  urls = places;
  to_str = ascii_text;
  env = env;
  payload = λ event_type tenant_id now data_. some event_type;
}

abbrev empty_world : World ℕ ℕ
empty_world = record { store = no_rows; events = [] }

abbrev user : AuthContext
user = record member { subject = b'u' ∷ [] }

abbrev admin : AuthContext
admin = record user { tenant_admin = true }

abbrev recorded : Result HttpError (ℕ × AlertRule ℕ) × World ℕ ℕ
recorded = create_record services state 5 1 2 user raw empty_world

abbrev recorded_rule : AlertRule ℕ
recorded_rule = record {
  id = 1;
  tenant_id = 7;
  owner_subject = b'u' ∷ [];
  revision_id = 2;
  revision_number = 1;
  created_at = 5;
  updated_at = 5;
  revision_created_at = 5;
  name = normal.name;
  query_text = normal.query_text;
  embedding_model = normal.embedding_model;
  similarity_threshold = normal.similarity_threshold;
  source_filters = normal.source_filters;
  delivery_channels = normal.delivery_channels;
  enabled = normal.enabled;
}

recorded_run :
    create_record services state 5 1 2 user raw empty_world ≡ (ok (201, recorded_rule), recorded.1)
unfolding create_record publish_event require_database state create_alert_rule insert_rule
    insert_rule_revision activate_rule read_back constraints no_rows join_on pairs_with raw normal
    text normalized validate normalize_source_filters validate_source_filters canonical_filter
    parse_source_filter_ids parse_source_filter source_prefix strip_prefix unary parse_unary
    is_zeros zeros insert from_list normalize_list validate_list sort sort_insert dedup
    push_unless_same text_cmp trim trim_matches trim_start_matches trim_end_matches is_whitespace
    byte_length utf8_width collapse_whitespace split_whitespace split extend_head join join_rest
recorded_run = refl

create_record-IsRecorded_example :
    IsRecorded services state 5 empty_world recorded.1 user raw 201 recorded_rule
create_record-IsRecorded_example =
    create_record-IsRecorded services state 5 empty_world recorded.1 1 2 user raw 201 recorded_rule
      recorded_run

abbrev added : Result HttpError (ℕ × SourceRow) × World ℕ ℕ
added = create_source_route services state 5 admin policy empty_world

added_run :
    create_source_route services state 5 admin policy empty_world ≡ (ok (201, site), added.1)
unfolding create_source_route require_tenant_admin contracts canonicalize_source_root
    require_database state create_source insert_source constraints no_rows publish_event
    canonicalize places place_view check_url public_host normalize_host host_is_allowed host_matches
    is_subdomain_prefix path_is_allowed is_default_port without_default_port text text_cmp
    byte_length utf8_width trim trim_matches trim_start_matches trim_end_matches is_whitespace
    to_ascii_lowercase ascii_lower strip_prefix starts_with ends_with strip_suffix
added_run = refl

create_source_route-IsAdded_example :
    IsAdded services state 5 empty_world added.1 admin policy 201 site
create_source_route-IsAdded_example =
    create_source_route-IsAdded services state 5 empty_world added.1 admin policy 201 site added_run

-- The crawler's headers, for tenant 7.
unfoldable crawler_of_tenant : HeaderMap
unfolding text text_cmp sixteen zeros
crawler_of_tenant name =
    if eqb name (text "x-eal-ingest-token")
    then (sixteen ++ sixteen) ∷ []
    else if eqb name (text "x-eal-tenant-id")
    then zeros 8 ∷ []
    else []

abbrev watched_world : World ℕ ℕ
watched_world = record {
  store = record watched_tables { sources = record site { id = 1 } ∷ [] };
  events = [];
}

abbrev crawled : Result HttpError (ℕ × ReverseAlertMatchResponse ℕ) × World ℕ ℕ
crawled = reverse_match_page services state 9 1 crawler_of_tenant fetched watched_world

abbrev response : ReverseAlertMatchResponse ℕ
response = (answer_or (0, no_response) crawled.0).1

crawled_run :
    reverse_match_page services state 9 1 crawler_of_tenant fetched watched_world
    ≡ (ok (201, response), crawled.1)
unfolding reverse_match_page authorize token_matches fixed_time_eq difference_from configured_digest
    parse_configured_digest digests pad env crawler_of_tenant sixteen text text_cmp trim
    trim_matches trim_start_matches trim_end_matches is_whitespace byte_length utf8_width as_bytes
    utf8 is_ascii_hexdigit tenant_id_from_headers unary parse_unary is_zeros zeros
    validate_page_request contracts page_urls require_database state get_source
    canonicalize_for_source publish_event canonicalize places place_view check_url public_host
    normalize_host host_is_allowed host_matches is_subdomain_prefix path_is_allowed is_default_port
    without_default_port to_ascii_lowercase ascii_lower strip_prefix starts_with ends_with
    strip_suffix ingest_and_reverse_match matching upsert_page_revision page_statement upserted_page
    insert_page insert_page_revision selected_revision persist_all persist_reverse_candidate
    insert_match match_key sha256_hex encoders joined embedding_sha256 vector_bytes
    normalize_content collapse_whitespace split_whitespace split extend_head join join_rest decimal
    decimal_from find_alert_candidates candidate_rows decode_candidate order_by insert_by join_on
    pairs_with numbers vector_literal more_values normalization_name normal create_alert_rule
    insert_rule insert_rule_revision activate_rule read_back constraints no_rows
crawled_run = refl

reverse_match_page-IsMatched_example :
    IsMatched services state 9 watched_world 1 crawler_of_tenant fetched 201 response crawled.1
reverse_match_page-IsMatched_example =
    reverse_match_page-IsMatched services state 9 watched_world 1 crawler_of_tenant fetched 201
      response crawled.1 crawled_run

abbrev evaluation : EvaluateMatchesRequest ℕ ℕ
evaluation = record { alert_rule_id = 1; threshold = 60; search = search }

abbrev evaluated : Result HttpError (List (MatchRow ℕ)) × World ℕ ℕ
evaluated = evaluate_matches_route services state 9 user evaluation watched_world

abbrev matches : List (MatchRow ℕ)
matches = answer_or [] evaluated.0
