-- ===== src/Tests/Queries.antt =====
-- The keywords and the entities of a query.
use eal_api.Prelude.{◌≡◌, ◌↔◌, ◌≤◌, refl, arith, true, in_range, ok, [], ◌∷◌, map, length}
use eal_api.Prelude.Ordered.{text_ord, text_cmp}
use eal_api.Prelude.TreeSet.{contains, insert}
use eal_api.Text.{
  Text, text, collapse_whitespace, trim_matches, trim_start_matches, trim_end_matches,
  is_whitespace, split, extend_head, split_whitespace, join, join_rest, to_ascii_lowercase,
  ascii_lower,
}
use eal_api.Query.Words.{
  max_entities, is_instruction_word, stopwords, is_stopword, keyword_loop, flush_entity,
  clean_token, raw_tokens, extract_keywords, is_probable_entity_word, is_candidate, entity_round,
  entity_loop, extract_entities,
}
use eal_api.Query.Analysis.{Contracts, analyze_query}
use eal_api.Query.Analysis.Views.{views_of, analyze_query-eq-ok_iff}
use eal_api.Query.Words.Keywords.{IsKeywords, IsCovered, IsDistinct, extract_keywords-IsKeywords}
use eal_api.Query.Words.Entities.{extract_entities-IsDistinct}
use eal_api.Tests.Instances.{ascii_classes}

abbrev query : Text
query = text "Notify me when Hugging Face ships models, models"

keywords_run :
    extract_keywords ascii_classes query
    ≡ text "hugging" ∷ text "face" ∷ text "ships" ∷ text "models" ∷ []
unfolding extract_keywords keyword_loop raw_tokens clean_token split_whitespace split extend_head
    trim_matches trim_start_matches trim_end_matches is_whitespace to_ascii_lowercase ascii_lower
    is_stopword stopwords contains insert text_cmp text
keywords_run = refl

entities_run : extract_entities ascii_classes query ≡ text "Hugging Face" ∷ []
unfolding extract_entities entity_loop entity_round is_candidate is_probable_entity_word
    is_instruction_word flush_entity raw_tokens clean_token split_whitespace split extend_head
    trim_matches trim_start_matches trim_end_matches is_whitespace to_ascii_lowercase ascii_lower
    contains insert text_cmp text join join_rest
entities_run = refl

extract_keywords-IsKeywords_example :
    IsKeywords (extract_keywords ascii_classes query)
    × IsCovered (extract_keywords ascii_classes query) (raw_tokens ascii_classes query)
extract_keywords-IsKeywords_example = extract_keywords-IsKeywords ascii_classes query

extract_entities-IsDistinct_example :
    (length (extract_entities ascii_classes query) ≤ max_entities)
    × IsDistinct (map to_ascii_lowercase (extract_entities ascii_classes query))
extract_entities-IsDistinct_example = extract_entities-IsDistinct ascii_classes query

abbrev contracts : Contracts
contracts = record {
  max_embedding_input_chars = 700;
  max_embedding_inputs = 64;
  validate = λ views. ok tt;
  chars_text = text "700";
  inputs_text = text "64";
}

analyze_query-eq-ok_iff_example :
    (analyze_query contracts ascii_classes query ≡ ok (views_of ascii_classes query)) ↔ (
      (in_range 3 700 (length (collapse_whitespace query)) ≡ true)
      × (contracts.validate (views_of ascii_classes query) ≡ ok tt)
      × (views_of ascii_classes query ≡ views_of ascii_classes query))
analyze_query-eq-ok_iff_example =
    analyze_query-eq-ok_iff contracts ascii_classes (omega arith) query
      (views_of ascii_classes query)
