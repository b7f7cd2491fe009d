-- ===== src/Tests/Searches.antt =====
-- A search of the two stored pages.
use eal_api.Prelude.{ℕ, ◌≡◌, refl, none, some, [], ok, arith}
use eal_api.Prelude.Ordered.{nat_ord, text_ord, text_cmp}
use eal_api.Text.{text}
use eal_api.Contracts.{EmbeddingSearchRequest}
use eal_api.Store.Order.{order_by, insert_by, join_on, pairs_with}
use eal_api.Store.Identity.{normalization_name, vector_literal, more_values}
use eal_api.Store.Search.{
  SearchPage, search_embeddings, ordered_rows, filtered, decode_search_row, page_of,
}
use eal_api.Store.Search.Pages.{
  HasDistinctEmbeddings, HasExactDistances, Continues, search_embeddings-Continues,
}
use eal_api.Tests.Instances.{hundredths}
use eal_api.Tests.Tables.{numbers, contracts}
use eal_api.Tests.Rules.{normal}
use eal_api.Tests.Indexes.{vector, with_pages, answer_or}

-- Two embeddings are similar enough, and the page holds one.
abbrev pub search : EmbeddingSearchRequest ℕ ℕ
search = record {
  embedding = vector;
  min_similarity = 50;
  source_ids = [];
  cursor = none;
  limit = 1;
}

abbrev nothing_found : SearchPage ℕ
nothing_found = record { response = record { hits = []; next_cursor = none }; records = [] }

abbrev first_page : SearchPage ℕ
first_page =
    answer_or nothing_found (search_embeddings hundredths numbers contracts 7 search with_pages).0

search_run :
    search_embeddings hundredths numbers contracts 7 search with_pages ≡ (ok first_page, with_pages)
unfolding search_embeddings ordered_rows filtered decode_search_row page_of order_by insert_by
    join_on pairs_with numbers contracts vector_literal more_values normalization_name text text_cmp
    normal
search_run = refl

two_pages : first_page.response.next_cursor ≡ some (record { distance = 0; embedding_id = 15 })
unfolding search_embeddings ordered_rows filtered decode_search_row page_of order_by insert_by
    join_on pairs_with numbers contracts vector_literal more_values normalization_name text text_cmp
    normal
two_pages = refl

distinct_run : HasDistinctEmbeddings (filtered hundredths numbers contracts 7 search with_pages)
unfolding filtered join_on pairs_with numbers vector_literal more_values normalization_name text
    text_cmp normal
distinct_run = ((refl, tt), (tt, tt))

exact_run :
    HasExactDistances hundredths numbers contracts search
      (filtered hundredths numbers contracts 7 search with_pages)
unfolding filtered join_on pairs_with numbers vector_literal more_values normalization_name text
    text_cmp normal
exact_run = (refl, (refl, tt))

search_embeddings-Continues_example :
    (with_pages ≡ with_pages)
    × Continues hundredths numbers contracts 7 search with_pages 1 first_page.records
        first_page.response.next_cursor
search_embeddings-Continues_example =
    search_embeddings-Continues hundredths numbers contracts 7 search with_pages with_pages
      first_page (ground arith) distinct_run exact_run search_run
