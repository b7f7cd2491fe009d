-- ===== src/Query/Words.antt =====
-- Tokens, keywords and entities of a query.
pub mod Keywords
pub mod Entities
use eal_api.Prelude.{
  ℕ, ◌+◌, ◌≡◌, Bool, true, false, not, ◌&&◌, ◌||◌, Option, List, [], ◌∷◌, ◌++◌, map, ltb, leb, ◌==◌,
  if◌then◌else◌, length, is_empty, any, all, keep, take,
}
use eal_api.Prelude.Ordered.{text_ord}
use eal_api.Prelude.TreeSet.{eqb, contains, insert}
use eal_api.Text.{Text, text, to_ascii_lowercase, trim_matches, split_whitespace, join, is_nonempty}

abbrev pub max_keywords : ℕ
max_keywords = 24

abbrev pub max_entities : ℕ
max_entities = 12

-- Rust's Unicode tables.
pub record CharClasses : Type 0 where
  pub is_alphanumeric : ℕ → Bool
  pub is_uppercase : ℕ → Bool
  pub is_lowercase : ℕ → Bool

abbrev pub one_of : List Text → Text → Bool
one_of words value = any (λ word. eqb value word) words

unfoldable pub is_instruction_word : Text → Bool
is_instruction_word = one_of (
    text "alert"
    ∷ text "email"
    ∷ text "find"
    ∷ text "let"
    ∷ text "notify"
    ∷ text "show"
    ∷ text "tell"
    ∷ text "track"
    ∷ text "watch"
    ∷ [])

unfoldable pub stopwords : List Text
unfolding text
stopwords =
    text "about"
    ∷ text "after"
    ∷ text "again"
    ∷ text "against"
    ∷ text "alert"
    ∷ text "also"
    ∷ text "among"
    ∷ text "and"
    ∷ text "are"
    ∷ text "because"
    ∷ text "been"
    ∷ text "before"
    ∷ text "being"
    ∷ text "between"
    ∷ text "could"
    ∷ text "email"
    ∷ text "find"
    ∷ text "for"
    ∷ text "from"
    ∷ text "have"
    ∷ text "into"
    ∷ text "just"
    ∷ text "more"
    ∷ text "notify"
    ∷ text "should"
    ∷ text "that"
    ∷ text "the"
    ∷ text "their"
    ∷ text "them"
    ∷ text "then"
    ∷ text "there"
    ∷ text "these"
    ∷ text "they"
    ∷ text "this"
    ∷ text "those"
    ∷ text "through"
    ∷ text "tools"
    ∷ text "when"
    ∷ text "where"
    ∷ text "which"
    ∷ text "while"
    ∷ text "with"
    ∷ text "would"
    ∷ []

unfoldable pub is_stopword : Text → Bool
unfolding stopwords
is_stopword = one_of stopwords

-- The loop of `extract_keywords` over the tokens, with its two collections.
unfoldable pub keyword_loop : List Text → List Text → List Text → List Text
keyword_loop seen output [] = output
keyword_loop seen output (token ∷ tokens) =
    let normalized = to_ascii_lowercase token in
    let skipped = keyword_loop seen output tokens in
    let pushed = output ++ normalized ∷ [] in
    let taken = keyword_loop (insert normalized seen) pushed tokens in
    if ltb (length normalized) 3 || (is_stopword normalized || contains normalized seen)
    then skipped
    else if leb max_keywords (length pushed)
    then pushed
    else taken

-- The words of the entity at hand, the identities seen, and the entities found.
pub record EntityState : Type 0 where
  pub current : List Text
  pub seen : List Text
  pub output : List Text

unfoldable pub flush_entity : EntityState → EntityState
flush_entity s =
    if is_empty s.current || leb max_entities (length s.output)
    then record s { current = [] }
    else let entity = join (text " ") s.current in
      let identity = to_ascii_lowercase entity in
      if contains identity s.seen
      then record s { current = [] }
      else record { current = []; seen = insert identity s.seen; output = s.output ++ entity ∷ [] }

module _ (classes : CharClasses) where
  open classes use {is_alphanumeric, is_uppercase, is_lowercase}

  unfoldable pub clean_token : Text → Text
  clean_token value =
      trim_matches (λ c. not (is_alphanumeric c) && (not (c == b'-') && not (c == b'_'))) value

  -- `raw_tokens`, and `tokens` collected.
  unfoldable pub raw_tokens : Text → List Text
  raw_tokens value = keep is_nonempty (map clean_token (split_whitespace value))

  unfoldable pub extract_keywords : Text → List Text
  extract_keywords query = keyword_loop [] [] (raw_tokens query)

  unfoldable pub is_probable_entity_word : Text → Bool
  is_probable_entity_word [] = false
  is_probable_entity_word (first ∷ rest) =
      is_uppercase first && (any is_lowercase rest && not (all is_uppercase (first ∷ rest)))

  unfoldable pub is_candidate : Bool → Text → Bool
  is_candidate at_start word =
      is_probable_entity_word word
      && not (at_start && is_instruction_word (to_ascii_lowercase word))

  -- One round of the loop of `extract_entities`, before its test for the limit.
  unfoldable pub entity_round : Bool → Text → EntityState → EntityState
  entity_round at_start word s =
      if is_candidate at_start word
      then record s { current = s.current ++ word ∷ [] }
      else flush_entity s

  unfoldable pub entity_loop : Bool → EntityState → List Text → EntityState
  entity_loop at_start s [] = s
  entity_loop at_start s (word ∷ words) =
      let s' = entity_round at_start word s in
      let more = entity_loop false s' words in
      if leb max_entities (length s'.output) then s' else more

  unfoldable pub extract_entities : Text → List Text
  extract_entities query =
      let start : EntityState = record { current = []; seen = []; output = [] } in
      take max_entities (flush_entity (entity_loop true start (raw_tokens query))).output
