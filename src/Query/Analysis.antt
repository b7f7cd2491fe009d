-- ===== src/Query/Analysis.antt =====
-- `analyze_query`: the query, its keywords and its entities as numbered, weighted inputs.
pub mod Views
use eal_api.Prelude.{
  ℕ, ◌+◌, ◌^◌, Bool, List, [], ◌∷◌, ◌++◌, leb, ltb, in_range, if◌then◌else◌, length, Result, ok,
  err, ◌>>=◌, ◌>>◌, ensure, map_err,
}
use eal_api.Text.{Text, text, collapse_whitespace}
use eal_api.Query.Words.{CharClasses, extract_keywords, extract_entities}

-- `EmbeddingInputKind`, of the contract crate, as far as it is used here.
pub data EmbeddingInputKind : Type 0 where
  query keyword entity : EmbeddingInputKind

-- The weight is in tenths: 1.2, 0.6 and 0.9 are 12, 6 and 9.
pub record EmbeddingInput : Type 0 where
  pub kind : EmbeddingInputKind
  pub ordinal : ℕ
  pub text : Text
  pub weight : ℕ

pub record QueryTextViews : Type 0 where
  pub query_text : Text
  pub keywords : List Text
  pub entities : List Text
  pub embedding_inputs : List EmbeddingInput

pub record QueryAnalysisError : Type 0 where
  pub code : Text
  pub message : Text

-- The contract crate's limits and its validation of the views.
pub record Contracts : Type 0 where
  pub max_embedding_input_chars : ℕ
  pub max_embedding_inputs : ℕ
  pub validate : QueryTextViews → Result QueryAnalysisError (Unit {0})
  -- The limits as they stand in messages.
  pub chars_text : Text
  pub inputs_text : Text

abbrev pub error : Text → Text → QueryAnalysisError
error code message = record { code = code; message = message }

module _ (contracts : Contracts) where
  open contracts use {
    max_embedding_input_chars, max_embedding_inputs, validate, chars_text, inputs_text,
  }

  unfoldable pub push_input :
      List EmbeddingInput
      → EmbeddingInputKind
      → Text
      → ℕ
      → Result QueryAnalysisError (List EmbeddingInput)
  push_input inputs kind value weight =
      if leb max_embedding_inputs (length inputs)
      then err (
          error (text "too_many_embedding_inputs")
            (text "query analysis exceeded " ++ (inputs_text ++ text " embedding inputs")))
      else if leb (2 ^ 16) (length inputs)
      then err (
          error (text "too_many_embedding_inputs")
            (text "query analysis produced an unsupported number of inputs"))
      else ok (
          inputs
          ++ record { kind = kind; ordinal = length inputs; text = value; weight = weight } ∷ [])

  unfoldable pub push_inputs :
      List EmbeddingInput
      → EmbeddingInputKind
      → ℕ
      → List Text
      → Result QueryAnalysisError (List EmbeddingInput)
  push_inputs inputs kind weight [] = ok inputs
  push_inputs inputs kind weight (value ∷ values) =
      push_input inputs kind value weight >>= λ more. push_inputs more kind weight values

  module _ (classes : CharClasses) where
    unfoldable pub analyze_query : Text → Result QueryAnalysisError QueryTextViews
    analyze_query value = do
      let query_text = collapse_whitespace value
      ensure (in_range 3 max_embedding_input_chars (length query_text)) (
          error (text "invalid_query_text") (
            text "query text must contain 3 to "
            ++ (chars_text
                ++ text " characters so the complete query remains one auditable embedding input")))
      let keywords = extract_keywords classes query_text
      let entities = extract_entities classes query_text
      whole ← push_input [] query query_text 12
      with_keywords ← push_inputs whole keyword 6 keywords
      embedding_inputs ← push_inputs with_keywords entity 9 entities
      let views : QueryTextViews = record {
        query_text = query_text;
        keywords = keywords;
        entities = entities;
        embedding_inputs = embedding_inputs;
      }
      map_err (λ e. error e.code e.message) (validate views)
      ok views
