-- ===== src/Embedding/Service/Replies.antt =====
-- Which endpoints are used, and what an accepted reply contains.
use eal_api.Prelude.{
  ℕ, suc, ◌≡◌, ◌⊎◌, refl, sym, ap, ◌∙◌, Bool, true, false, not, ◌&&◌, ◌||◌, inl, inr, Option, none,
  some, List, [], ◌∷◌, arith, Bool-cases, Option-cases, in_range, ◌==◌, ==_iff, length, is_empty,
  All, Result, ok, >>=-eq-ok, ensure-then, refuse-then, refuse-eq-ok, ensure-eq-ok, map_err-then,
  map_err-eq-ok,
}
use eal_api.Prelude.Ordered.{text_ord}
use eal_api.Prelude.TreeSet.{eqb, eqb_iff_eq}
use eal_api.Text.{Text, text}
use eal_api.Urls.{UrlView, Urls}
use eal_api.Auth.Config.{Environment}
use eal_api.Query.Analysis.{EmbeddingInput, QueryAnalysisError}
use eal_api.Embedding.{EmbeddingSpaceConfig}
use eal_api.Embedding.Vectors.{Doubles, validate_vector}
use eal_api.Embedding.Vectors.Dimensions.{validate_vector-eq-ok, length-weighted_centroid}
use eal_api.Embedding.Service.{
  nonempty_env, is_some, is_loopback, check_endpoint, validate_provider_model, ProviderEmbedding,
  ProviderResponse, Reply, unreachable, replied, insert_item, sort_items, QueryEmbeddingService,
  service_from_env, validate_endpoint, validate_inputs, checked_vectors, embed_response, read_reply,
  embed_inputs, ProviderRequest, payload,
}

-- No credentials, query or fragment; HTTPS, or outside of production HTTP to the own machine.
pub record IsSecure (url : UrlView) (host : Option Text) (environment : Text) : Type 0 where
  pub no_user : is_empty url.username ≡ true
  pub no_password : is_some url.password ≡ false
  pub no_query : is_some url.query ≡ false
  pub no_fragment : is_some url.fragment ≡ false
  pub secure :
      (url.scheme ≡ text "https")
      ⊎ ((eqb environment (text "production") ≡ false)
          × (url.scheme ≡ text "http")
          × (is_loopback host ≡ true))

plain_parts :
    (user password query fragment : Bool)
    → (not user || (password || (query || fragment))) ≡ false
    → (user ≡ true) × (password ≡ false) × (query ≡ false) × (fragment ≡ false)
plain_parts user password query fragment h = ground arith

allowed_scheme :
    (https production http loopback : Bool)
    → (not https && not (not production && (http && loopback))) ≡ false
    → (https ≡ true) ⊎ ((production ≡ false) × (http ≡ true) × (loopback ≡ true))
allowed_scheme true production http loopback h = inl refl
allowed_scheme false production http loopback h = inr (ground arith)

check_endpoint-IsSecure :
    (url : UrlView) (host : Option Text) (environment : Text)
    → check_endpoint url host environment ≡ ok tt
    → IsSecure url host environment
unfolding check_endpoint
check_endpoint-IsSecure url host environment h =
    let (plain, h1) = refuse-then _ _ _ h in
    let (no_user, no_password, no_query, no_fragment) =
      plain_parts (is_empty url.username) (is_some url.password) (is_some url.query)
        (is_some url.fragment) plain in
    record {
      no_user = no_user;
      no_password = no_password;
      no_query = no_query;
      no_fragment = no_fragment;
      secure =
          elim (allowed_scheme (eqb url.scheme (text "https")) (eqb environment (text "production"))
            (eqb url.scheme (text "http")) (is_loopback host) (refuse-eq-ok _ _ h1)) [
              | inl https ↦ inl (eqb_iff_eq url.scheme (text "https") https)
              | inr (other, http, loopback) ↦
                  inr (other, eqb_iff_eq url.scheme (text "http") http, loopback)
            ];
    }

-- The endpoint of a configured service has no credentials, query and fragment, and is reached by
-- HTTPS or, outside of production, by HTTP on the own machine; the service has the model and the
-- dimensions of the embedding space.
pub service_from_env-IsSecure :
    (urls : Urls) (env : Environment) (client : Result Text (Unit {0}))
    (space : EmbeddingSpaceConfig) (environment : Text) (service : QueryEmbeddingService urls)
    → service_from_env urls env client space environment ≡ ok (some service)
    → IsSecure (urls.view service.endpoint) (urls.host_str service.endpoint) environment
      × (service.model ≡ space.model)
      × (service.dimensions ≡ space.dimensions)
unfolding service_from_env validate_endpoint
service_from_env-IsSecure urls env client space environment service h =
    elim (Option-cases (nonempty_env env (text "EAL_EMBEDDING_ENDPOINT"))) [
      | inl unset ↦ absurd (cc (rw (unset, service_from_env) at h))
      | inr (value, given) ↦
          let (endpoint, _, h1) =
            map_err-then _ (urls.parse value) _ (rw (given, service_from_env) at h) in
          let (_, valid, h2) = >>=-eq-ok (validate_endpoint urls endpoint environment) _ h1 in
          let (_, _, last) = map_err-then _ client _ h2 in
          let built : record {
            endpoint = endpoint;
            api_key = nonempty_env env (text "EAL_EMBEDDING_API_KEY");
            model = space.model;
            dimensions = space.dimensions;
          }
              ≡ service =
            cc last in
          rw (← built) (
            check_endpoint-IsSecure (urls.view endpoint) (urls.host_str endpoint) environment valid,
            refl,
            refl,
          )
    ]

length-insert_item :
    {Single : Type 0} (item : ProviderEmbedding Single) (items : List (ProviderEmbedding Single))
    → length (insert_item item items) ≡ suc (length items)
unfolding insert_item
length-insert_item item [] = refl
length-insert_item item (other ∷ items) = ground (arith, length-insert_item item items)

length-sort_items :
    {Single : Type 0} (items : List (ProviderEmbedding Single))
    → length (sort_items items) ≡ length items
unfolding sort_items
length-sort_items [] = refl
length-sort_items (item ∷ items) =
    length-insert_item item (sort_items items) ∙ ap suc (length-sort_items items)

validate_provider_model-eq :
    (debug : Text → Text) (returned : Option Text) (model : Text)
    → validate_provider_model debug returned model ≡ ok tt
    → (returned ≡ none) ⊎ (returned ≡ some model)
unfolding validate_provider_model
validate_provider_model-eq debug none model h = inl refl
validate_provider_model-eq debug (some name) model h =
    inr (ap some (eqb_iff_eq name model (ensure-eq-ok _ _ h)))

module _ (doubles : Doubles) (debug : Text → Text)
    (validate_input : EmbeddingInput → Result QueryAnalysisError (Unit {0})) (model : Text)
    (dimensions : ℕ) where
  open doubles use {Single, is_finite}

  -- Items numbered from `n`, whose vectors have the dimensions and finite values.
  abbrev pub IsNumbered : ℕ → List (ProviderEmbedding Single) → Type 0
  IsNumbered n [] = Unit
  IsNumbered n (item ∷ items) =
      (item.index ≡ n)
      × (length item.embedding ≡ dimensions)
      × All (λ value. is_finite value ≡ true) item.embedding
      × IsNumbered (suc n) items

  checked_vectors-IsNumbered :
      (n : ℕ) (items : List (ProviderEmbedding Single)) (vectors : List (List Single))
      → checked_vectors doubles debug validate_input model dimensions n items ≡ ok vectors
      → IsNumbered n items
  unfolding checked_vectors
  checked_vectors-IsNumbered n [] vectors h = tt
  checked_vectors-IsNumbered n (item ∷ items) vectors h =
      let (index, h1) = ensure-then (item.index == n) _ _ h in
      let (vector, valid, h2) =
        >>=-eq-ok (validate_vector doubles item.embedding dimensions) _ h1 in
      let (rest, later, _) =
        >>=-eq-ok (checked_vectors doubles debug validate_input model dimensions (suc n) items) _
          h2 in
      let (_, size, finite) =
        validate_vector-eq-ok doubles item.embedding vector dimensions valid in
      (
        (==_iff item.index n).0 index,
        size,
        finite,
        checked_vectors-IsNumbered (suc n) items rest later,
      )

  pub record IsEmbedded (request : ProviderRequest) (send : ProviderRequest → Reply Single)
      (inputs : List EmbeddingInput) (out : List Single) : Type 0 where
    pub status : ℕ
    pub body : Text
    pub response : ProviderResponse Single
    pub answered : send request ≡ replied status body (ok response)
    pub success : in_range 200 299 status ≡ true
    pub same_model : (response.model ≡ none) ⊎ (response.model ≡ some model)
    pub count : length response.data_items ≡ length inputs
    pub numbered : IsNumbered 0 (sort_items response.data_items)
    pub size : length out ≡ dimensions

  read_reply-eq-ok :
      (reply : Reply Single) (response : ProviderResponse Single)
      → read_reply doubles debug validate_input model dimensions reply ≡ ok response
      → (status : ℕ) × (body : Text) × (reply ≡ replied status body (ok response))
        × (in_range 200 299 status ≡ true)
  unfolding read_reply
  read_reply-eq-ok (unreachable error transient) response h = absurd (cc h)
  read_reply-eq-ok (replied status body json) response h =
      elim (Bool-cases (in_range 200 299 status)) [
        | inl success ↦
            let parsed = map_err-eq-ok _ json (rw success at h) in
            (status, body, ap (replied status body) parsed, success)
        | inr failed ↦ absurd (cc (rw failed at h))
      ]

  -- A query vector is made only of a successful reply to the request with the configured model
  -- and dimensions and the texts of the inputs; it names this model or none, and has one vector
  -- for each input, whose indices, sorted, are 0, 1 and so on without a gap, each of the configured
  -- dimensions with finite values; the query vector has these dimensions too.
  pub embed_inputs-IsEmbedded :
      (api_key : Option Text) (send : ProviderRequest → Reply Single) (inputs : List EmbeddingInput)
      (out : List Single)
      → embed_inputs doubles debug validate_input model dimensions api_key send inputs ≡ ok out
      → IsEmbedded
          (payload doubles debug validate_input model dimensions api_key inputs)
          send
          inputs
          out
  unfolding embed_inputs embed_response
  embed_inputs-IsEmbedded api_key send inputs out h =
      let (_, h1) = refuse-then (is_empty inputs) _ _ h in
      let (_, _, h2) =
        >>=-eq-ok (validate_inputs doubles debug validate_input model dimensions inputs) _ h1 in
      let (response, read, h3) =
        >>=-eq-ok
          (read_reply doubles debug validate_input model dimensions
            (send (payload doubles debug validate_input model dimensions api_key inputs)))
          _ h2 in
      let (_, named, h4) = >>=-eq-ok (validate_provider_model debug response.model model) _ h3 in
      let (counted, h5) =
        ensure-then (length (sort_items response.data_items) == length inputs) _ _ h4 in
      let (vectors, checked, last) =
        >>=-eq-ok
          (checked_vectors doubles debug validate_input model dimensions 0
            (sort_items response.data_items))
          _ h5 in
      let (status, body, answered, success) =
        read_reply-eq-ok
          (send (payload doubles debug validate_input model dimensions api_key inputs)) response
          read in
      record {
        status = status;
        body = body;
        response = response;
        answered = answered;
        success = success;
        same_model = validate_provider_model-eq debug response.model model named;
        count = sym (length-sort_items response.data_items) ∙ (==_iff _ _).0 counted;
        numbered = checked_vectors-IsNumbered 0 (sort_items response.data_items) vectors checked;
        size = length-weighted_centroid doubles inputs vectors dimensions out last;
      }
