-- ===== src/Content/Platform.antt =====
-- crates/audiodown-content/src/router.rs: how a platform's candidates are asked in turn, and how an
-- answer is decoded. A JSON value and serde's reading and writing of it are parameters; so are the
-- plugins, whose answer to each call is whatever `invoke` says.
pub mod Fallback
pub mod Answers
use audio_down_core.Base.{
  ℕ, String, Bool, true, false, not, ◌&&◌, ◌||◌, Option, none, some, List, [], ◌∷◌, ◌++◌, map,
  if◌then◌else◌, ◌==◌, Result, ok, err, ◌>>=◌, ◌>>◌, map_err, ok_or, fail_if,
}
use audio_down_core.Base.Text.{Text, text, text_eq}
use audio_down_core.PluginApi.Error
use audio_down_core.PluginApi.Error.{
  PluginErrorCode, PluginErrorData, is_retryable, validate_error_data,
}
use audio_down_core.PluginApi.Rpc.{JsonRpcResponse, JsonRpcError}
use audio_down_core.PluginApi.Content
use audio_down_core.PluginApi.Content.{
  ContentMethod, SearchRequest, DiscoverRequest, CategoriesRequest, SearchResult, DiscoverResult,
  CategoriesResult, Checked, validate_search_result, validate_discover_result,
  validate_categories_result,
}
use audio_down_core.Content.Candidate.{ContentCandidate}
use audio_down_core.Content.Cursor.{SourceCursor}
use audio_down_core.Content.Dedup.{
  ContentSource, source_of, SourcedContentItem, SourcedDiscoverSection, SourcedCategoryItem,
}

pub data ContentInvokeError : Type 0 where
  unavailable timeout invalid_response internal : ContentInvokeError

-- serde_json, as far as the router calls it.
pub record ContentJson (Value : Type 0) : Type 0 where
  pub search_to_value : SearchRequest → Option Value
  pub discover_to_value : DiscoverRequest → Option Value
  pub categories_to_value : CategoriesRequest → Option Value
  pub search_from_value : Value → Option SearchResult
  pub discover_from_value : Value → Option DiscoverResult
  pub categories_from_value : Value → Option CategoriesResult
  pub error_from_value : Value → Option PluginErrorData

-- The trait `ContentPluginInvoker`: the answer of one call.
abbrev pub Invoker : Type 0 → Type 0
Invoker Value =
    Text
    → ContentCandidate
    → ContentMethod
    → Value
    → Result (JsonRpcResponse Value) ContentInvokeError

pub record FailureData : Type 0 where
  pub code : PluginErrorCode
  pub summary : Text

pub record ContentFailure : Type 0 where
  pub source : ContentSource
  pub code : PluginErrorCode
  pub summary : Text

abbrev pub with_source : ContentSource → FailureData → ContentFailure
with_source source f = record { source = source; code = f.code; summary = f.summary }

-- `FailureData::invalid_response()`.
abbrev pub invalid_response_failure : FailureData
invalid_response_failure = record {
  code = Error.plugin_response_invalid;
  summary = text "Plugin response was invalid";
}

unfoldable pub safe_failure_summary : PluginErrorCode → Text
safe_failure_summary Error.invalid_request = text "Content request was rejected"
safe_failure_summary Error.plugin_not_found = text "Content plugin was not found"
safe_failure_summary Error.plugin_disabled = text "Content plugin is disabled"
safe_failure_summary Error.plugin_capability_missing = text "Content capability is unavailable"
safe_failure_summary Error.plugin_unavailable = text "Content plugin is unavailable"
safe_failure_summary Error.plugin_timeout = text "Content plugin timed out"
safe_failure_summary Error.plugin_response_invalid = text "Content plugin response was invalid"
safe_failure_summary Error.resource_not_found = text "Content resource was not found"
safe_failure_summary Error.resource_access_denied = text "Content resource access was denied"
safe_failure_summary Error.resource_temporarily_unavailable =
    text "Content resource is temporarily unavailable"
safe_failure_summary Error.rate_limited = text "Content source is rate limited"
safe_failure_summary Error.platform_response_changed = text "Content source response changed"
safe_failure_summary Error.plugin_internal_error = text "Content plugin failed"
safe_failure_summary _ = text "Content plugin response was invalid"

unfoldable pub invoke_failure : ContentInvokeError → FailureData
invoke_failure unavailable = record {
  code = Error.plugin_unavailable;
  summary = text "Plugin is unavailable";
}
invoke_failure timeout = record {
  code = Error.plugin_timeout;
  summary = text "Plugin call timed out";
}
invoke_failure invalid_response = invalid_response_failure
invoke_failure internal = record {
  code = Error.plugin_internal_error;
  summary = text "Plugin call failed";
}

-- What one platform gives: the contents of the first candidate that answered, the failures before
-- it, and the plugin's cursor.
pub record PlatformResult (S : Type 0) : Type 0 where
  pub contents : List S
  pub failures : List ContentFailure
  pub next_cursor : Option SourceCursor

abbrev pub is_some {ℓ} : {A : Type ℓ} → Option A → Bool
is_some none = false
is_some (some a) = true

abbrev bool_eq : Bool → Bool → Bool
bool_eq true b = b
bool_eq false b = not b

-- Not JSON-RPC 2.0, or without exactly one of a result and an error.
abbrev pub is_malformed : {Value : Type 0} → JsonRpcResponse Value → Bool
is_malformed r = not (r.jsonrpc == text "2.0") || bool_eq (is_some r.result) (is_some r.error)

module _ {Value : Type 0} (json : ContentJson Value) where
  -- The failure that a plugin's error object stands for.
  unfoldable pub failure_of : JsonRpcError Value → FailureData
  failure_of e = elim e.data_value [
    | none ↦ invalid_response_failure
    | some value ↦ elim (json.error_from_value value) [
      | none ↦ invalid_response_failure
      | some d ↦ elim (validate_error_data d) [
        | err _ ↦ invalid_response_failure
        | ok _ ↦ record { code = d.code; summary = safe_failure_summary d.code }
      ]
    ]
  ]

  unfoldable pub decode_response : JsonRpcResponse Value → Result Value FailureData
  decode_response r = if is_malformed r then err invalid_response_failure else elim r.error [
    | some e ↦ err (failure_of e)
    | none ↦ ok_or invalid_response_failure r.result
  ]

  -- `decode_search_response`, `decode_discover_response` and `decode_categories_response`.
  unfoldable pub decode_result :
      {R : Type 0} (from_value : Value → Option R) (validate : R → Checked)
      → JsonRpcResponse Value
      → Result R FailureData
  decode_result from_value validate response = do
    value ← decode_response response
    result ← ok_or invalid_response_failure (from_value value)
    map_err (λ _. invalid_response_failure) (validate result)
    ok result

  -- One round of the loop: the call, and the decoding of its answer.
  unfoldable pub attempt :
      {R : Type 0} (from_value : Value → Option R) (validate : R → Checked)
      → Invoker Value
      → Text
      → ContentMethod
      → Value
      → ContentCandidate
      → Result R FailureData
  attempt from_value validate invoke request_id method params candidate = do
    response ← map_err invoke_failure (invoke request_id candidate method params)
    decode_result from_value validate response

-- The loop over a platform's candidates: a success ends it, and so does a failure where falling back
-- is not allowed or the failure is not retryable. `found` is the answer of the candidate that it
-- ended with, put into the result by `answer`.
unfoldable pub ask_in_turn :
    {R S : Type 0}
    → (ContentCandidate → Result R FailureData)
    → (ContentCandidate → R → List S × Option SourceCursor)
    → Bool
    → List ContentFailure
    → List ContentCandidate
    → PlatformResult S
unfolding is_retryable
ask_in_turn try answer allow_fallback failures [] = record {
  contents = [];
  failures = failures;
  next_cursor = none;
}
ask_in_turn try answer allow_fallback failures (c ∷ cs) = elim (try c) [
  | ok result ↦ record {
    contents = (answer c result).0;
    failures = failures;
    next_cursor = (answer c result).1;
  }
  | err failure ↦
      let failures' = failures ++ with_source (source_of c) failure ∷ [] in
      let later = ask_in_turn try answer allow_fallback failures' cs in
      if not allow_fallback || not (is_retryable failure.code)
      then record { contents = []; failures = failures'; next_cursor = none }
      else later
]

-- `plugin_cursor.map(|cursor| SourceCursor { .. })`.
abbrev pub source_cursor : ContentCandidate → Option Text → Option SourceCursor
source_cursor c none = none
source_cursor c (some cursor) =
    some (record { platform_id = c.platform_id; plugin_id = c.plugin_id; cursor = cursor })

abbrev pub search_answer :
    ContentCandidate → SearchResult → List SourcedContentItem × Option SourceCursor
search_answer c r = (
  map (λ item. record { item = item; source = source_of c }) r.items,
  source_cursor c r.next_cursor,
)

abbrev pub discover_answer :
    ContentCandidate → DiscoverResult → List SourcedDiscoverSection × Option SourceCursor
discover_answer c r = (
  map (λ section. record { section = section; source = source_of c }) r.sections,
  source_cursor c r.next_cursor,
)

abbrev pub categories_answer :
    ContentCandidate → CategoriesResult → List SourcedCategoryItem × Option SourceCursor
categories_answer c r = (map (λ item. record { item = item; source = source_of c }) r.items, none)

module _ {Value : Type 0} (json : ContentJson Value) (invoke : Invoker Value)
    (request_id : Text) where
  unfoldable pub search_platform :
      List ContentCandidate → Value → Bool → PlatformResult SourcedContentItem
  unfolding attempt ask_in_turn
  search_platform candidates params allow_fallback =
      ask_in_turn
        (attempt json json.search_from_value validate_search_result invoke request_id Content.search
          params)
        search_answer allow_fallback [] candidates

  unfoldable pub discover_platform :
      List ContentCandidate → Value → Bool → PlatformResult SourcedDiscoverSection
  unfolding attempt ask_in_turn
  discover_platform candidates params allow_fallback =
      ask_in_turn
        (attempt json json.discover_from_value validate_discover_result invoke request_id
          Content.discover params)
        discover_answer allow_fallback [] candidates

  -- No cursor comes out of the categories.
  unfoldable pub categories_platform :
      List ContentCandidate → Value → Bool → PlatformResult SourcedCategoryItem
  unfolding attempt ask_in_turn
  categories_platform candidates params allow_fallback =
      ask_in_turn
        (attempt json json.categories_from_value validate_categories_result invoke request_id
          Content.categories params)
        categories_answer allow_fallback [] candidates
