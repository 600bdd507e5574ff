-- ===== src/Content/Examples/Data.antt =====
-- Plugins, requests and a store for the examples of crates/audiodown-content: two plugins of one
-- platform, of which the first times out, and one plugin of another platform.
use mathlib.Core.List.{Permᴰ}
use mathlib.Core.List.Permᴰ as Perm
use audio_down_core.Base.{
  String, Bool, true, false, Option, none, some, List, [], ◌∷◌, ok, err, refl, if◌then◌else◌, ◌==◌,
}
use audio_down_core.Base.Int.{pos}
use audio_down_core.Base.Text.{Text, text, text_eq}
use audio_down_core.PluginApi.Error.{PluginErrorData}
use audio_down_core.PluginApi.Rpc.{JsonRpcResponse}
use audio_down_core.PluginApi.Content
use audio_down_core.PluginApi.Content.{
  ContentMethod, SearchRequest, DiscoverRequest, CategoriesRequest, SearchResult, DiscoverResult,
  CategoriesResult, ContentItem, DiscoverSection, CategoryItem, hero_carousel,
}
use audio_down_core.Content.Candidate.{ContentCandidate, ContentFilters}
use audio_down_core.Content.Cursor
use audio_down_core.Content.Cursor.{ContentCursorBinding, SourceCursor}
use audio_down_core.Content.Platform.{ContentJson, Invoker, timeout}
use audio_down_core.Content.Service.{
  Backend, SearchAggregationInput, DiscoverAggregationInput, CategoriesAggregationInput,
}
use audio_down_core.Content.Examples.Codec.{codec}

pub data Json : Type 0 where
  search_request : SearchRequest → Json
  discover_request : DiscoverRequest → Json
  categories_request : CategoriesRequest → Json
  search_result : SearchResult → Json
  discover_result : DiscoverResult → Json
  categories_result : CategoriesResult → Json
  error_data : PluginErrorData → Json

abbrev search_of : Json → Option SearchResult
search_of (search_result r) = some r
search_of _ = none

abbrev discover_of : Json → Option DiscoverResult
discover_of (discover_result r) = some r
discover_of _ = none

abbrev categories_of : Json → Option CategoriesResult
categories_of (categories_result r) = some r
categories_of _ = none

abbrev error_of : Json → Option PluginErrorData
error_of (error_data d) = some d
error_of _ = none

abbrev pub json : ContentJson Json
json = record {
  search_to_value = λ r. some (search_request r);
  discover_to_value = λ r. some (discover_request r);
  categories_to_value = λ r. some (categories_request r);
  search_from_value = search_of;
  discover_from_value = discover_of;
  categories_from_value = categories_of;
  error_from_value = error_of;
}

abbrev every_method : List ContentMethod
every_method = Content.search ∷ Content.discover ∷ Content.categories ∷ []

abbrev candidate_of : String → String → Bool → ContentCandidate
candidate_of plugin platform is_default = record {
  plugin_id = record { as_str = text plugin };
  plugin_name = text plugin;
  plugin_version = text "1";
  platform_id = text platform;
  priority = pos 0;
  is_default = is_default;
  search_enabled = true;
  discover_enabled = true;
  capabilities = every_method;
}

abbrev pub slow : ContentCandidate
slow = candidate_of "slow" "p" true

abbrev pub quick : ContentCandidate
quick = candidate_of "quick" "p" false

abbrev pub other : ContentCandidate
other = candidate_of "other" "q" true

abbrev pub listed : List ContentCandidate
listed = other ∷ quick ∷ slow ∷ []

abbrev pub item_of : String → Option Text → ContentItem
item_of id canonical_id = record {
  resource_type = Content.album;
  resource_id = text id;
  canonical_id = canonical_id;
  title = text "t";
  subtitle = none;
  description = none;
}

abbrev pub section_of : List ContentItem → DiscoverSection
section_of items = record { id = text "s"; title = text "t"; layout = hero_carousel; items = items }

abbrev pub category_of : String → Option Text → CategoryItem
category_of id canonical_id = record {
  resource_id = text id;
  canonical_id = canonical_id;
  title = text "t";
  description = none;
}

abbrev pub items : List ContentItem
items = item_of "i" (some (text "k")) ∷ item_of "j" none ∷ []

abbrev pub found : SearchResult
found = record { items = items; next_cursor = some (text "n") }

abbrev reply : Json → JsonRpcResponse Json
reply value = record { jsonrpc = text "2.0"; id = text "r"; result = some value; error = none }

abbrev answer_to : ContentMethod → Json
answer_to Content.search = search_result found
answer_to Content.discover =
    discover_result (record { sections = section_of items ∷ []; next_cursor = some (text "n") })
answer_to _ = categories_result (record { items = category_of "c" (some (text "k")) ∷ [] })

abbrev pub invoke : Invoker Json
invoke request_id c method params =
    if c.plugin_id.as_str == text "slow" then err timeout else ok (reply (answer_to method))

abbrev pub backend : Backend Json
backend = record {
  list_candidates = λ route. ok listed;
  invoke = invoke;
  json = json;
  codec = codec;
}

abbrev pub no_filters : ContentFilters
no_filters = record { platform_id = none; plugin_id = none }

abbrev pub search_input : SearchAggregationInput
search_input = record {
  request_id = text "r";
  query = text "a";
  limit = 10;
  filters = no_filters;
  cursor = none;
}

abbrev pub discover_input : DiscoverAggregationInput
discover_input = record { request_id = text "r"; limit = 10; filters = no_filters; cursor = none }

abbrev pub categories_input : CategoriesAggregationInput
categories_input = record { request_id = text "r"; filters = no_filters }

abbrev pub plugin_cursors : List SourceCursor
plugin_cursors =
    record { platform_id = text "p"; plugin_id = quick.plugin_id; cursor = text "n" }
    ∷ record { platform_id = text "q"; plugin_id = other.plugin_id; cursor = text "n" }
    ∷ []

abbrev pub binding : ContentCursorBinding
binding = record { operation = Cursor.search; query = some (text "a"); filters = no_filters }

abbrev pub other_binding : ContentCursorBinding
other_binding = record { operation = Cursor.search; query = some (text "b"); filters = no_filters }

-- The second call finishes first.
abbrev pub second_first {ℓ} : {A : Type ℓ} → List A → List A
second_first [] = []
second_first (x ∷ []) = x ∷ []
second_first (x ∷ y ∷ xs) = y ∷ x ∷ xs

pub second_first-perm {ℓ} : {A : Type ℓ} (xs : List A) → Permᴰ (second_first xs) xs
second_first-perm [] = Permᴰ.nil
second_first-perm (x ∷ []) = Perm.refl (x ∷ [])
second_first-perm (x ∷ y ∷ xs) = Permᴰ.swap refl refl
