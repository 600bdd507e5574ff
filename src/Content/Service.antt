-- ===== src/Content/Service.antt =====
-- crates/audiodown-content/src/router.rs: `ContentAggregationService`. The calls to the platforms run
-- concurrently (`buffer_unordered`); `complete` is the order in which they finish, a rearrangement of
-- the numbered results, which the service then sorts by their numbers.
pub mod Schedule
mod Cursors
pub mod Paging
pub mod Resume
pub mod Inversion
pub mod Items
use Prim.Native.Nat.{Ordering, compare}
use audio_down_core.Base.{
  ℕ, suc, Bool, true, false, not, Option, none, some, List, [], ◌∷◌, ◌++◌, map, is_empty, Result,
  ok, err, ◌>>=◌, map_err, ok_or, traverse,
}
use audio_down_core.Base.Text.{Text}
use audio_down_core.Base.Sort.{sort_by}
use audio_down_core.PluginApi.Content
use audio_down_core.PluginApi.Content.{ContentMethod}
use audio_down_core.Content.Candidate.{
  ContentCandidate, ContentFilters, ContentRouteKind, search_route, discover_route,
  select_candidates,
}
use audio_down_core.Content.Cursor
use audio_down_core.Content.Cursor.{
  ContentCursorBinding, ContentCursorError, CursorCodec, SourceCursor, encode_cursor,
}
use audio_down_core.Content.Group.{CursorCandidateGroup, group_candidates, prepare_groups, is_none}
use audio_down_core.Content.Dedup.{
  SourcedContentItem, SourcedDiscoverSection, SourcedCategoryItem, deduplicate_items,
  deduplicate_sections, deduplicate_categories,
}
use audio_down_core.Content.Platform.{
  ContentJson, Invoker, PlatformResult, ContentFailure, search_platform, discover_platform,
  categories_platform,
}

pub data ContentServiceError : Type 0 where
  routing : Text → ContentServiceError
  request_serialization : ContentServiceError
  cursor : ContentCursorError → ContentServiceError

pub record AggregatedSearchResult : Type 0 where
  pub items : List SourcedContentItem
  pub next_cursor : Option Text
  pub failures : List ContentFailure
  pub had_candidates : Bool

pub record AggregatedDiscoverResult : Type 0 where
  pub sections : List SourcedDiscoverSection
  pub next_cursor : Option Text
  pub failures : List ContentFailure
  pub had_candidates : Bool

pub record AggregatedCategoriesResult : Type 0 where
  pub items : List SourcedCategoryItem
  pub failures : List ContentFailure
  pub had_candidates : Bool

pub record SearchAggregationInput : Type 0 where
  pub request_id : Text
  pub query : Text
  pub limit : ℕ
  pub filters : ContentFilters
  pub cursor : Option Text

pub record DiscoverAggregationInput : Type 0 where
  pub request_id : Text
  pub limit : ℕ
  pub filters : ContentFilters
  pub cursor : Option Text

pub record CategoriesAggregationInput : Type 0 where
  pub request_id : Text
  pub filters : ContentFilters

-- What the service is built on: the trait `ContentRoutingStore`, the trait `ContentPluginInvoker`,
-- and the codecs.
pub record Backend (Value : Type 0) : Type 0 where
  pub list_candidates : ContentRouteKind → Result (List ContentCandidate) ContentServiceError
  pub invoke : Invoker Value
  pub json : ContentJson Value
  pub codec : CursorCodec

-- `enumerate`, from a first number.
abbrev pub enumerate {ℓ} : {A : Type ℓ} → ℕ → List A → List (ℕ × A)
enumerate n [] = []
enumerate n (x ∷ xs) = (n, x) ∷ enumerate (suc n) xs

abbrev pub index_cmp {ℓ} : {A : Type ℓ} → ℕ × A → ℕ × A → Ordering
index_cmp a b = compare a.0 b.0

-- The numbered results as they finish, and back in order.
unfoldable pub gather {ℓ} : {A : Type ℓ} → (List (ℕ × A) → List (ℕ × A)) → List A → List A
unfolding sort_by
gather complete results = map (λ done. done.1) (sort_by index_cmp (complete (enumerate 0 results)))

-- The loop that puts the platforms' results together.
abbrev pub all_contents : {S : Type 0} → List (PlatformResult S) → List S
all_contents [] = []
all_contents (r ∷ rs) = r.contents ++ all_contents rs

abbrev pub all_failures : {S : Type 0} → List (PlatformResult S) → List ContentFailure
all_failures [] = []
all_failures (r ∷ rs) = r.failures ++ all_failures rs

abbrev pub cons_some {ℓ} : {A : Type ℓ} → Option A → List A → List A
cons_some none xs = xs
cons_some (some x) xs = x ∷ xs

abbrev pub next_sources : {S : Type 0} → List (PlatformResult S) → List SourceCursor
next_sources [] = []
next_sources (r ∷ rs) = cons_some r.next_cursor (next_sources rs)

abbrev pub search_binding : SearchAggregationInput → ContentCursorBinding
search_binding input = record {
  operation = Cursor.search;
  query = some input.query;
  filters = input.filters;
}

abbrev pub discover_binding : DiscoverAggregationInput → ContentCursorBinding
discover_binding input = record {
  operation = Cursor.discover;
  query = none;
  filters = input.filters;
}

module _ {Value : Type 0} (backend : Backend Value) where
  open backend use {list_candidates, invoke, json, codec}

  -- The parameters of a group's call.
  abbrev pub search_work :
      SearchAggregationInput
      → CursorCandidateGroup
      → Result (List ContentCandidate × Value) ContentServiceError
  search_work input group = do
    params ← ok_or request_serialization (
        json.search_to_value
          (record { query = input.query; cursor = group.cursor; limit = input.limit }))
    ok (group.candidates, params)

  abbrev pub discover_work :
      DiscoverAggregationInput
      → CursorCandidateGroup
      → Result (List ContentCandidate × Value) ContentServiceError
  discover_work input group = do
    params ←
        ok_or request_serialization
          (json.discover_to_value (record { cursor = group.cursor; limit = input.limit }))
    ok (group.candidates, params)

  -- The results of the platforms of a search, in order.
  abbrev pub search_results :
      SearchAggregationInput
      → Bool
      → List (List ContentCandidate × Value)
      → List (PlatformResult SourcedContentItem)
  search_results input allow_fallback work =
      map (λ w. search_platform json invoke input.request_id w.0 w.1 allow_fallback) work

  abbrev pub discover_results :
      DiscoverAggregationInput
      → Bool
      → List (List ContentCandidate × Value)
      → List (PlatformResult SourcedDiscoverSection)
  discover_results input allow_fallback work =
      map (λ w. discover_platform json invoke input.request_id w.0 w.1 allow_fallback) work

  -- The bodies of the three methods, up to how the results are gathered.
  unfoldable pub search_with :
      (List (PlatformResult SourcedContentItem) → List (PlatformResult SourcedContentItem))
      → SearchAggregationInput
      → Result AggregatedSearchResult ContentServiceError
  search_with gathered input = do
    candidates ← list_candidates search_route
    let selected = select_candidates candidates Content.search search_route input.filters
    (groups, allow_fallback) ←
        map_err cursor (prepare_groups codec selected input.cursor (search_binding input))
    work ← traverse (search_work input) groups
    let results = gathered (search_results input allow_fallback work)
    next_cursor ← map_err cursor (encode_cursor codec (search_binding input) (next_sources results))
    ok (record {
      items = deduplicate_items (all_contents results);
      next_cursor = next_cursor;
      failures = all_failures results;
      had_candidates = not (is_empty groups);
    })

  unfoldable pub discover_with :
      (List (PlatformResult SourcedDiscoverSection) → List (PlatformResult SourcedDiscoverSection))
      → DiscoverAggregationInput
      → Result AggregatedDiscoverResult ContentServiceError
  discover_with gathered input = do
    candidates ← list_candidates discover_route
    let selected = select_candidates candidates Content.discover discover_route input.filters
    (groups, allow_fallback) ←
        map_err cursor (prepare_groups codec selected input.cursor (discover_binding input))
    work ← traverse (discover_work input) groups
    let results = gathered (discover_results input allow_fallback work)
    next_cursor ←
        map_err cursor (encode_cursor codec (discover_binding input) (next_sources results))
    ok (record {
      sections = deduplicate_sections (all_contents results);
      next_cursor = next_cursor;
      failures = all_failures results;
      had_candidates = not (is_empty groups);
    })

  unfoldable pub categories_with :
      (List (PlatformResult SourcedCategoryItem) → List (PlatformResult SourcedCategoryItem))
      → CategoriesAggregationInput
      → Result AggregatedCategoriesResult ContentServiceError
  categories_with gathered input = do
    candidates ← list_candidates discover_route
    let groups =
        group_candidates
          (select_candidates candidates Content.categories discover_route input.filters)
    params ← ok_or request_serialization (json.categories_to_value (record {}))
    let results = gathered (
        map
          (λ group.
            categories_platform json invoke input.request_id group params
              (is_none input.filters.plugin_id))
          groups)
    ok (record {
      items = deduplicate_categories (all_contents results);
      failures = all_failures results;
      had_candidates = not (is_empty groups);
    })

  -- The methods. `complete` is the order in which the calls finish.
  unfoldable pub search :
      (List (ℕ × PlatformResult SourcedContentItem) → List (ℕ × PlatformResult SourcedContentItem))
      → SearchAggregationInput
      → Result AggregatedSearchResult ContentServiceError
  unfolding gather search_with
  search complete input = search_with (gather complete) input

  unfoldable pub discover :
      (List (ℕ × PlatformResult SourcedDiscoverSection)
        → List (ℕ × PlatformResult SourcedDiscoverSection))
      → DiscoverAggregationInput
      → Result AggregatedDiscoverResult ContentServiceError
  unfolding gather discover_with
  discover complete input = discover_with (gather complete) input

  unfoldable pub categories :
      (List (ℕ × PlatformResult SourcedCategoryItem)
        → List (ℕ × PlatformResult SourcedCategoryItem))
      → CategoriesAggregationInput
      → Result AggregatedCategoriesResult ContentServiceError
  unfolding gather categories_with
  categories complete input = categories_with (gather complete) input
