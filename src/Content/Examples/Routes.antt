-- ===== src/Content/Examples/Routes.antt =====
-- Searches and their parts, from crates/audiodown-content/src/router.rs, on concrete plugins.
use mathlib.Core.List.{Permᴰ}
use audio_down_core.Base.{
  ◌≡◌, refl, true, false, Option, none, some, List, [], ◌∷◌, filter, concat, traverse, All, Zip,
  Result, ok, err, arith,
}
use audio_down_core.Base.Order.{is_eq}
use audio_down_core.Base.Sort.{insert_by, sort_by}
use audio_down_core.Base.Text.{Text, text, text_cmp, text_beq, trims_to_empty}
use audio_down_core.Domain.PluginId.{parse, matches_pattern, matches_rest}
use audio_down_core.PluginApi.Content
use audio_down_core.PluginApi.Content.{
  SearchResult, validate_search_result, validate_item_count, validate_content_item, validate_opaque,
  validate_optional_opaque, validate_nonempty, validate_optional_text,
}
use audio_down_core.PluginApi.Error.{is_retryable}
use audio_down_core.Content.Candidate.{
  ContentCandidate, search_route, is_eligible, candidate_cmp, select_candidates,
}
use audio_down_core.Content.Select.{
  IsEligible, IsRanked, select_candidates-IsSorted, select_candidates_correct,
}
use audio_down_core.Content.Cursor.{
  SourceCursor, decode_cursor, encode_cursor, canonical, request_fingerprint, valid_platform_id,
  validate_each, validate_sources,
}
use audio_down_core.Content.Cursor.Laws.{IsPlatformId, valid_platform_id_iff}
use audio_down_core.Content.Group.{
  Groups, CursorCandidateGroup, values, group_into, push_group, group_of_source, group_candidates,
  prepare_groups,
}
use audio_down_core.Content.Group.Partition.{IsGrouping, group_candidates-partition}
use audio_down_core.Content.Group.Prepared.{
  HasPlatforms, IsResumed, prepare_groups-IsResumed, prepare_groups-HasPlatforms,
}
use audio_down_core.Content.Platform.{
  FailureData, ContentFailure, attempt, search_answer, search_platform, decode_result,
  decode_response, ask_in_turn, invoke_failure,
}
use audio_down_core.Content.Dedup.{dedup_by, deduplicate_items, item_key}
use audio_down_core.Content.Platform.Fallback.{Outcome, result_of, ask_in_turn-Outcome}
use audio_down_core.Content.Service.{
  AggregatedSearchResult, search, search_with, gather, search_work, search_results, next_sources,
}
use audio_down_core.Content.Service.Inversion.{selected}
use audio_down_core.Content.Service.Schedule.{search-eq-search_with}
use audio_down_core.Content.Service.Items.{IsGoodItem, IsGoodFailure, search-IsGood}
use audio_down_core.Content.Service.Paging.{search-sources-valid}
use audio_down_core.Content.Service.Resume.{NextPage, search-NextPage}
use audio_down_core.Content.Examples.Codec.{codec, codec-IsCodec}
use audio_down_core.Content.Examples.Cursors.{encoded, encoded_of}
use audio_down_core.Content.Examples.Data.{
  Json, search_request, json, invoke, backend, listed, slow, quick, no_filters, binding,
  search_input, second_first, second_first-perm,
}

abbrev chosen : List ContentCandidate
unfolding select_candidates
chosen = select_candidates listed Content.search search_route no_filters

abbrev empty_page : AggregatedSearchResult
empty_page = record { items = []; next_cursor = none; failures = []; had_candidates = false }

-- The result of the search, whose second call finishes first.
abbrev page : AggregatedSearchResult
unfolding search
page = elim (search backend second_first search_input) [ ok r ↦ r | err e ↦ empty_page ]

abbrev next : Text
next = encoded_of (some page.next_cursor)

page-eq : (search backend second_first search_input ≡ ok page) × (page.next_cursor ≡ some next)
unfolding search prepare_groups group_candidates select_candidates text_cmp encode_cursor
    search_platform text_beq invoke_failure decode_result decode_response validate_search_result
    validate_item_count validate_content_item validate_opaque validate_optional_opaque
    validate_nonempty trims_to_empty insert_by sort_by candidate_cmp is_eligible canonical
    request_fingerprint valid_platform_id validate_each validate_sources dedup_by deduplicate_items
    item_key group_into push_group ask_in_turn attempt gather search_with validate_optional_text
    is_retryable
page-eq = (refl, refl)

select_candidates_correct_example :
    Permᴰ
      (select_candidates listed Content.search search_route no_filters)
      (filter (is_eligible Content.search search_route no_filters) listed)
    × All
        (IsEligible Content.search search_route no_filters)
        (select_candidates listed Content.search search_route no_filters)
    × IsRanked (select_candidates listed Content.search search_route no_filters)
    × ((c : ContentCandidate)
        → filter
            (λ d. is_eq (candidate_cmp c d))
            (select_candidates listed Content.search search_route no_filters)
          ≡ filter
              (λ d. is_eq (candidate_cmp c d))
              (filter (is_eligible Content.search search_route no_filters) listed))
select_candidates_correct_example =
    select_candidates_correct listed Content.search search_route no_filters

group_candidates-partition_example :
    (groups : Groups) × (group_candidates (selected backend search_input listed) ≡ values groups)
    × IsGrouping groups
    × (concat (group_candidates (selected backend search_input listed))
        ≡ selected backend search_input listed)
group_candidates-partition_example =
    group_candidates-partition (selected backend search_input listed)
      (select_candidates-IsSorted listed Content.search search_route no_filters)

search-eq-search_with_example :
    search backend second_first search_input ≡ search_with backend (λ results. results) search_input
search-eq-search_with_example =
    search-eq-search_with backend second_first search_input second_first-perm

search-IsGood_example :
    All (IsGoodItem listed no_filters) page.items
    × All (IsGoodFailure listed no_filters) page.failures
search-IsGood_example =
    search-IsGood backend search_input listed second_first page second_first-perm refl page-eq.0

-- The calls of the first page.
abbrev first_groups : List CursorCandidateGroup
unfolding prepare_groups select_candidates
first_groups = elim (prepare_groups codec (selected backend search_input listed) none binding) [
  | ok (groups, fallback) ↦ groups
  | err e ↦ []
]

first_groups-eq :
    prepare_groups codec (selected backend search_input listed) none binding
    ≡ ok (first_groups, true)
unfolding prepare_groups group_candidates select_candidates text_cmp text_beq insert_by sort_by
    candidate_cmp is_eligible group_into push_group
first_groups-eq = refl

abbrev first_work : List (List ContentCandidate × Json)
first_work = elim (traverse (search_work backend search_input) first_groups) [
  | ok work ↦ work
  | err e ↦ []
]

chosen-IsPlatformId :
    All
      (λ (c : ContentCandidate). IsPlatformId c.platform_id)
      (selected backend search_input listed)
unfolding select_candidates text_cmp insert_by sort_by candidate_cmp is_eligible valid_platform_id
chosen-IsPlatformId = (
  (valid_platform_id_iff (text "p")).0 refl,
  ((valid_platform_id_iff (text "p")).0 refl, ((valid_platform_id_iff (text "q")).0 refl, tt)),
)

chosen-parsed :
    All
      (λ (c : ContentCandidate). parse c.plugin_id.as_str ≡ ok c.plugin_id)
      (selected backend search_input listed)
unfolding select_candidates text_cmp insert_by sort_by candidate_cmp is_eligible parse
    matches_pattern matches_rest
chosen-parsed = (refl, (refl, (refl, tt)))

search-sources-valid_example :
    validate_sources (next_sources (search_results backend search_input true first_work)) ≡ ok tt
unfolding prepare_groups group_candidates select_candidates text_cmp text_beq insert_by sort_by
    candidate_cmp is_eligible group_into push_group
search-sources-valid_example =
    search-sources-valid backend search_input listed first_groups true first_work
      chosen-IsPlatformId (omega arith) first_groups-eq refl

search-NextPage_example : NextPage backend search_input listed next
search-NextPage_example =
    search-NextPage backend search_input listed second_first page next codec-IsCodec
      second_first-perm refl chosen-parsed page-eq.0 page-eq.1

-- The calls of the second page.
abbrev second_groups : List CursorCandidateGroup
unfolding prepare_groups select_candidates
second_groups =
    elim (prepare_groups codec (selected backend search_input listed) (some encoded) binding) [
      | ok (groups, fallback) ↦ groups
      | err e ↦ []
    ]

second_groups-eq :
    prepare_groups codec (selected backend search_input listed) (some encoded) binding
    ≡ ok (second_groups, false)
unfolding prepare_groups group_of_source select_candidates text_cmp text_beq insert_by sort_by
    candidate_cmp is_eligible encode_cursor decode_cursor canonical request_fingerprint
    valid_platform_id validate_each validate_sources
second_groups-eq = refl

prepare_groups-IsResumed_example :
    (sources : List SourceCursor) × (decode_cursor codec encoded binding ≡ ok sources)
    × Zip (IsResumed (selected backend search_input listed)) sources second_groups
    × (false ≡ false)
prepare_groups-IsResumed_example =
    prepare_groups-IsResumed codec (selected backend search_input listed) binding encoded
      second_groups false second_groups-eq

prepare_groups-HasPlatforms_example : HasPlatforms second_groups
prepare_groups-HasPlatforms_example =
    prepare_groups-HasPlatforms codec (selected backend search_input listed) binding (some encoded)
      second_groups false (select_candidates-IsSorted listed Content.search search_route no_filters)
      second_groups-eq

abbrev request : Json
request = search_request (record { query = text "a"; cursor = none; limit = 10 })

abbrev try_search : ContentCandidate → Result SearchResult FailureData
try_search =
    attempt json json.search_from_value validate_search_result invoke (text "r") Content.search
      request

ask_in_turn-Outcome_example :
    (fs : List ContentFailure) × (o : Option (ContentCandidate × SearchResult)) × Outcome try_search
      search_answer true
      (slow ∷ quick ∷ [])
      fs
      o
    × (ask_in_turn try_search search_answer true [] (slow ∷ quick ∷ [])
        ≡ result_of try_search search_answer true fs o)
ask_in_turn-Outcome_example = ask_in_turn-Outcome try_search search_answer true (slow ∷ quick ∷ [])
