-- ===== src/Content/Service/Paging.antt =====
-- From one page of a search to the next, in crates/audiodown-content/src/router.rs and src/cursor.rs.
use audio_down_core.Base.{
  Bool, ◌≡◌, ◌≤◌, subst, List, length, All, All-mem, Zip, Zip-compose, length-Zip, ok, traverse,
  traverse-Zip, arith,
}
use audio_down_core.Base.Text.{text_eq}
use audio_down_core.Domain.PluginId.{plugin_id_eq}
use audio_down_core.PluginApi.Content
use audio_down_core.Content.Candidate.{ContentCandidate, search_route}
use audio_down_core.Content.Select.{select_candidates-IsSorted}
use audio_down_core.Content.Cursor.{validate_sources, max_cursor_sources}
use audio_down_core.Content.Cursor.Laws.{IsPlatformId, IsValidSource, validate_sources_iff}
use audio_down_core.Content.Group.{CursorCandidateGroup, prepare_groups}
use audio_down_core.Content.Group.Prepared.{
  IsOnPlatform, prepare_groups-HasPlatforms, prepare_groups-All,
}
use audio_down_core.Content.Service.{
  Backend, SearchAggregationInput, search_work, search_results, search_binding, next_sources,
}
use audio_down_core.Content.Service.Inversion.{selected, work-placed, work-All}
use audio_down_core.Content.Service.Cursors.{
  IsAt, sources, length-sources, sources-IsAscending, All-sources,
}

abbrev HasPlatformId : ContentCandidate → Type 0
HasPlatformId c = IsPlatformId c.platform_id

module _ {Value : Type 0} (backend : Backend Value) (input : SearchAggregationInput)
    (listed : List ContentCandidate) where
  -- The plugin cursors that a search collects from its platforms always pass the validation that its
  -- own cursor's encoding begins with, so a search with at most 32 platforms never fails for their
  -- number, order, form or size: as long as the platforms of the candidates are well-formed.
  pub search-sources-valid :
      (groups : List CursorCandidateGroup) (fallback : Bool)
      (work : List (List ContentCandidate × Value))
      → All (λ (c : ContentCandidate). IsPlatformId c.platform_id) (selected backend input listed)
      → length groups ≤ max_cursor_sources
      → prepare_groups backend.codec
          (selected backend input listed)
          input.cursor
          (search_binding input)
        ≡ ok (groups, fallback)
      → traverse (search_work backend input) groups ≡ ok work
      → validate_sources (next_sources (search_results backend input fallback work)) ≡ ok tt
  search-sources-valid groups fallback work formed few prepared requested =
      let sorted = select_candidates-IsSorted listed Content.search search_route input.filters in
      let platforms =
        prepare_groups-HasPlatforms backend.codec (selected backend input listed)
          (search_binding input) input.cursor groups fallback sorted prepared in
      let linked = traverse-Zip (search_work backend input) groups work requested in
      let placed : Zip (IsAt backend input fallback) platforms.platforms work =
        Zip-compose IsOnPlatform (λ g w. search_work backend input g ≡ ok w)
          (IsAt backend input fallback)
          (λ p g w on link.
            subst (All (λ (c : ContentCandidate). c.platform_id ≡ p))
              (work-placed backend input listed g w link) on.1)
          platforms.platforms groups work platforms.placed linked in
      let formed_groups =
        prepare_groups-All backend.codec (selected backend input listed) (search_binding input)
          (λ c. IsPlatformId c.platform_id) input.cursor groups fallback sorted formed prepared in
      (validate_sources_iff (sources backend input fallback work)).1 (
        omega (
          arith,
          length-sources backend input fallback work,
          length-Zip (λ g w. search_work backend input g ≡ ok w) groups work linked,
        ),
        All-sources backend input fallback IsValidSource
            (λ (c : ContentCandidate). IsPlatformId c.platform_id) work
            (λ s cs ids h. (
              h.filled,
              h.short,
              subst IsPlatformId h.platform
                  (All-mem (λ (c : ContentCandidate). IsPlatformId c.platform_id) h.there ids),
            ))
            (work-All backend input listed HasPlatformId groups work requested formed_groups),
        sources-IsAscending backend input fallback platforms.platforms work platforms.ascending
            placed,
      )
