-- ===== src/Content/Service/Items.antt =====
-- Where the items and the failures of a search come from, in crates/audiodown-content/src/router.rs.
use mathlib.Core.List.{Memᴰ}
use mathlib.Core.List.Permᴰ as Perm
use audio_down_core.Base.{
  ℕ, Bool, ◌≡◌, refl, sym, ◌∙◌, subst, Option, List, [], ◌∷◌, map, All, All-map, All-mem,
  All-append, All-filter, All-members, All-both, All-map_list, Result, ok, Eq, arith,
}
use audio_down_core.Base.Sort.{All-perm}
use audio_down_core.PluginApi.Content
use audio_down_core.PluginApi.Content.{ContentItem, SearchResult, validate_search_result}
use audio_down_core.PluginApi.Content.Laws.{IsValidItem, validate_search_result_iff}
use audio_down_core.Content.Candidate.{
  ContentCandidate, ContentFilters, search_route, is_eligible, select_candidates,
}
use audio_down_core.Content.Select.{
  IsEligible, select_candidates-IsSorted, select_candidates_correct,
}
use audio_down_core.Content.Group.Prepared.{prepare_groups-All}
use audio_down_core.Content.Dedup.{
  source_of, SourcedContentItem, keep, dedup_by, deduplicate_items, item_key, key_eq,
}
use audio_down_core.Content.Platform.{
  FailureData, ContentFailure, with_source, PlatformResult, attempt, search_answer, search_platform,
}
use audio_down_core.Content.Platform.Fallback.{All-contents, All-failures}
use audio_down_core.Content.Platform.Answers.{IsFixed, attempt-validated, attempt-IsFixed}
use audio_down_core.Content.Service.{
  Backend, SearchAggregationInput, AggregatedSearchResult, search, search_results, search_binding,
  all_contents, all_failures,
}
use audio_down_core.Content.Service.Inversion.{selected, search_with-SearchSteps, work-All}
use audio_down_core.Content.Service.Schedule.{IsSchedule, search-eq-search_with}

-- A candidate of the store that the search may use, by its route, its capability and the filters.
pub record IsChosen (listed : List ContentCandidate) (filters : ContentFilters)
    (c : ContentCandidate) : Type 0 where
  pub there : Memᴰ c listed
  pub eligible : IsEligible Content.search search_route filters c

-- A valid item, under the name of a chosen candidate.
pub record IsGoodItem (listed : List ContentCandidate) (filters : ContentFilters)
    (i : SourcedContentItem) : Type 0 where
  pub candidate : ContentCandidate
  pub chosen : IsChosen listed filters candidate
  pub named : i.source ≡ source_of candidate
  pub valid : IsValidItem i.item

-- A failure under the name of a chosen candidate, with a code and a text that the router wrote.
pub record IsGoodFailure (listed : List ContentCandidate) (filters : ContentFilters)
    (f : ContentFailure) : Type 0 where
  pub candidate : ContentCandidate
  pub chosen : IsChosen listed filters candidate
  pub failure : FailureData
  pub said : f ≡ with_source (source_of candidate) failure
  pub fixed : IsFixed failure

All-dedup_by {ℓ κ} :
    {A : Type ℓ} {K : Type κ} ⦃e : Eq K⦄ (P : A → Type 0) (key : A → Option K) (seen : List K)
    (xs : List A)
    → All P xs
    → All P (dedup_by key seen xs)
unfolding dedup_by
All-dedup_by P key seen [] h = tt
All-dedup_by P key seen (x ∷ xs) h = ground (arith, All-dedup_by P key (keep (key x) seen).1 xs h.1)

select_candidates-IsChosen :
    (listed : List ContentCandidate) (filters : ContentFilters)
    → All (IsChosen listed filters) (select_candidates listed Content.search search_route filters)
select_candidates-IsChosen listed filters =
    let (rearranged, eligible, _, _) =
      select_candidates_correct listed Content.search search_route filters in
    All-both (λ c there ok. record { there = there; eligible = ok })
      (select_candidates listed Content.search search_route filters)
      (All-perm (λ c. Memᴰ c listed) (Perm.symm rearranged)
        (All-filter (λ c. Memᴰ c listed) (is_eligible Content.search search_route filters) listed
          (All-members listed)))
      eligible

module _ {Value : Type 0} (backend : Backend Value) (input : SearchAggregationInput)
    (listed : List ContentCandidate) where
  abbrev GoodItem : SourcedContentItem → Type 0
  GoodItem = IsGoodItem listed input.filters

  abbrev GoodFailure : ContentFailure → Type 0
  GoodFailure = IsGoodFailure listed input.filters

  abbrev Chosen : ContentCandidate → Type 0
  Chosen = IsChosen listed input.filters

  module _ (params : Value) (fallback : Bool) (cs : List ContentCandidate)
      (chosen : All Chosen cs) where
    platform : PlatformResult SourcedContentItem
    platform = search_platform backend.json backend.invoke input.request_id cs params fallback

    abbrev ask : ContentCandidate → Result SearchResult FailureData
    ask =
        attempt backend.json backend.json.search_from_value validate_search_result backend.invoke
          input.request_id Content.search params

    answer-good :
        (c : ContentCandidate) (items : List ContentItem)
        → Chosen c
        → All IsValidItem items
        → All GoodItem (map (λ item. record { item = item; source = source_of c }) items)
    answer-good c items good valid =
        All-map_list GoodItem (λ item. record { item = item; source = source_of c }) items
          (All-map (λ i v. record { candidate = c; chosen = good; named = refl; valid = v }) items
            valid)

    platform-items : All GoodItem platform.contents
    unfolding platform search_platform
    platform-items = All-contents ask search_answer fallback cs GoodItem (λ c r there said.
        answer-good c r.items (All-mem Chosen there chosen)
          ((validate_search_result_iff r).0 (
            attempt-validated backend.json backend.json.search_from_value validate_search_result
              backend.invoke input.request_id Content.search params c said)).1.0)

    platform-failures : All GoodFailure platform.failures
    unfolding platform search_platform
    platform-failures = All-failures ask search_answer fallback GoodFailure cs (λ c f there said.
        record {
          candidate = c;
          chosen = All-mem Chosen there chosen;
          failure = f;
          said = refl;
          fixed =
              attempt-IsFixed backend.json backend.json.search_from_value validate_search_result
                backend.invoke input.request_id Content.search params c said;
        })

  results-good :
      (fallback : Bool) (work : List (List ContentCandidate × Value))
      → All (λ w. All Chosen w.0) work
      → All GoodItem (all_contents (search_results backend input fallback work))
        × All GoodFailure (all_failures (search_results backend input fallback work))
  unfolding platform
  results-good fallback [] h = (tt, tt)
  results-good fallback ((cs, params) ∷ work) h =
      let (items, failures) = results-good fallback work h.1 in
      (
        All-append GoodItem _ _ (platform-items params fallback cs h.0) items,
        All-append GoodFailure _ _ (platform-failures params fallback cs h.0) failures,
      )

  -- Whatever the plugins answer, and in whatever order: every item of a successful search is valid
  -- and stands under the name of a candidate of the store that takes part in searches, declares the
  -- capability and passes the filters; and so does every failure, whose text the router chose.
  pub search-IsGood :
      (complete : List (ℕ × PlatformResult SourcedContentItem)
        → List (ℕ × PlatformResult SourcedContentItem))
      (result : AggregatedSearchResult)
      → IsSchedule complete
      → backend.list_candidates search_route ≡ ok listed
      → search backend complete input ≡ ok result
      → All (IsGoodItem listed input.filters) result.items
        × All (IsGoodFailure listed input.filters) result.failures
  search-IsGood complete result schedule l h =
      let steps =
        search_with-SearchSteps backend input listed result l
          (sym (search-eq-search_with backend complete input schedule) ∙ h) in
      let groups_good =
        prepare_groups-All backend.codec (selected backend input listed) (search_binding input)
          Chosen input.cursor steps.groups steps.fallback
          (select_candidates-IsSorted listed Content.search search_route input.filters)
          (select_candidates-IsChosen listed input.filters) steps.prepared in
      let (items, failures) = results-good steps.fallback steps.work (
        work-All backend input listed Chosen steps.groups steps.work steps.requested groups_good) in
      (
        subst (All GoodItem) (sym steps.items)
            (unfold deduplicate_items in All-dedup_by GoodItem (λ x. item_key x.item) [] _ items),
        subst (All GoodFailure) (sym steps.failures) failures,
      )
