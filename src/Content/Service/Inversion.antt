-- ===== src/Content/Service/Inversion.antt =====
-- The steps of a successful search in crates/audiodown-content/src/router.rs.
use audio_down_core.Base.{
  Bool, subst, All, All-Zip, traverse-Zip, ◌≡◌, not, is_empty, List, traverse, ok, Result-cases,
  inl, inr, arith,
}
use audio_down_core.PluginApi.Content
use audio_down_core.Content.Candidate.{ContentCandidate, search_route, select_candidates}
use audio_down_core.Content.Cursor.{encode_cursor}
use audio_down_core.Content.Group.{CursorCandidateGroup, prepare_groups}
use audio_down_core.Content.Dedup.{deduplicate_items}
use audio_down_core.Content.Service.{
  Backend, SearchAggregationInput, AggregatedSearchResult, search_with, search_work, search_results,
  search_binding, all_contents, all_failures, next_sources,
}

module _ {Value : Type 0} (backend : Backend Value) (input : SearchAggregationInput)
    (listed : List ContentCandidate) where
  abbrev pub selected : List ContentCandidate
  selected = select_candidates listed Content.search search_route input.filters

  pub record SearchSteps (result : AggregatedSearchResult) : Type 0 where
    pub groups : List CursorCandidateGroup
    pub fallback : Bool
    pub work : List (List ContentCandidate × Value)
    pub prepared :
        prepare_groups backend.codec selected input.cursor (search_binding input)
        ≡ ok (groups, fallback)
    pub requested : traverse (search_work backend input) groups ≡ ok work
    pub encoded :
        encode_cursor backend.codec
          (search_binding input)
          (next_sources (search_results backend input fallback work))
        ≡ ok result.next_cursor
    pub items :
        result.items ≡ deduplicate_items (all_contents (search_results backend input fallback work))
    pub failures : result.failures ≡ all_failures (search_results backend input fallback work)
    pub had_candidates : result.had_candidates ≡ not (is_empty groups)

  pub search_with-SearchSteps :
      (result : AggregatedSearchResult)
      → backend.list_candidates search_route ≡ ok listed
      → search_with backend (λ results. results) input ≡ ok result
      → SearchSteps result
  unfolding search_with
  search_with-SearchSteps result l h =
      elim (Result-cases
        (prepare_groups backend.codec selected input.cursor (search_binding input))) [
          | inr (e, p) ↦ absurd (ground arith)
          | inl ((groups, fallback), p) ↦
              elim (Result-cases (traverse (search_work backend input) groups)) [
                | inr (e, q) ↦ absurd (ground arith)
                | inl (work, q) ↦
                    elim (Result-cases (
                      encode_cursor backend.codec (search_binding input)
                        (next_sources (search_results backend input fallback work)))) [
                          | inr (e, r) ↦ absurd (ground arith)
                          | inl (next, r) ↦ record {
                            groups = groups;
                            fallback = fallback;
                            work = work;
                            prepared = p;
                            requested = q;
                            encoded = ground arith;
                            items = ground arith;
                            failures = ground arith;
                            had_candidates = ground arith;
                          }
                        ]
              ]
        ]

  pub work-placed :
      (g : CursorCandidateGroup) (w : List ContentCandidate × Value)
      → search_work backend input g ≡ ok w
      → g.candidates ≡ w.0
  work-placed g w h = ground arith

  -- The calls of the platforms are made to the candidates of the groups.
  pub work-All :
      (P : ContentCandidate → Type 0) (groups : List CursorCandidateGroup)
      (work : List (List ContentCandidate × Value))
      → traverse (search_work backend input) groups ≡ ok work
      → All (λ (g : CursorCandidateGroup). All P g.candidates) groups
      → All (λ w. All P w.0) work
  work-All P groups work requested good =
      All-Zip (λ w. All P w.0) (λ g w. search_work backend input g ≡ ok w)
        (λ (g : CursorCandidateGroup). All P g.candidates)
        (λ g w holds e. subst (All P) (work-placed g w e) holds) groups work
        (traverse-Zip (search_work backend input) groups work requested) good
