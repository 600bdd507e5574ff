-- ===== src/Content/Service/Resume.antt =====
-- From the cursor of a page to the calls of the next, in crates/audiodown-content/src/router.rs.
use mathlib.Core.List.{Memᴰ}
use audio_down_core.Base.{
  ℕ, Bool, ◌≡◌, true, false, refl, sym, ap, ◌∙◌, subst, some, List, [], ◌∷◌, find, All, All-mem,
  All-map, All-both, All-members, Zip, Result, ok, traverse, Bool-cases, inl, inr, arith,
}
use audio_down_core.Base.Text.{Text, text_beq_iff, text_eq}
use audio_down_core.Domain.PluginId.{PluginId, parse, plugin_id_eq, plugin_id_beq_iff}
use audio_down_core.Content.Candidate.{ContentCandidate, search_route}
use audio_down_core.Content.Select.{select_candidates-IsSorted}
use audio_down_core.Content.Cursor.{SourceCursor, IsCodec, decode_cursor}
use audio_down_core.Content.Cursor.Laws.{decode-encode_cursor}
use audio_down_core.Content.Dedup.{SourcedContentItem}
use audio_down_core.Content.Platform.{PlatformResult}
use audio_down_core.Content.Group.{
  CursorCandidateGroup, is_named_by, group_of_source, prepare_groups,
}
use audio_down_core.Content.Group.Prepared.{IsResumed, prepare_groups-IsResumed, prepare_groups-All}
use audio_down_core.Content.Service.{
  Backend, SearchAggregationInput, AggregatedSearchResult, search, search_binding,
}
use audio_down_core.Content.Service.Inversion.{selected, search_with-SearchSteps, work-All}
use audio_down_core.Content.Service.Schedule.{IsSchedule, search-eq-search_with}
use audio_down_core.Content.Service.Cursors.{IsCursorOf, sources, All-sources}
use audio_down_core.PluginApi.Content

find_of_mem {ℓ} :
    {A : Type ℓ} (p : A → Bool) {x : A} {xs : List A}
    → Memᴰ x xs
    → p x ≡ true
    → (y : A) × (find p xs ≡ some y)
find_of_mem p (Memᴰ.head {x = z} e) h = (z, ground (arith, ap p e))
find_of_mem p (Memᴰ.tail {x = z} there) h =
    let (y, found) = find_of_mem p there h in
    elim (Bool-cases (p z)) [ inl here ↦ (z, ground arith) | inr missed ↦ (y, ground arith) ]

traverse_of_All {ℓ} :
    {A B E : Type ℓ} (f : A → Result B E) (xs : List A)
    → All (λ x. (b : B) × (f x ≡ ok b)) xs
    → (bs : List B) × (traverse f xs ≡ ok bs)
traverse_of_All f [] h = ([], refl)
traverse_of_All f (x ∷ xs) h =
    let (b, e) = h.0 in let (bs, es) = traverse_of_All f xs h.1 in (b ∷ bs, ground arith)

-- A plugin ID that its parser gives back.
abbrev IsParsed : PluginId → Type 0
IsParsed id = parse id.as_str ≡ ok id

group_of_source-ok :
    (candidates : List ContentCandidate) (s : SourceCursor)
    → IsCursorOf candidates s
    → (g : CursorCandidateGroup) × (group_of_source candidates s ≡ ok g)
unfolding group_of_source
group_of_source-ok candidates s h =
    let named : is_named_by s h.candidate ≡ true = ground (
      arith,
      h.platform,
      h.plugin,
      (text_beq_iff h.candidate.platform_id s.platform_id).1,
      (plugin_id_beq_iff h.candidate.plugin_id s.plugin_id).1,
    ) in
    let (c, e) = find_of_mem (is_named_by s) h.there named in
    (record { candidates = c ∷ []; cursor = some s.cursor }, ground arith)

module _ {Value : Type 0} (backend : Backend Value) (input : SearchAggregationInput)
    (listed : List ContentCandidate) where
  -- What a good cursor gives: the plugin cursors in it, and a group for each.
  pub record NextPage (cursor : Text) : Type 0 where
    pub resumed : List SourceCursor
    pub groups : List CursorCandidateGroup
    pub read : decode_cursor backend.codec cursor (search_binding input) ≡ ok resumed
    pub prepared :
        prepare_groups backend.codec
          (selected backend input listed)
          (some cursor)
          (search_binding input)
        ≡ ok (groups, false)
    pub placed : Zip (IsResumed (selected backend input listed)) resumed groups

  abbrev Known : ContentCandidate → Type 0
  Known c = Memᴰ c (selected backend input listed) × IsParsed c.plugin_id

  page_of :
      (cursor : Text) (resumed : List SourceCursor)
      → decode_cursor backend.codec cursor (search_binding input) ≡ ok resumed
      → All (IsCursorOf (selected backend input listed)) resumed
      → NextPage cursor
  page_of cursor resumed read known =
      let (groups, found) =
        traverse_of_All (group_of_source (selected backend input listed)) resumed
          (All-map (group_of_source-ok (selected backend input listed)) resumed known) in
      let prepared : prepare_groups backend.codec (selected backend input listed) (some cursor)
            (search_binding input)
          ≡ ok (groups, false) =
        unfold prepare_groups in ground (arith, read, found) in
      let (others, read_too, placed, _) =
        prepare_groups-IsResumed backend.codec (selected backend input listed)
          (search_binding input) cursor groups false prepared in
      let same : others ≡ resumed = ground (arith, read, read_too) in
      record {
        resumed = resumed;
        groups = groups;
        read = read;
        prepared = prepared;
        placed = subst (λ l. Zip (IsResumed (selected backend input listed)) l groups) same placed;
      }

  -- The cursor that a successful search gives is good for the next page of the same query and
  -- filters, as long as the store lists the same candidates: it is decoded, every plugin cursor in it
  -- finds its candidate, and the next page asks exactly those, each with its own plugin cursor. The
  -- codec must undo its own encoding, and the plugin IDs must be ones that their parser accepts.
  pub search-NextPage :
      (complete : List (ℕ × PlatformResult SourcedContentItem)
        → List (ℕ × PlatformResult SourcedContentItem))
      (result : AggregatedSearchResult) (cursor : Text)
      → IsCodec backend.codec
      → IsSchedule complete
      → backend.list_candidates search_route ≡ ok listed
      → All (λ (c : ContentCandidate). IsParsed c.plugin_id) (selected backend input listed)
      → search backend complete input ≡ ok result
      → result.next_cursor ≡ some cursor
      → NextPage cursor
  search-NextPage complete result cursor laws schedule l ids h next =
      let steps =
        search_with-SearchSteps backend input listed result l
          (sym (search-eq-search_with backend complete input schedule) ∙ h) in
      let known = work-All backend input listed Known steps.groups steps.work steps.requested (
        prepare_groups-All backend.codec (selected backend input listed) (search_binding input)
          Known input.cursor steps.groups steps.fallback
          (select_candidates-IsSorted listed Content.search search_route input.filters)
          (All-both (λ c there parsed. (there, parsed)) (selected backend input listed)
            (All-members (selected backend input listed)) ids)
          steps.prepared) in
      page_of cursor (sources backend input steps.fallback steps.work)
        (decode-encode_cursor backend.codec (search_binding input) _ laws
          (All-sources backend input steps.fallback (λ s. IsParsed s.plugin_id) Known steps.work
            (λ s cs good h. subst IsParsed h.plugin (All-mem Known h.there good).1) known)
          (steps.encoded ∙ ap (λ o. ok o) next))
        (All-sources backend input steps.fallback (IsCursorOf (selected backend input listed)) Known
          steps.work
          (λ s cs good h. record {
            candidate = h.candidate;
            there = (All-mem Known h.there good).0;
            platform = h.platform;
            plugin = h.plugin;
            filled = h.filled;
            short = h.short;
          })
          known)
