-- ===== src/Content/Service/Cursors.antt =====
-- The plugin cursors that a search collects for the next page, in
-- crates/audiodown-content/src/router.rs and src/cursor.rs.
use Prim.Native.Nat.{Ordering}
use mathlib.Core.List.{Memᴰ}
use audio_down_core.Base.{
  Bool, ◌≡◌, ◌≢◌, ◌≤◌, refl, sym, ◌∙◌, subst, suc, Option, none, some, List, [], ◌∷◌, length, All,
  All-mem, Zip, Result, ok, Option-cases, inl, inr, arith,
}
use audio_down_core.Base.Text.{Text, byte_len, text_cmp}
use audio_down_core.PluginApi.Content
use audio_down_core.PluginApi.Content.{SearchResult, max_cursor_bytes, validate_search_result}
use audio_down_core.PluginApi.Content.Laws.{IfSome, IsOpaque, validate_search_result_iff}
use audio_down_core.Content.Candidate.{ContentCandidate}
use audio_down_core.Content.Cursor.{SourceCursor}
use audio_down_core.Content.Cursor.Laws.{IsAscending}
use audio_down_core.Content.Group.Prepared.{IsAscendingPlatforms}
use audio_down_core.Content.Platform.{
  FailureData, attempt, search_answer, source_cursor, search_platform,
}
use audio_down_core.Content.Platform.Fallback.{next_cursor-answer}
use audio_down_core.Content.Platform.Answers.{attempt-validated}
use audio_down_core.Content.Service.{
  Backend, SearchAggregationInput, search_results, next_sources, cons_some,
}

-- The plugin cursor of a candidate: its platform and plugin, with a cursor of 1 to 4096 bytes.
pub record IsCursorOf (cs : List ContentCandidate) (s : SourceCursor) : Type 0 where
  pub candidate : ContentCandidate
  pub there : Memᴰ candidate cs
  pub platform : candidate.platform_id ≡ s.platform_id
  pub plugin : candidate.plugin_id ≡ s.plugin_id
  pub filled : s.cursor ≢ []
  pub short : byte_len s.cursor ≤ max_cursor_bytes

module _ {Value : Type 0} (backend : Backend Value) (input : SearchAggregationInput) where
  abbrev ask : Value → ContentCandidate → Result SearchResult FailureData
  ask params =
      attempt backend.json backend.json.search_from_value validate_search_result backend.invoke
        input.request_id Content.search params

  answer-IsCursorOf :
      (params : Value) (cs : List ContentCandidate) (c : ContentCandidate) (r : SearchResult)
      (s : SourceCursor)
      → Memᴰ c cs
      → ask params c ≡ ok r
      → source_cursor c r.next_cursor ≡ some s
      → IsCursorOf cs s
  answer-IsCursorOf params cs c r s there said h = elim (Option-cases r.next_cursor) [
    | inl absent ↦ absurd (ground arith)
    | inr (t, present) ↦
        let valid = (validate_search_result_iff r).0 (
          attempt-validated backend.json backend.json.search_from_value validate_search_result
            backend.invoke input.request_id Content.search params c said) in
        let (filled, short, _) : IsOpaque max_cursor_bytes t =
          subst (IfSome (IsOpaque max_cursor_bytes)) present valid.1.1 in
        let same : record { platform_id = c.platform_id; plugin_id = c.plugin_id; cursor = t } ≡ s =
          ground arith in
        subst (IsCursorOf cs) same (record {
          candidate = c;
          there = there;
          platform = refl;
          plugin = refl;
          filled = filled;
          short = short;
        })
  ]

  platform-IsCursorOf :
      (params : Value) (fallback : Bool) (cs : List ContentCandidate) (s : SourceCursor)
      → (search_platform backend.json backend.invoke input.request_id cs params
          fallback).next_cursor
        ≡ some s
      → IsCursorOf cs s
  unfolding search_platform
  platform-IsCursorOf params fallback cs s h =
      let (c, r, there, said, got) =
        next_cursor-answer (ask params) search_answer fallback cs s h in
      answer-IsCursorOf params cs c r s there said got

-- Lists that grow by an optional element.
All-cons_some {ℓ} :
    {A : Type 0} (P : A → Type ℓ) (o : Option A) (xs : List A)
    → ((a : A) → o ≡ some a → P a)
    → All P xs
    → All P (cons_some o xs)
All-cons_some P none xs f h = h
All-cons_some P (some a) xs f h = (f a refl, h)

IsAscending-cons_some :
    (o : Option SourceCursor) (xs : List SourceCursor)
    → ((s : SourceCursor)
        → o ≡ some s
        → All (λ (t : SourceCursor). text_cmp s.platform_id t.platform_id ≡ Ordering.lt) xs)
    → IsAscending xs
    → IsAscending (cons_some o xs)
IsAscending-cons_some none xs f h = h
IsAscending-cons_some (some s) xs f h = (f s refl, h)

length-cons_some {ℓ} :
    {A : Type ℓ} (o : Option A) (xs : List A) → length (cons_some o xs) ≤ suc (length xs)
length-cons_some none xs = omega arith
length-cons_some (some a) xs = omega arith

module _ {Value : Type 0} (backend : Backend Value) (input : SearchAggregationInput)
    (fallback : Bool) where
  abbrev pub sources : List (List ContentCandidate × Value) → List SourceCursor
  sources work = next_sources (search_results backend input fallback work)

  pub length-sources :
      (work : List (List ContentCandidate × Value)) → length (sources work) ≤ length work
  length-sources [] = omega arith
  length-sources ((cs, params) ∷ work) =
      omega (arith, length-sources work, length-cons_some {0} _ (sources work))

  -- The candidates of one platform's call.
  abbrev pub IsAt : Text → List ContentCandidate × Value → Type 0
  IsAt platform w = All (λ (c : ContentCandidate). c.platform_id ≡ platform) w.0

  IsCursorOf-platform :
      (platform : Text) (cs : List ContentCandidate) (s : SourceCursor)
      → All (λ (c : ContentCandidate). c.platform_id ≡ platform) cs
      → IsCursorOf cs s
      → s.platform_id ≡ platform
  IsCursorOf-platform platform cs s placed h =
      sym h.platform ∙ All-mem (λ (c : ContentCandidate). c.platform_id ≡ platform) h.there placed

  sources-above :
      (low : Text) (ps : List Text) (work : List (List ContentCandidate × Value))
      → All (λ q. text_cmp low q ≡ Ordering.lt) ps
      → Zip IsAt ps work
      → All (λ (t : SourceCursor). text_cmp low t.platform_id ≡ Ordering.lt) (sources work)
  sources-above low [] [] above placed = tt
  sources-above low [] (w ∷ work) above placed = absurd placed
  sources-above low (p ∷ ps) [] above placed = absurd placed
  sources-above low (p ∷ ps) ((cs, params) ∷ work) above placed =
      All-cons_some (λ (t : SourceCursor). text_cmp low t.platform_id ≡ Ordering.lt) _
        (sources work)
        (λ s h.
          let here =
            IsCursorOf-platform p cs s placed.0
              (platform-IsCursorOf backend input params fallback cs s h) in
          subst (λ q. text_cmp low q ≡ Ordering.lt) (sym here) above.0)
        (sources-above low ps work above.1 placed.1)

  pub sources-IsAscending :
      (ps : List Text) (work : List (List ContentCandidate × Value))
      → IsAscendingPlatforms ps
      → Zip IsAt ps work
      → IsAscending (sources work)
  sources-IsAscending [] [] ascending placed = tt
  sources-IsAscending [] (w ∷ work) ascending placed = absurd placed
  sources-IsAscending (p ∷ ps) [] ascending placed = absurd placed
  sources-IsAscending (p ∷ ps) ((cs, params) ∷ work) ascending placed =
      IsAscending-cons_some _ (sources work)
        (λ s h.
          let here =
            IsCursorOf-platform p cs s placed.0
              (platform-IsCursorOf backend input params fallback cs s h) in
          subst
            (λ q. All (λ (t : SourceCursor). text_cmp q t.platform_id ≡ Ordering.lt) (sources work))
            (sym here) (sources-above p ps work ascending.0 placed.1))
        (sources-IsAscending ps work ascending.1 placed.1)

  -- What holds of the plugin cursors of every chosen candidate holds of those collected.
  pub All-sources :
      (P : SourceCursor → Type 0) (Q : ContentCandidate → Type 0)
      (work : List (List ContentCandidate × Value))
      → ((s : SourceCursor) (cs : List ContentCandidate) → All Q cs → IsCursorOf cs s → P s)
      → All (λ w. All Q w.0) work
      → All P (sources work)
  All-sources P Q [] f h = tt
  All-sources P Q ((cs, params) ∷ work) f h =
      All-cons_some P _ (sources work)
        (λ s e. f s cs h.0 (platform-IsCursorOf backend input params fallback cs s e))
        (All-sources P Q work f h.1)
