-- ===== src/Content/Select.antt =====
-- What `select_candidates` of crates/audiodown-content/src/router.rs chooses, and in which order.
use Prim.Native.Nat.{Ordering}
use mathlib.Core.List.{Permᴰ, Memᴰ}
use mathlib.Core.List.Permᴰ as Perm
use audio_down_core.Base.{
  ◌≡◌, ◌≢◌, ◌⊎◌, inl, inr, refl, sym, ap, Bool-cases, Eq, ◌==◌, eq_iff, any, Option, none, some,
  true, false, List, [], ◌∷◌, filter, All, All-map, All-filter_self, arith,
}
use audio_down_core.Base.Text.{text_cmp, text_cmp-IsLawful, eq_of_text_cmp, text_eq}
use audio_down_core.Base.Int.{int_cmp, int_cmp-IsLawful}
use audio_down_core.Base.Order.{
  IsLawful, bool_cmp, is_eq, then-IsLawful, reverse-IsLawful, key-IsLawful, bool_cmp-IsLawful,
}
use audio_down_core.Base.Sort.{sort_by-perm, sort_by-IsSorted, sort_by_stable, IsSorted, All-perm}
use audio_down_core.Domain.PluginId.{plugin_id_eq}
use audio_down_core.PluginApi.Content.{ContentMethod}
use audio_down_core.Content.Candidate.{
  ContentCandidate, ContentFilters, ContentRouteKind, participates, method_beq, is_none_or,
  is_eligible, candidate_cmp, select_candidates,
}

pub candidate_cmp-IsLawful : IsLawful candidate_cmp
unfolding candidate_cmp
candidate_cmp-IsLawful =
    then-IsLawful (key-IsLawful (λ (c : ContentCandidate). c.platform_id) text_cmp-IsLawful) (
      then-IsLawful
        (reverse-IsLawful (key-IsLawful (λ (c : ContentCandidate). c.is_default) bool_cmp-IsLawful))
        (then-IsLawful (key-IsLawful (λ (c : ContentCandidate). c.priority) int_cmp-IsLawful)
          (key-IsLawful (λ (c : ContentCandidate). c.plugin_id.as_str) text_cmp-IsLawful)))

-- The documented order of candidates: platform, the default first, priority, plugin ID.
pub data ComesBefore (a b : ContentCandidate) : Type 0 where
  by_platform : text_cmp a.platform_id b.platform_id ≡ Ordering.lt → ComesBefore a b
  by_default :
      a.platform_id ≡ b.platform_id → a.is_default ≡ true → b.is_default ≡ false → ComesBefore a b
  by_priority :
      a.platform_id ≡ b.platform_id
      → a.is_default ≡ b.is_default
      → int_cmp a.priority b.priority ≡ Ordering.lt
      → ComesBefore a b
  by_plugin :
      a.platform_id ≡ b.platform_id
      → a.is_default ≡ b.is_default
      → int_cmp a.priority b.priority ≡ Ordering.eq
      → text_cmp a.plugin_id.as_str b.plugin_id.as_str ≢ Ordering.gt
      → ComesBefore a b

candidate_cmp-ComesBefore :
    (a b : ContentCandidate) → candidate_cmp a b ≢ Ordering.gt → ComesBefore a b
unfolding candidate_cmp
candidate_cmp-ComesBefore a b h =
    split (text_cmp a.platform_id b.platform_id) (bool_cmp b.is_default a.is_default)
      (int_cmp a.priority b.priority) refl refl refl
  where
    split :
        (p d n : Ordering)
        → text_cmp a.platform_id b.platform_id ≡ p
        → bool_cmp b.is_default a.is_default ≡ d
        → int_cmp a.priority b.priority ≡ n
        → ComesBefore a b
    split Ordering.lt d n e f g = by_platform e
    split Ordering.gt d n e f g = absurd (ground (arith, h))
    split Ordering.eq Ordering.lt n e f g =
        by_default (eq_of_text_cmp _ _ e) (ground arith) (ground arith)
    split Ordering.eq Ordering.gt n e f g = absurd (ground (arith, h))
    split Ordering.eq Ordering.eq Ordering.lt e f g =
        by_priority (eq_of_text_cmp _ _ e) (ground arith) g
    split Ordering.eq Ordering.eq Ordering.gt e f g = absurd (ground (arith, h))
    split Ordering.eq Ordering.eq Ordering.eq e f g =
        by_plugin (eq_of_text_cmp _ _ e) (ground arith) g (ground (arith, h))

-- Every candidate comes before all that follow it.
abbrev pub IsRanked : List ContentCandidate → Type 0
IsRanked [] = Unit
IsRanked (c ∷ cs) = All (ComesBefore c) cs × IsRanked cs

IsRanked-of_IsSorted : (cs : List ContentCandidate) → IsSorted candidate_cmp cs → IsRanked cs
IsRanked-of_IsSorted [] h = tt
IsRanked-of_IsSorted (c ∷ cs) h =
    (All-map (candidate_cmp-ComesBefore c) cs h.0, IsRanked-of_IsSorted cs h.1)

-- A candidate that takes part in the route, declares the method and passes both filters.
pub record IsEligible (method : ContentMethod) (route : ContentRouteKind) (filters : ContentFilters)
    (c : ContentCandidate) : Type 0 where
  pub taking_part : participates route c ≡ true
  pub capable : Memᴰ method c.capabilities
  pub on_platform : (filters.platform_id ≡ none) ⊎ (filters.platform_id ≡ some c.platform_id)
  pub by_the_plugin : (filters.plugin_id ≡ none) ⊎ (filters.plugin_id ≡ some c.plugin_id)

method_beq_lem : (m n : ContentMethod) → method_beq m n ≡ true → m ≡ n
method_beq_lem m n h = ground arith

mem_of_any :
    (m : ContentMethod) (ms : List ContentMethod) → any (method_beq m) ms ≡ true → Memᴰ m ms
mem_of_any m [] h = absurd (ground arith)
mem_of_any m (n ∷ ns) h = elim (Bool-cases (method_beq m n)) [
  | inl same ↦ Memᴰ.head (method_beq_lem m n same)
  | inr other ↦ Memᴰ.tail (mem_of_any m ns (ground arith))
]

is_none_or_lem {ℓ} :
    {A : Type ℓ} ⦃e : Eq A⦄ (a : A) (o : Option A)
    → is_none_or (λ b. a == b) o ≡ true
    → (o ≡ none) ⊎ (o ≡ some a)
is_none_or_lem a none h = inl refl
is_none_or_lem a (some b) h = inr (ap some (sym ((eq_iff a b).0 h)))

is_eligible_sound :
    (method : ContentMethod) (route : ContentRouteKind) (filters : ContentFilters)
    (c : ContentCandidate)
    → is_eligible method route filters c ≡ true
    → IsEligible method route filters c
unfolding is_eligible
is_eligible_sound method route filters c h = record {
  taking_part = ground arith;
  capable = mem_of_any method c.capabilities (ground arith);
  on_platform = is_none_or_lem c.platform_id filters.platform_id (ground arith);
  by_the_plugin = is_none_or_lem c.plugin_id filters.plugin_id (ground arith);
}

module _ (candidates : List ContentCandidate) (method : ContentMethod) (route : ContentRouteKind)
    (filters : ContentFilters) where
  pub select_candidates-perm :
      Permᴰ
        (select_candidates candidates method route filters)
        (filter (is_eligible method route filters) candidates)
  unfolding select_candidates
  select_candidates-perm =
      sort_by-perm candidate_cmp (filter (is_eligible method route filters) candidates)

  pub select_candidates-IsSorted :
      IsSorted candidate_cmp (select_candidates candidates method route filters)
  unfolding select_candidates
  select_candidates-IsSorted =
      sort_by-IsSorted candidate_cmp-IsLawful (filter (is_eligible method route filters) candidates)

  -- The selection is a rearrangement of the eligible candidates, each of which takes part in the
  -- route, declares the method and passes the filters; it is ranked by platform, default flag,
  -- priority and plugin ID; and candidates that compare equal keep the order of the input.
  pub select_candidates_correct :
      Permᴰ
        (select_candidates candidates method route filters)
        (filter (is_eligible method route filters) candidates)
      × All (IsEligible method route filters) (select_candidates candidates method route filters)
      × IsRanked (select_candidates candidates method route filters)
      × ((c : ContentCandidate)
          → filter
              (λ d. is_eq (candidate_cmp c d))
              (select_candidates candidates method route filters)
            ≡ filter
                (λ d. is_eq (candidate_cmp c d))
                (filter (is_eligible method route filters) candidates))
  unfolding select_candidates
  select_candidates_correct =
      let chosen = filter (is_eligible method route filters) candidates in
      (
        select_candidates-perm,
        All-perm (IsEligible method route filters) (Perm.symm select_candidates-perm) (
            All-map (is_eligible_sound method route filters) chosen (All-filter_self _ candidates)),
        IsRanked-of_IsSorted _ select_candidates-IsSorted,
        λ c. sort_by_stable candidate_cmp-IsLawful c chosen,
      )
