-- ===== src/Content/Candidate.antt =====
-- crates/audiodown-content/src/router.rs: candidates, filters, and what the routes choose.
use Prim.Native.Nat.{Ordering}
use audio_down_core.Base.{Bool, true, false, ◌&&◌, Option, none, some, List, filter, any, ◌==◌}
use audio_down_core.Base.Text.{Text, text_cmp, text_eq}
use audio_down_core.Base.Int.{ℤ, int_cmp}
use audio_down_core.Base.Order.{bool_cmp, ◌then_with◌}
use audio_down_core.Base.Sort.{sort_by}
use audio_down_core.Domain.PluginId.{PluginId, plugin_id_eq}
use audio_down_core.PluginApi.Content.{
  ContentMethod, search, discover, categories, album_get, tracks_list,
}

pub record ContentCandidate : Type 0 where
  pub plugin_id : PluginId
  pub plugin_name : Text
  pub plugin_version : Text
  pub platform_id : Text
  pub priority : ℤ
  pub is_default : Bool
  pub search_enabled : Bool
  pub discover_enabled : Bool
  pub capabilities : List ContentMethod

pub record ContentFilters : Type 0 where
  pub platform_id : Option Text
  pub plugin_id : Option PluginId

pub data ContentRouteKind : Type 0 where
  search_route discover_route : ContentRouteKind

-- The derived `PartialEq` of `ContentMethod`.
abbrev pub method_beq : ContentMethod → ContentMethod → Bool
method_beq search search = true
method_beq discover discover = true
method_beq categories categories = true
method_beq album_get album_get = true
method_beq tracks_list tracks_list = true
method_beq _ _ = false

abbrev pub participates : ContentRouteKind → ContentCandidate → Bool
participates search_route c = c.search_enabled
participates discover_route c = c.discover_enabled

-- `option.is_none_or(|value| f(value))`.
abbrev pub is_none_or {ℓ} : {A : Type ℓ} → (A → Bool) → Option A → Bool
is_none_or f none = true
is_none_or f (some a) = f a

-- The closure that `select_candidates` filters by.
unfoldable pub is_eligible :
    ContentMethod → ContentRouteKind → ContentFilters → ContentCandidate → Bool
is_eligible method route filters c =
    participates route c
    && any (method_beq method) c.capabilities
    && is_none_or (λ platform. c.platform_id == platform) filters.platform_id
    && is_none_or (λ plugin. c.plugin_id == plugin) filters.plugin_id

-- The comparison that `select_candidates` sorts by.
unfoldable pub candidate_cmp : ContentCandidate → ContentCandidate → Ordering
candidate_cmp left right =
    text_cmp left.platform_id right.platform_id
    then_with bool_cmp right.is_default left.is_default
    then_with int_cmp left.priority right.priority
    then_with text_cmp left.plugin_id.as_str right.plugin_id.as_str

unfoldable pub select_candidates :
    List ContentCandidate
    → ContentMethod
    → ContentRouteKind
    → ContentFilters
    → List ContentCandidate
unfolding is_eligible candidate_cmp sort_by
select_candidates candidates method route filters =
    sort_by candidate_cmp (filter (is_eligible method route filters) candidates)
