-- ===== src/Content/Group.antt =====
-- crates/audiodown-content/src/router.rs: `group_candidates` and `prepare_groups`. The map is a
-- `BTreeMap` by platform, an association list in ascending order of its keys.
pub mod Partition
pub mod Prepared
use Prim.Native.Nat.{Ordering}
use audio_down_core.Base.{
  Bool, true, false, ◌&&◌, Option, none, some, List, [], ◌∷◌, ◌++◌, map, find, ◌==◌, Result, ok,
  err, ◌>>=◌, ok_or, traverse, map_err,
}
use audio_down_core.Base.Text.{Text, text_cmp, text_eq}
use audio_down_core.Domain.PluginId.{plugin_id_eq}
use audio_down_core.Content.Candidate.{ContentCandidate}
use audio_down_core.Content.Cursor.{
  ContentCursorBinding, ContentCursorError, CursorCodec, SourceCursor, binding_mismatch,
  decode_cursor,
}

abbrev pub Groups : Type 0
Groups = List (Text × List ContentCandidate)

-- `groups.entry(platform).or_default().push(candidate)`.
unfoldable pub push_group : ContentCandidate → Groups → Groups
push_group c [] = (c.platform_id, c ∷ []) ∷ []
push_group c ((key, group) ∷ rest) =
    let further = push_group c rest in
    elim (text_cmp c.platform_id key) [
      | Ordering.lt ↦ (c.platform_id, c ∷ []) ∷ (key, group) ∷ rest
      | Ordering.eq ↦ (key, group ++ c ∷ []) ∷ rest
      | Ordering.gt ↦ (key, group) ∷ further
    ]

-- The loop of `group_candidates`.
unfoldable pub group_into : Groups → List ContentCandidate → Groups
unfolding push_group
group_into groups [] = groups
group_into groups (c ∷ cs) = group_into (push_group c groups) cs

abbrev pub values : Groups → List (List ContentCandidate)
values groups = map (λ entry. entry.1) groups

unfoldable pub group_candidates : List ContentCandidate → List (List ContentCandidate)
unfolding group_into
group_candidates candidates = values (group_into [] candidates)

pub record CursorCandidateGroup : Type 0 where
  pub candidates : List ContentCandidate
  pub cursor : Option Text

-- The candidate that a plugin cursor names.
abbrev pub is_named_by : SourceCursor → ContentCandidate → Bool
is_named_by source candidate =
    candidate.platform_id == source.platform_id && candidate.plugin_id == source.plugin_id

-- One round of the loop over the plugin cursors.
unfoldable pub group_of_source :
    List ContentCandidate → SourceCursor → Result CursorCandidateGroup ContentCursorError
group_of_source candidates source = do
  candidate ← ok_or binding_mismatch (find (is_named_by source) candidates)
  ok (record { candidates = candidate ∷ []; cursor = some source.cursor })

-- `binding.filters.plugin_id.is_none()`.
abbrev pub is_none {ℓ} : {A : Type ℓ} → Option A → Bool
is_none none = true
is_none (some a) = false

-- The groups with the flag `allow_fallback`.
unfoldable pub prepare_groups :
    CursorCodec
    → List ContentCandidate
    → Option Text
    → ContentCursorBinding
    → Result (List CursorCandidateGroup × Bool) ContentCursorError
unfolding group_of_source
prepare_groups codec candidates none binding = ok (
  map (λ group. record { candidates = group; cursor = none }) (group_candidates candidates),
  is_none binding.filters.plugin_id,
)
prepare_groups codec candidates (some cursor) binding = do
  sources ← decode_cursor codec cursor binding
  groups ← traverse (group_of_source candidates) sources
  ok (groups, false)
