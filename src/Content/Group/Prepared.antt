-- ===== src/Content/Group/Prepared.antt =====
-- What `prepare_groups` of crates/audiodown-content/src/router.rs hands to the plugins, on a first page
-- and on a resumed one.
use Prim.Native.Nat.{Ordering}
use audio_down_core.Base.{
  ◌≡◌, ◌≢◌, refl, sym, subst, Bool, true, false, Option, none, some, List, [], ◌∷◌, map, find, All,
  All-Zip, All-find, All-map_list, All-of_concat, All-trivial, Zip, arith, ok, traverse,
  traverse-Zip, Zip-map, true_of_and, Bool-cases, inl, inr, >>=-eq-ok, ◌>>=◌,
}
use audio_down_core.Base.Text.{Text, text_cmp, text_beq_iff, text_eq}
use audio_down_core.Base.Sort.{IsSorted}
use audio_down_core.Domain.PluginId.{plugin_id_eq, plugin_id_beq_iff}
use audio_down_core.Content.Candidate.{ContentCandidate, candidate_cmp}
use audio_down_core.Content.Cursor.{ContentCursorBinding, CursorCodec, SourceCursor, decode_cursor}
use audio_down_core.Content.Cursor.Laws.{IsAscending, decode_cursor-IsValidSources}
use audio_down_core.Content.Group.{
  Groups, values, group_candidates, CursorCandidateGroup, is_named_by, group_of_source,
  prepare_groups,
}
use audio_down_core.Content.Group.Partition.{
  IsGroup, IsBelow, HasAscendingKeys, group_candidates-partition,
}

-- The group of a plugin cursor: one candidate of the selection, the one that the cursor names, with
-- that cursor.
pub record IsResumed (candidates : List ContentCandidate) (source : SourceCursor)
    (group : CursorCandidateGroup) : Type 0 where
  pub candidate : ContentCandidate
  pub alone : group.candidates ≡ candidate ∷ []
  pub chosen : find (is_named_by source) candidates ≡ some candidate
  pub platform : candidate.platform_id ≡ source.platform_id
  pub plugin : candidate.plugin_id ≡ source.plugin_id
  pub resumes : group.cursor ≡ some source.cursor

find-holds {ℓ} : {A : Type ℓ} (p : A → Bool) (xs : List A) (x : A) → find p xs ≡ some x → p x ≡ true
find-holds p [] x h = cc
find-holds p (y ∷ ys) x h = elim (Bool-cases (p y)) [
  | inl found ↦ ground arith
  | inr missed ↦ find-holds p ys x (ground arith)
]

group_of_source-IsResumed :
    (candidates : List ContentCandidate) (source : SourceCursor) (group : CursorCandidateGroup)
    → group_of_source candidates source ≡ ok group
    → IsResumed candidates source group
unfolding group_of_source
group_of_source-IsResumed candidates source group h = go (find (is_named_by source) candidates) refl
  where
    go :
        (found : Option ContentCandidate)
        → find (is_named_by source) candidates ≡ found
        → IsResumed candidates source group
    go none e = absurd (ground arith)
    go (some c) e =
        let (here, there) = true_of_and _ _ (find-holds (is_named_by source) candidates c e) in
        record {
          candidate = c;
          alone = ground arith;
          chosen = e;
          platform = (text_beq_iff c.platform_id source.platform_id).0 here;
          plugin = (plugin_id_beq_iff c.plugin_id source.plugin_id).0 there;
          resumes = ground arith;
        }

-- The platforms of the groups: each group has a candidate, and all of its candidates are there.
abbrev pub IsOnPlatform : Text → CursorCandidateGroup → Type 0
IsOnPlatform platform group =
    (group.candidates ≢ [])
    × All (λ (c : ContentCandidate). c.platform_id ≡ platform) group.candidates

abbrev pub IsAscendingPlatforms : List Text → Type 0
IsAscendingPlatforms [] = Unit
IsAscendingPlatforms (p ∷ ps) = All (λ q. text_cmp p q ≡ Ordering.lt) ps × IsAscendingPlatforms ps

-- The groups stand in strictly ascending order of platform, one platform to a group.
pub record HasPlatforms (groups : List CursorCandidateGroup) : Type 0 where
  pub platforms : List Text
  pub ascending : IsAscendingPlatforms platforms
  pub placed : Zip IsOnPlatform platforms groups

abbrev fresh : List ContentCandidate → CursorCandidateGroup
fresh group = record { candidates = group; cursor = none }

IsBelow-map :
    (low : Text) (groups : Groups)
    → IsBelow low groups
    → All (λ q. text_cmp low q ≡ Ordering.lt) (map (λ e. e.0) groups)
IsBelow-map low [] h = tt
IsBelow-map low (e ∷ groups) h = (h.0, IsBelow-map low groups h.1)

fresh-ascending :
    (groups : Groups) → HasAscendingKeys groups → IsAscendingPlatforms (map (λ e. e.0) groups)
fresh-ascending [] h = tt
fresh-ascending (e ∷ groups) h = (IsBelow-map e.0 groups h.0, fresh-ascending groups h.1)

fresh-placed :
    (groups : Groups)
    → All IsGroup groups
    → Zip IsOnPlatform (map (λ e. e.0) groups) (map fresh (values groups))
fresh-placed [] h = tt
fresh-placed (e ∷ groups) h = (h.0, fresh-placed groups h.1)

resumed-ascending :
    (sources : List SourceCursor)
    → IsAscending sources
    → IsAscendingPlatforms (map (λ s. s.platform_id) sources)
resumed-ascending [] h = tt
resumed-ascending (s ∷ rest) h = (later rest h.0, resumed-ascending rest h.1)
  where
    later :
        (l : List SourceCursor)
        → All (λ (t : SourceCursor). text_cmp s.platform_id t.platform_id ≡ Ordering.lt) l
        → All (λ q. text_cmp s.platform_id q ≡ Ordering.lt) (map (λ t. t.platform_id) l)
    later [] k = tt
    later (t ∷ ts) k = (k.0, later ts k.1)

resumed-placed :
    (candidates : List ContentCandidate) (sources : List SourceCursor)
    (groups : List CursorCandidateGroup)
    → Zip (IsResumed candidates) sources groups
    → Zip IsOnPlatform (map (λ s. s.platform_id) sources) groups
resumed-placed candidates [] [] h = tt
resumed-placed candidates [] (g ∷ gs) h = absurd h
resumed-placed candidates (s ∷ ss) [] h = absurd h
resumed-placed candidates (s ∷ ss) (g ∷ gs) h =
    (rw h.0.alone ((λ e. cc), (h.0.platform, tt)), resumed-placed candidates ss gs h.1)

module _ (codec : CursorCodec) (candidates : List ContentCandidate)
    (binding : ContentCursorBinding) where
  -- A resumed page asks, for every plugin cursor that the cursor holds and in its order, exactly the
  -- selected candidate that the plugin cursor names, with that plugin cursor, and never falls back.
  pub prepare_groups-IsResumed :
      (cursor : Text) (groups : List CursorCandidateGroup) (fallback : Bool)
      → prepare_groups codec candidates (some cursor) binding ≡ ok (groups, fallback)
      → (sources : List SourceCursor) × (decode_cursor codec cursor binding ≡ ok sources)
        × Zip (IsResumed candidates) sources groups
        × (fallback ≡ false)
  unfolding prepare_groups
  prepare_groups-IsResumed cursor groups fallback h =
      let (sources, decoded, h₁) =
        >>=-eq-ok (decode_cursor codec cursor binding)
          (λ l. traverse (group_of_source candidates) l >>= λ gs. ok (gs, false)) h in
      let (gs, found, h₂) =
        >>=-eq-ok (traverse (group_of_source candidates) sources) (λ l. ok (l, false)) h₁ in
      let same : gs ≡ groups = ground arith in
      (
        sources,
        decoded,
        Zip-map (λ s g. group_of_source candidates s ≡ ok g) (IsResumed candidates)
            (group_of_source-IsResumed candidates) sources groups
            (traverse-Zip (group_of_source candidates) sources groups
              (subst (λ l. traverse (group_of_source candidates) sources ≡ ok l) same found)),
        ground arith,
      )

  -- On ranked candidates the groups of every page, fresh or resumed, are non-empty, each of one
  -- platform, and in strictly ascending order of platform.
  pub prepare_groups-HasPlatforms :
      (cursor : Option Text) (groups : List CursorCandidateGroup) (fallback : Bool)
      → IsSorted candidate_cmp candidates
      → prepare_groups codec candidates cursor binding ≡ ok (groups, fallback)
      → HasPlatforms groups
  prepare_groups-HasPlatforms (some cursor) groups fallback sorted h =
      let (sources, decoded, resumed, _) = prepare_groups-IsResumed cursor groups fallback h in
      let (_, _, ascending) = decode_cursor-IsValidSources codec cursor binding decoded in
      record {
        platforms = map (λ s. s.platform_id) sources;
        ascending = resumed-ascending sources ascending;
        placed = resumed-placed candidates sources groups resumed;
      }
  prepare_groups-HasPlatforms none groups fallback sorted h =
      let (keyed, same, (grouped, keys), _) = group_candidates-partition candidates sorted in
      let whole : groups ≡ map fresh (values keyed) =
        unfold prepare_groups in ground (arith, h, same) in
      record {
        platforms = map (λ e. e.0) keyed;
        ascending = fresh-ascending keyed keys;
        placed = rw whole (fresh-placed keyed grouped);
      }

  -- What holds of every candidate holds of every candidate of a group.
  pub prepare_groups-All :
      (P : ContentCandidate → Type 0) (cursor : Option Text) (groups : List CursorCandidateGroup)
      (fallback : Bool)
      → IsSorted candidate_cmp candidates
      → All P candidates
      → prepare_groups codec candidates cursor binding ≡ ok (groups, fallback)
      → All (λ (g : CursorCandidateGroup). All P g.candidates) groups
  prepare_groups-All P (some cursor) groups fallback sorted good h =
      let (sources, _, resumed, _) = prepare_groups-IsResumed cursor groups fallback h in
      All-Zip (λ (g : CursorCandidateGroup). All P g.candidates) (IsResumed candidates) (λ _. Unit)
        (λ s g _ r.
          rw r.alone (All-find P (is_named_by s) candidates r.candidate good r.chosen, tt))
        sources groups resumed (All-trivial sources)
  prepare_groups-All P none groups fallback sorted good h =
      let (_, _, _, flat) = group_candidates-partition candidates sorted in
      let whole : groups ≡ map fresh (group_candidates candidates) =
        unfold prepare_groups in ground (arith, h) in
      rw whole (
        All-map_list (λ (g : CursorCandidateGroup). All P g.candidates) fresh
          (group_candidates candidates)
          (All-of_concat P (group_candidates candidates) (subst (All P) (sym flat) good)))
