-- ===== src/Content/Group/Partition.antt =====
-- `group_candidates` of crates/audiodown-content/src/router.rs splits the ranked candidates by platform.
use Prim.Native.Nat.{Ordering}
use mathlib.Core.List.{append_assoc, append-nil}
use audio_down_core.Base.{
  ◌≡◌, ◌≢◌, refl, sym, ap, ◌∙◌, List, [], ◌∷◌, ◌++◌, concat, All, All-map, All-append, arith, inl,
  inr,
}
use audio_down_core.Base.Text.{Text, text_cmp, text_cmp-IsLawful, eq_of_text_cmp}
use audio_down_core.Base.Order.{Ordering-cases}
use audio_down_core.Base.Sort.{IsSorted}
use audio_down_core.Content.Candidate.{ContentCandidate, candidate_cmp}
use audio_down_core.Content.Group.{Groups, push_group, group_into, values, group_candidates}

-- The candidates of a group are there, and are all of its platform.
abbrev pub IsGroup : Text × List ContentCandidate → Type 0
IsGroup entry = (entry.1 ≢ []) × All (λ (c : ContentCandidate). c.platform_id ≡ entry.0) entry.1

abbrev pub IsBelow : Text → Groups → Type 0
IsBelow key groups =
    All (λ (e : Text × List ContentCandidate). text_cmp key e.0 ≡ Ordering.lt) groups

-- Each key comes strictly before the later ones.
abbrev pub HasAscendingKeys : Groups → Type 0
HasAscendingKeys [] = Unit
HasAscendingKeys (e ∷ groups) = IsBelow e.0 groups × HasAscendingKeys groups

abbrev pub IsGrouping : Groups → Type 0
IsGrouping groups = All IsGroup groups × HasAscendingKeys groups

append-ne-nil {ℓ} : {A : Type ℓ} (xs : List A) (x : A) → xs ++ x ∷ [] ≢ []
append-ne-nil [] x = cc
append-ne-nil (y ∷ xs) x = cc

-- The three cases of an insertion, as equations.
module _ (c : ContentCandidate) (key : Text) (group : List ContentCandidate) (rest : Groups) where
  push_group_lt :
      text_cmp c.platform_id key ≡ Ordering.lt
      → push_group c ((key, group) ∷ rest) ≡ (c.platform_id, c ∷ []) ∷ (key, group) ∷ rest
  unfolding push_group
  push_group_lt e = rw (e, push_group)

  push_group_eq :
      text_cmp c.platform_id key ≡ Ordering.eq
      → push_group c ((key, group) ∷ rest) ≡ (key, group ++ c ∷ []) ∷ rest
  unfolding push_group
  push_group_eq e = rw (e, push_group)

  push_group_gt :
      text_cmp c.platform_id key ≡ Ordering.gt
      → push_group c ((key, group) ∷ rest) ≡ (key, group) ∷ push_group c rest
  unfolding push_group
  push_group_gt e = rw (e, push_group)

push_group-IsGroup :
    (c : ContentCandidate) (groups : Groups)
    → All IsGroup groups
    → All IsGroup (push_group c groups)
unfolding push_group
push_group-IsGroup c [] h = ((λ e. cc, (refl, tt)), tt)
push_group-IsGroup c ((key, group) ∷ rest) h = elim (Ordering-cases (text_cmp c.platform_id key)) [
  | inl below ↦ rw (push_group_lt c key group rest below) ((λ e. cc, (refl, tt)), h)
  | inr (inl same) ↦ rw (push_group_eq c key group rest same) (
    (
      append-ne-nil group c,
      All-append (λ (d : ContentCandidate). d.platform_id ≡ key) group (c ∷ []) h.0.1
          (eq_of_text_cmp _ _ same, tt),
    ),
    h.1,
  )
  | inr (inr above) ↦ rw (push_group_gt c key group rest above) (h.0, push_group-IsGroup c rest h.1)
]

-- What holds of the keys and of the platform of the new candidate holds of the new keys.
push_group-keys :
    (P : Text → Type 0) (c : ContentCandidate) (groups : Groups)
    → P c.platform_id
    → All (λ (e : Text × List ContentCandidate). P e.0) groups
    → All (λ (e : Text × List ContentCandidate). P e.0) (push_group c groups)
unfolding push_group
push_group-keys P c [] p h = (p, tt)
push_group-keys P c ((key, group) ∷ rest) p h = elim (Ordering-cases (text_cmp c.platform_id key)) [
  | inl below ↦ rw (push_group_lt c key group rest below) (p, h)
  | inr (inl same) ↦ rw (push_group_eq c key group rest same) h
  | inr (inr above) ↦
      rw (push_group_gt c key group rest above) (h.0, push_group-keys P c rest p h.1)
]

push_group-HasAscendingKeys :
    (c : ContentCandidate) (groups : Groups)
    → HasAscendingKeys groups
    → HasAscendingKeys (push_group c groups)
unfolding push_group
push_group-HasAscendingKeys c [] h = (tt, tt)
push_group-HasAscendingKeys c ((key, group) ∷ rest) h =
    elim (Ordering-cases (text_cmp c.platform_id key)) [
      | inl below ↦
          let further =
            All-map
              (λ (e : Text × List ContentCandidate).
                text_cmp-IsLawful.lt_trans c.platform_id key e.0 below)
              rest h.0 in
          rw (push_group_lt c key group rest below) ((below, further), h)
      | inr (inl same) ↦ rw (push_group_eq c key group rest same) h
      | inr (inr above) ↦
          let first : text_cmp key c.platform_id ≡ Ordering.lt =
            ground (arith, text_cmp-IsLawful.swapped c.platform_id key) in
          rw (push_group_gt c key group rest above) (
            push_group-keys (λ k. text_cmp key k ≡ Ordering.lt) c rest first h.0,
            push_group-HasAscendingKeys c rest h.1,
          )
    ]

-- No key comes after the platform of the candidate.
abbrev IsUpTo : Groups → ContentCandidate → Type 0
IsUpTo groups c =
    All (λ (e : Text × List ContentCandidate). text_cmp c.platform_id e.0 ≢ Ordering.lt) groups

-- A candidate of the last platform, or of a later one, goes to the end.
concat-push_group :
    (c : ContentCandidate) (groups : Groups)
    → HasAscendingKeys groups
    → IsUpTo groups c
    → concat (values (push_group c groups)) ≡ concat (values groups) ++ c ∷ []
unfolding push_group
concat-push_group c [] h up = refl
concat-push_group c ((key, group) ∷ []) h up = elim (Ordering-cases (text_cmp c.platform_id key)) [
  | inl below ↦ absurd (up.0 below)
  | inr (inl same) ↦ rw (push_group_eq c key group [] same) (simp append-nil)
  | inr (inr above) ↦ rw (push_group_gt c key group [] above) (simp append-nil)
]
concat-push_group c ((key, group) ∷ (next, g) ∷ rest) h up =
    elim (Ordering-cases (text_cmp c.platform_id key)) [
      | inl below ↦ absurd (up.0 below)
      | inr (inl same) ↦
          absurd (up.1.0 (text_cmp-IsLawful.congruent c.platform_id key next same ∙ h.0.0))
      | inr (inr above) ↦ rw (push_group_gt c key group ((next, g) ∷ rest) above) (
          ap (λ l. group ++ l) (concat-push_group c ((next, g) ∷ rest) h.1 up.1)
          ∙ sym (append_assoc group (concat (values ((next, g) ∷ rest))) (c ∷ [])))
    ]

abbrev platform_cmp : ContentCandidate → ContentCandidate → Ordering
platform_cmp a b = text_cmp a.platform_id b.platform_id

IsUpTo-push_group :
    (c d : ContentCandidate) (groups : Groups)
    → platform_cmp c d ≢ Ordering.gt
    → IsUpTo groups d
    → IsUpTo (push_group c groups) d
IsUpTo-push_group c d groups h up =
    push_group-keys (λ k. text_cmp d.platform_id k ≢ Ordering.lt) c groups
      (ground (arith, text_cmp-IsLawful.swapped c.platform_id d.platform_id)) up

ups-push_group :
    (c : ContentCandidate) (groups : Groups) (cs : List ContentCandidate)
    → All (λ d. platform_cmp c d ≢ Ordering.gt) cs
    → All (IsUpTo groups) cs
    → All (IsUpTo (push_group c groups)) cs
ups-push_group c groups [] later up = tt
ups-push_group c groups (d ∷ ds) later up =
    (IsUpTo-push_group c d groups later.0 up.0, ups-push_group c groups ds later.1 up.1)

concat-group_into :
    (groups : Groups) (cs : List ContentCandidate)
    → HasAscendingKeys groups
    → All (IsUpTo groups) cs
    → IsSorted platform_cmp cs
    → concat (values (group_into groups cs)) ≡ concat (values groups) ++ cs
unfolding group_into
concat-group_into groups [] keys up sorted = sym (append-nil _)
concat-group_into groups (c ∷ cs) keys up sorted =
    concat-group_into (push_group c groups) cs (push_group-HasAscendingKeys c groups keys)
      (ups-push_group c groups cs sorted.0 up.1) sorted.1
    ∙ (ap (λ l. l ++ cs) (concat-push_group c groups keys up.0)
        ∙ append_assoc (concat (values groups)) (c ∷ []) cs)

group_into-IsGrouping :
    (groups : Groups) (cs : List ContentCandidate)
    → IsGrouping groups
    → IsGrouping (group_into groups cs)
unfolding group_into
group_into-IsGrouping groups [] h = h
group_into-IsGrouping groups (c ∷ cs) h =
    group_into-IsGrouping (push_group c groups) cs
      (push_group-IsGroup c groups h.0, push_group-HasAscendingKeys c groups h.1)

IsSorted-platform_cmp :
    (cs : List ContentCandidate) → IsSorted candidate_cmp cs → IsSorted platform_cmp cs
unfolding candidate_cmp
IsSorted-platform_cmp [] h = tt
IsSorted-platform_cmp (c ∷ cs) h = (
  All-map (λ (d : ContentCandidate) (p : candidate_cmp c d ≢ Ordering.gt). ground arith) cs h.0,
  IsSorted-platform_cmp cs h.1,
)

All-up : (cs : List ContentCandidate) → All (IsUpTo []) cs
All-up [] = tt
All-up (c ∷ cs) = (tt, All-up cs)

-- The groups of ranked candidates are non-empty, each of one platform, in strictly ascending order of
-- platform; one after the other they are the candidates in their order, none lost, added or moved.
pub group_candidates-partition :
    (cs : List ContentCandidate)
    → IsSorted candidate_cmp cs
    → (groups : Groups) × (group_candidates cs ≡ values groups)
      × IsGrouping groups
      × (concat (group_candidates cs) ≡ cs)
unfolding group_candidates
group_candidates-partition cs sorted = (
  group_into [] cs,
  refl,
  group_into-IsGrouping [] cs (tt, tt),
  concat-group_into [] cs tt (All-up cs) (IsSorted-platform_cmp cs sorted),
)
