-- ===== src/Content/Dedup/Reference.antt =====
-- What crates/audiodown-content/src/dedup.rs keeps.
use audio_down_core.Base.{
  Bool, true, false, not, ◌&&◌, ap, Option, none, some, List, [], ◌∷◌, any, is_empty, nat_beq, Eq,
  ◌==◌, eq_iff, if◌then◌else◌, ◌≡◌, refl, arith, inl, inr, Option-cases,
}
use audio_down_core.Base.Text.{Text, text_eq}
use audio_down_core.PluginApi.Content.{ContentResourceType, album, track, category}
use audio_down_core.Content.Dedup.{
  SourcedContentItem, SourcedCategoryItem, resource_type_key, nonempty, item_key, category_key,
  keep, dedup_by, deduplicate_items, deduplicate_categories, key_eq,
}

-- The reference: an item goes if it is the same as one of all the items before it, kept or not.
pub firsts {ℓ} : {A : Type ℓ} → (A → A → Bool) → List A → List A → List A
firsts same earlier [] = []
firsts same earlier (x ∷ xs) =
    let rest = firsts same (x ∷ earlier) xs in if any (same x) earlier then rest else x ∷ rest

-- One resource type.
abbrev pub is_same_type : ContentResourceType → ContentResourceType → Bool
is_same_type album album = true
is_same_type track track = true
is_same_type category category = true
is_same_type _ _ = false

-- One canonical ID, which is not empty.
abbrev pub is_same_id : Option Text → Option Text → Bool
is_same_id (some a) (some b) = not (is_empty a) && (a == b)
is_same_id _ _ = false

abbrev pub is_same_item : SourcedContentItem → SourcedContentItem → Bool
is_same_item x y =
    is_same_type x.item.resource_type y.item.resource_type
    && is_same_id x.item.canonical_id y.item.canonical_id

abbrev pub is_same_category : SourcedCategoryItem → SourcedCategoryItem → Bool
is_same_category x y = is_same_id x.item.canonical_id y.item.canonical_id

module _ {ℓ κ} {A : Type ℓ} {K : Type κ} ⦃e : Eq K⦄ (key : A → Option K) where
  -- Whether the item has that key.
  abbrev pub has_key : K → A → Bool
  has_key k x = elim (key x) [ none ↦ false | some j ↦ k == j ]

  -- Whether the first item has a key, and the second has it too.
  abbrev shares : A → A → Bool
  shares x y = elim (key x) [ none ↦ false | some k ↦ has_key k y ]

  -- Whether the item has a key that one of the earlier items has.
  abbrev pub repeats : A → List A → Bool
  repeats x earlier = elim (key x) [ none ↦ false | some k ↦ any (has_key k) earlier ]

  any-same :
      (same : A → A → Bool)
      → ((x y : A) → same x y ≡ shares x y)
      → (x : A) (earlier : List A) → any (same x) earlier ≡ repeats x earlier
  any-same same agrees x [] = elim (Option-cases (key x)) [
    | inl keyless ↦ ground arith
    | inr (k, keyed) ↦ ground arith
  ]
  any-same same agrees x (y ∷ ys) = elim (Option-cases (key x)) [
    | inl keyless ↦ ground (arith, agrees x y, any-same same agrees x ys)
    | inr (k, keyed) ↦ ground (arith, agrees x y, any-same same agrees x ys)
  ]

  -- The set holds the keys of the earlier items.
  abbrev Covers : List K → List A → Type κ
  Covers seen earlier = (k : K) → any (◌==◌ k) seen ≡ any (has_key k) earlier

  Covers-keep :
      (seen : List K) (earlier : List A) (x : A)
      → Covers seen earlier
      → Covers (keep (key x) seen).1 (x ∷ earlier)
  Covers-keep seen earlier x covers k = elim (Option-cases (key x)) [
    | inl keyless ↦ ground (arith, covers k)
    | inr (j, keyed) ↦
        ground (arith, covers k, eq_iff k j, λ (p : k ≡ j). ap (λ z. any (◌==◌ z) seen) p)
  ]

  keep-repeats :
      (seen : List K) (earlier : List A) (x : A)
      → Covers seen earlier
      → (keep (key x) seen).0 ≡ not (repeats x earlier)
  keep-repeats seen earlier x covers = elim (Option-cases (key x)) [
    | inl keyless ↦ ground arith
    | inr (j, keyed) ↦ ground (arith, covers j)
  ]

  dedup_by-eq-firsts :
      (same : A → A → Bool)
      → ((x y : A) → same x y ≡ shares x y)
      → (seen : List K) (earlier xs : List A) → Covers seen earlier
      → dedup_by key seen xs ≡ firsts same earlier xs
  unfolding dedup_by firsts
  dedup_by-eq-firsts same agrees seen earlier [] covers = refl
  dedup_by-eq-firsts same agrees seen earlier (x ∷ xs) covers = ground (
    arith,
    keep-repeats seen earlier x covers,
    any-same same agrees x earlier,
    dedup_by-eq-firsts same agrees (keep (key x) seen).1 (x ∷ earlier) xs
        (Covers-keep seen earlier x covers),
  )

id_agrees : (a b : Option Text) → is_same_id a b ≡ shares nonempty a b
id_agrees none b = refl
id_agrees (some a) none = ground arith
id_agrees (some a) (some b) = ground (arith, eq_iff a b)

is_same_type-keys :
    (t u : ContentResourceType)
    → is_same_type t u ≡ nat_beq (resource_type_key t) (resource_type_key u)
is_same_type-keys album album = refl
is_same_type-keys album track = refl
is_same_type-keys album category = refl
is_same_type-keys track album = refl
is_same_type-keys track track = refl
is_same_type-keys track category = refl
is_same_type-keys category album = refl
is_same_type-keys category track = refl
is_same_type-keys category category = refl

item_agrees :
    (x y : SourcedContentItem)
    → is_same_item x y ≡ shares (λ (z : SourcedContentItem). item_key z.item) x y
unfolding item_key
item_agrees x y = elim (Option-cases (nonempty x.item.canonical_id)) [
  | inl bare ↦ ground (
    arith,
    bare,
    id_agrees x.item.canonical_id y.item.canonical_id,
    is_same_type-keys x.item.resource_type y.item.resource_type,
  )
  | inr (a, named) ↦ elim (Option-cases (nonempty y.item.canonical_id)) [
    | inl bare ↦ ground (
      arith,
      bare,
      named,
      id_agrees x.item.canonical_id y.item.canonical_id,
      is_same_type-keys x.item.resource_type y.item.resource_type,
    )
    | inr (b, other) ↦ ground (
      arith,
      named,
      other,
      id_agrees x.item.canonical_id y.item.canonical_id,
      is_same_type-keys x.item.resource_type y.item.resource_type,
    )
  ]
]

category_agrees :
    (x y : SourcedCategoryItem)
    → is_same_category x y ≡ shares (λ (z : SourcedCategoryItem). category_key z.item) x y
unfolding category_key
category_agrees x y = id_agrees x.item.canonical_id y.item.canonical_id

-- Of the items with one resource type and one non-empty canonical ID the first is kept, whatever
-- source it is from, every item without a canonical ID is kept, and the order stays.
pub deduplicate_items-eq-firsts :
    (items : List SourcedContentItem) → deduplicate_items items ≡ firsts is_same_item [] items
unfolding deduplicate_items
deduplicate_items-eq-firsts items =
    dedup_by-eq-firsts (λ x. item_key x.item) is_same_item item_agrees [] [] items (λ k. refl)

-- Of the categories with one non-empty canonical ID the first is kept, every category without one is
-- kept, and the order stays.
pub deduplicate_categories-eq-firsts :
    (items : List SourcedCategoryItem)
    → deduplicate_categories items ≡ firsts is_same_category [] items
unfolding deduplicate_categories
deduplicate_categories-eq-firsts items =
    dedup_by-eq-firsts (λ x. category_key x.item) is_same_category category_agrees [] [] items
      (λ k. refl)
