-- ===== src/Content/Dedup.antt =====
-- crates/audiodown-content/src/dedup.rs, and the items with their source of src/router.rs. The set
-- `seen` is the list of the keys that were inserted.
pub mod Reference
pub mod Sections
use audio_down_core.Base.{
  ℕ, Bool, true, false, ◌&&◌, ◌||◌, Option, none, some, List, [], ◌∷◌, any, is_empty, nat_beq, Eq,
  ◌==◌, if◌then◌else◌, ◌≡◌, ◌↔◌, arith,
}
use audio_down_core.Base.Text.{Text, text_beq, text_beq_iff, text_eq}
use audio_down_core.Domain.PluginId.{PluginId}
use audio_down_core.PluginApi.Content.{
  ContentResourceType, album, track, category, ContentItem, DiscoverSection, CategoryItem,
}
use audio_down_core.Content.Candidate.{ContentCandidate}

pub record ContentSource : Type 0 where
  pub plugin_id : PluginId
  pub plugin_name : Text
  pub plugin_version : Text
  pub platform_id : Text

-- `ContentSource::from(&candidate)`.
abbrev pub source_of : ContentCandidate → ContentSource
source_of c = record {
  plugin_id = c.plugin_id;
  plugin_name = c.plugin_name;
  plugin_version = c.plugin_version;
  platform_id = c.platform_id;
}

pub record SourcedContentItem : Type 0 where
  pub item : ContentItem
  pub source : ContentSource

pub record SourcedDiscoverSection : Type 0 where
  pub section : DiscoverSection
  pub source : ContentSource

pub record SourcedCategoryItem : Type 0 where
  pub item : CategoryItem
  pub source : ContentSource

abbrev pub resource_type_key : ContentResourceType → ℕ
resource_type_key album = 0
resource_type_key track = 1
resource_type_key category = 2

abbrev pub Key : Type 0
Key = ℕ × Text

pub key_beq_iff : (a b : Key) → ((nat_beq a.0 b.0 && text_beq a.1 b.1) ≡ true) ↔ (a ≡ b)
key_beq_iff a b = ground (arith, text_beq_iff a.1 b.1)

instance abbrev pub key_eq : Eq Key
key_eq = record { beq = λ a b. nat_beq a.0 b.0 && text_beq a.1 b.1; beq_iff = key_beq_iff }

-- `canonical_id.filter(|id| !id.is_empty())`.
abbrev pub nonempty : Option Text → Option Text
nonempty none = none
nonempty (some id) = if is_empty id then none else some id

-- The keys that items and categories are compared by.
unfoldable pub item_key : ContentItem → Option Key
item_key item = elim (nonempty item.canonical_id) [
  | none ↦ none
  | some id ↦ some (resource_type_key item.resource_type, id)
]

unfoldable pub category_key : CategoryItem → Option Text
category_key item = nonempty item.canonical_id

-- `seen.insert(key)`: whether the key is new, and the set with it. What has no key is always kept.
abbrev pub keep {ℓ} : {K : Type ℓ} ⦃e : Eq K⦄ → Option K → List K → Bool × List K
keep none seen = (true, seen)
keep (some k) seen = if any (◌==◌ k) seen then (false, seen) else (true, k ∷ seen)

-- `filter` or `retain` by `keep`, from a set; also the set after it.
module _ {ℓ κ} {A : Type ℓ} {K : Type κ} ⦃e : Eq K⦄ (key : A → Option K) where
  unfoldable pub dedup_by : List K → List A → List A
  dedup_by seen [] = []
  dedup_by seen (x ∷ xs) =
      let rest = dedup_by (keep (key x) seen).1 xs in
      if (keep (key x) seen).0 then x ∷ rest else rest

  unfoldable pub seen_after : List K → List A → List K
  seen_after seen [] = seen
  seen_after seen (x ∷ xs) = seen_after (keep (key x) seen).1 xs

unfoldable pub deduplicate_items : List SourcedContentItem → List SourcedContentItem
unfolding dedup_by item_key
deduplicate_items items = dedup_by (λ x. item_key x.item) [] items

-- The loop over the sections, with the set that it starts from.
unfoldable pub dedup_sections_from :
    List Key → List SourcedDiscoverSection → List SourcedDiscoverSection
unfolding dedup_by seen_after item_key
dedup_sections_from seen [] = []
dedup_sections_from seen (s ∷ ss) =
    record s { section = record (s.section) { items = dedup_by item_key seen s.section.items } }
    ∷ dedup_sections_from (seen_after item_key seen s.section.items) ss

unfoldable pub deduplicate_sections : List SourcedDiscoverSection → List SourcedDiscoverSection
unfolding dedup_sections_from
deduplicate_sections sections = dedup_sections_from [] sections

unfoldable pub deduplicate_categories : List SourcedCategoryItem → List SourcedCategoryItem
unfolding dedup_by category_key
deduplicate_categories items = dedup_by (λ x. category_key x.item) [] items
