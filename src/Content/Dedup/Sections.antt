-- ===== src/Content/Dedup/Sections.antt =====
-- Deduplication across sections, in crates/audiodown-content/src/dedup.rs.
use audio_down_core.Base.{◌≡◌, refl, sym, ap, ◌∙◌, List, [], ◌∷◌, ◌++◌, map, arith, Eq, Option}
use audio_down_core.PluginApi.Content.{ContentItem}
use audio_down_core.Content.Dedup.{
  SourcedContentItem, SourcedDiscoverSection, ContentSource, Key, key_eq, item_key, keep, dedup_by,
  seen_after, deduplicate_items, deduplicate_sections, dedup_sections_from,
}

module _ {ℓ κ} {A : Type ℓ} {K : Type κ} ⦃e : Eq K⦄ (key : A → Option K) where
  dedup_by-append :
      (seen : List K) (xs ys : List A)
      → dedup_by key seen (xs ++ ys)
        ≡ dedup_by key seen xs ++ dedup_by key (seen_after key seen xs) ys
  unfolding dedup_by seen_after
  dedup_by-append seen [] ys = refl
  dedup_by-append seen (x ∷ xs) ys = ground (arith, dedup_by-append (keep (key x) seen).1 xs ys)

-- The items of all sections, one section after the other.
abbrev pub all_items : List SourcedDiscoverSection → List ContentItem
all_items [] = []
all_items (s ∷ ss) = s.section.items ++ all_items ss

all_items-dedup :
    (seen : List Key) (ss : List SourcedDiscoverSection)
    → all_items (dedup_sections_from seen ss) ≡ dedup_by item_key seen (all_items ss)
unfolding dedup_sections_from
all_items-dedup seen [] = unfold dedup_by in refl
all_items-dedup seen (s ∷ ss) =
    ap (λ l. dedup_by item_key seen s.section.items ++ l)
      (all_items-dedup (seen_after item_key seen s.section.items) ss)
    ∙ sym (dedup_by-append item_key seen s.section.items (all_items ss))

-- What a section is beside its items.
abbrev pub heading : SourcedDiscoverSection → SourcedDiscoverSection
heading s = record s { section = record (s.section) { items = [] } }

headings-dedup :
    (seen : List Key) (ss : List SourcedDiscoverSection)
    → map heading (dedup_sections_from seen ss) ≡ map heading ss
unfolding dedup_sections_from
headings-dedup seen [] = refl
headings-dedup seen (s ∷ ss) =
    ap (λ l. heading s ∷ l) (headings-dedup (seen_after item_key seen s.section.items) ss)

-- Items without their source, as the sections hold them.
abbrev pub sourced : ContentSource → List ContentItem → List SourcedContentItem
sourced source items = map (λ item. record { item = item; source = source }) items

dedup_by-sourced :
    (source : ContentSource) (seen : List Key) (items : List ContentItem)
    → dedup_by (λ (x : SourcedContentItem). item_key x.item) seen (sourced source items)
      ≡ sourced source (dedup_by item_key seen items)
unfolding dedup_by
dedup_by-sourced source seen [] = refl
dedup_by-sourced source seen (x ∷ xs) =
    ground (arith, dedup_by-sourced source (keep (item_key x) seen).1 xs)

-- The sections stay, with their order, titles, layouts and sources, and the items that they keep,
-- read from section to section, are what `deduplicate_items` keeps of all their items: an item goes
-- if an item of its own or of an earlier section has its key.
pub deduplicate_sections-eq-items :
    (source : ContentSource) (ss : List SourcedDiscoverSection)
    → (map heading (deduplicate_sections ss) ≡ map heading ss)
      × (sourced source (all_items (deduplicate_sections ss))
          ≡ deduplicate_items (sourced source (all_items ss)))
unfolding deduplicate_sections deduplicate_items
deduplicate_sections-eq-items source ss = (
  headings-dedup [] ss,
  ap (sourced source) (all_items-dedup [] ss) ∙ sym (dedup_by-sourced source [] (all_items ss)),
)
