-- ===== src/Content/Examples/Contents.antt =====
-- Validation and deduplication on concrete contents: crates/audiodown-plugin-api/src/content.rs and
-- crates/audiodown-content/src/dedup.rs.
use audio_down_core.Base.{◌≡◌, ◌↔◌, none, some, List, [], ◌∷◌, map, ok}
use audio_down_core.Base.Text.{text, text_eq}
use audio_down_core.PluginApi.Content.{
  CategoriesResult, DiscoverResult, validate_search_result, validate_discover_result,
  validate_categories_result,
}
use audio_down_core.PluginApi.Content.Laws.{
  IsValidSearchResult, IsValidDiscoverResult, IsValidCategoriesResult, validate_search_result_iff,
  validate_discover_result_iff, validate_categories_result_iff,
}
use audio_down_core.Content.Dedup.{
  ContentSource, SourcedContentItem, SourcedDiscoverSection, SourcedCategoryItem, source_of, key_eq,
  deduplicate_items, deduplicate_sections,
}
use audio_down_core.Content.Dedup.Reference.{firsts, is_same_item, deduplicate_items-eq-firsts}
use audio_down_core.Content.Dedup.Sections.{
  heading, sourced, all_items, deduplicate_sections-eq-items,
}
use audio_down_core.Content.Examples.Data.{
  quick, other, found, items, item_of, section_of, category_of,
}

abbrev sections_found : DiscoverResult
sections_found = record { sections = section_of items ∷ []; next_cursor = none }

abbrev categories_found : CategoriesResult
categories_found = record { items = category_of "c" (some (text "k")) ∷ [] }

abbrev source : ContentSource
source = source_of quick

-- Two plugins give the same items.
abbrev all_items_found : List SourcedContentItem
all_items_found =
    record { item = item_of "i" (some (text "k")); source = source_of quick }
    ∷ record { item = item_of "j" none; source = source_of quick }
    ∷ record { item = item_of "x" (some (text "k")); source = source_of other }
    ∷ []

abbrev all_sections_found : List SourcedDiscoverSection
all_sections_found =
    record { section = section_of items; source = source_of quick }
    ∷ record { section = section_of items; source = source_of other }
    ∷ []

abbrev all_categories_found : List SourcedCategoryItem
all_categories_found =
    record { item = category_of "c" (some (text "k")); source = source_of quick }
    ∷ record { item = category_of "d" (some (text "k")); source = source_of other }
    ∷ []

validate_search_result_iff_example :
    (validate_search_result found ≡ ok tt) ↔ IsValidSearchResult found
validate_search_result_iff_example = validate_search_result_iff found

validate_discover_result_iff_example :
    (validate_discover_result sections_found ≡ ok tt) ↔ IsValidDiscoverResult sections_found
validate_discover_result_iff_example = validate_discover_result_iff sections_found

validate_categories_result_iff_example :
    (validate_categories_result categories_found ≡ ok tt) ↔ IsValidCategoriesResult categories_found
validate_categories_result_iff_example = validate_categories_result_iff categories_found

deduplicate_items-eq-firsts_example :
    deduplicate_items all_items_found ≡ firsts is_same_item [] all_items_found
deduplicate_items-eq-firsts_example = deduplicate_items-eq-firsts all_items_found

deduplicate_sections-eq-items_example :
    (map heading (deduplicate_sections all_sections_found) ≡ map heading all_sections_found)
    × (sourced source (all_items (deduplicate_sections all_sections_found))
        ≡ deduplicate_items (sourced source (all_items all_sections_found)))
deduplicate_sections-eq-items_example = deduplicate_sections-eq-items source all_sections_found
