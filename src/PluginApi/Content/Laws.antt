-- ===== src/PluginApi/Content/Laws.antt =====
-- What `validate` of crates/audiodown-plugin-api/src/content.rs accepts.
use audio_down_core.Base.{
  ℕ, String, ◌≡◌, ◌≢◌, ◌↔◌, ◌≤◌, refl, Option, none, some, [], ◌∷◌, arith, length, All, ok,
  >>-ok_iff, each-ok_iff,
}
use audio_down_core.Base.Text.{
  Text, byte_len, IsBlank, trims_to_empty_iff, IsFreeOf, contains_char_iff,
}
use audio_down_core.PluginApi.Content.Types.{
  max_cursor_bytes, max_opaque_id_bytes, max_items_per_response, max_sections_per_response,
  max_title_bytes, max_short_text_bytes, max_description_bytes, ContentItem, DiscoverSection,
  CategoryItem, SearchResult, DiscoverResult, CategoriesResult,
}
use audio_down_core.PluginApi.Content.Checks.{
  validate_limit, validate_item_count, validate_nonempty, validate_opaque, validate_optional_opaque,
  validate_optional_text, validate_content_item, validate_discover_section, validate_category_item,
  validate_search_result, validate_discover_result, validate_categories_result,
}

-- A text with a character that is no white space, within a number of bytes.
abbrev pub IsText : ℕ → Text → Type 0
IsText maximum value = (¬ IsBlank value) × (byte_len value ≤ maximum)

-- A non-empty text without the character NUL, within a number of bytes.
abbrev pub IsOpaque : ℕ → Text → Type 0
IsOpaque maximum value = (value ≢ []) × (byte_len value ≤ maximum) × IsFreeOf 0 value

abbrev pub IfSome : (Text → Type 0) → Option Text → Type 0
IfSome P none = Unit
IfSome P (some value) = P value

validate_nonempty_iff :
    (value : Text) (maximum : ℕ) (field : String)
    → (validate_nonempty value maximum field ≡ ok tt) ↔ IsText maximum value
unfolding validate_nonempty
validate_nonempty_iff value maximum field = ground (arith, trims_to_empty_iff value)

validate_opaque_iff :
    (value : Text) (maximum : ℕ) (field : String)
    → (validate_opaque value maximum field ≡ ok tt) ↔ IsOpaque maximum value
unfolding validate_opaque
validate_opaque_iff [] maximum field = ground arith
validate_opaque_iff (c ∷ cs) maximum field = ground (arith, contains_char_iff 0 (c ∷ cs))

validate_limit_iff :
    (limit : ℕ) → (validate_limit limit ≡ ok tt) ↔ ((1 ≤ limit) × (limit ≤ max_items_per_response))
unfolding validate_limit
validate_limit_iff limit = ground arith

validate_item_count_iff : (n : ℕ) → (validate_item_count n ≡ ok tt) ↔ (n ≤ max_items_per_response)
unfolding validate_item_count
validate_item_count_iff n = ground arith

validate_optional_opaque_iff :
    (value : Option Text) (maximum : ℕ) (field : String)
    → (validate_optional_opaque value maximum field ≡ ok tt) ↔ IfSome (IsOpaque maximum) value
unfolding validate_optional_opaque
validate_optional_opaque_iff none maximum field = (λ _. tt, λ _. refl)
validate_optional_opaque_iff (some value) maximum field = validate_opaque_iff value maximum field

validate_optional_text_iff :
    (value : Option Text) (maximum : ℕ) (field : String)
    → (validate_optional_text value maximum field ≡ ok tt) ↔ IfSome (IsText maximum) value
unfolding validate_optional_text
validate_optional_text_iff none maximum field = (λ _. tt, λ _. refl)
validate_optional_text_iff (some value) maximum field = validate_nonempty_iff value maximum field

abbrev pub IsValidItem : ContentItem → Type 0
IsValidItem i =
    IsOpaque max_opaque_id_bytes i.resource_id
    × (IfSome (IsOpaque max_opaque_id_bytes) i.canonical_id
        × (IsText max_title_bytes i.title
            × (IfSome (IsText max_short_text_bytes) i.subtitle
                × IfSome (IsText max_description_bytes) i.description)))

pub validate_content_item_iff :
    (i : ContentItem) → (validate_content_item i ≡ ok tt) ↔ IsValidItem i
unfolding validate_content_item
validate_content_item_iff i = >>-ok_iff (validate_opaque_iff _ _ _) (
    >>-ok_iff (validate_optional_opaque_iff _ _ _) (
      >>-ok_iff (validate_nonempty_iff _ _ _)
        (>>-ok_iff (validate_optional_text_iff _ _ _) (validate_optional_text_iff _ _ _))))

abbrev pub IsValidSection : DiscoverSection → Type 0
IsValidSection s =
    IsOpaque max_opaque_id_bytes s.id
    × (IsText max_title_bytes s.title
        × ((length s.items ≤ max_items_per_response) × All IsValidItem s.items))

validate_discover_section_iff :
    (s : DiscoverSection) → (validate_discover_section s ≡ ok tt) ↔ IsValidSection s
unfolding validate_discover_section
validate_discover_section_iff s = >>-ok_iff (validate_opaque_iff _ _ _) (
    >>-ok_iff (validate_nonempty_iff _ _ _) (
      >>-ok_iff (validate_item_count_iff _)
        (each-ok_iff validate_content_item validate_content_item_iff s.items)))

abbrev pub IsValidCategory : CategoryItem → Type 0
IsValidCategory i =
    IsOpaque max_opaque_id_bytes i.resource_id
    × (IfSome (IsOpaque max_opaque_id_bytes) i.canonical_id
        × (IsText max_title_bytes i.title × IfSome (IsText max_description_bytes) i.description))

validate_category_item_iff :
    (i : CategoryItem) → (validate_category_item i ≡ ok tt) ↔ IsValidCategory i
unfolding validate_category_item
validate_category_item_iff i = >>-ok_iff (validate_opaque_iff _ _ _) (
    >>-ok_iff (validate_optional_opaque_iff _ _ _)
      (>>-ok_iff (validate_nonempty_iff _ _ _) (validate_optional_text_iff _ _ _)))

abbrev pub IsValidSearchResult : SearchResult → Type 0
IsValidSearchResult r =
    (length r.items ≤ max_items_per_response)
    × (All IsValidItem r.items × IfSome (IsOpaque max_cursor_bytes) r.next_cursor)

-- A search result passes `validate` exactly when it has at most 200 items, each of them valid, and
-- a cursor, if any, that is non-empty, free of NUL and at most 4096 bytes long.
pub validate_search_result_iff :
    (r : SearchResult) → (validate_search_result r ≡ ok tt) ↔ IsValidSearchResult r
unfolding validate_search_result
validate_search_result_iff r = >>-ok_iff (validate_item_count_iff _) (
    >>-ok_iff (each-ok_iff validate_content_item validate_content_item_iff r.items)
      (validate_optional_opaque_iff _ _ _))

abbrev pub IsValidDiscoverResult : DiscoverResult → Type 0
IsValidDiscoverResult r =
    (length r.sections ≤ max_sections_per_response)
    × (All IsValidSection r.sections × IfSome (IsOpaque max_cursor_bytes) r.next_cursor)

-- A discover result passes `validate` exactly when it has at most 32 sections, each of them valid
-- with at most 200 valid items, and a valid cursor or none.
pub validate_discover_result_iff :
    (r : DiscoverResult) → (validate_discover_result r ≡ ok tt) ↔ IsValidDiscoverResult r
unfolding validate_discover_result
validate_discover_result_iff r = ground (
  arith,
  >>-ok_iff (each-ok_iff validate_discover_section validate_discover_section_iff r.sections)
      (validate_optional_opaque_iff r.next_cursor max_cursor_bytes "nextCursor"),
)

abbrev pub IsValidCategoriesResult : CategoriesResult → Type 0
IsValidCategoriesResult r = (length r.items ≤ max_items_per_response) × All IsValidCategory r.items

pub validate_categories_result_iff :
    (r : CategoriesResult) → (validate_categories_result r ≡ ok tt) ↔ IsValidCategoriesResult r
unfolding validate_categories_result
validate_categories_result_iff r =
    >>-ok_iff (validate_item_count_iff _)
      (each-ok_iff validate_category_item validate_category_item_iff r.items)
