-- ===== src/PluginApi/Content/Checks.antt =====
-- crates/audiodown-plugin-api/src/content.rs: the `validate` methods and their helpers.
use audio_down_core.Base.{
  ℕ, String, Option, none, some, ◌||◌, ltb, leb, ◌&&◌, length, is_empty, if◌then◌else◌, Result, ok,
  err, ◌>>◌, each,
}
use audio_down_core.Base.Text.{Text, byte_len, trims_to_empty, contains_char}
use audio_down_core.PluginApi.Error.{
  ContentContractError, invalid_text, invalid_opaque_value, invalid_limit, too_many_items,
  too_many_sections,
}
use audio_down_core.PluginApi.Content.Types.{
  max_query_bytes, max_cursor_bytes, max_opaque_id_bytes, max_items_per_response,
  max_sections_per_response, max_title_bytes, max_short_text_bytes, max_description_bytes,
  SearchRequest, DiscoverRequest, AlbumGetRequest, TracksListRequest, ContentItem, DiscoverSection,
  CategoryItem, AlbumDetail, TrackItem, SearchResult, DiscoverResult, CategoriesResult,
  AlbumGetResult, TracksListResult,
}

abbrev pub Checked : Type 0
Checked = Result Unit ContentContractError

unfoldable pub validate_limit : ℕ → Checked
validate_limit limit =
    if leb 1 limit && leb limit max_items_per_response then ok tt else err invalid_limit

unfoldable pub validate_item_count : ℕ → Checked
validate_item_count count = if leb count max_items_per_response then ok tt else err too_many_items

unfoldable pub validate_nonempty : Text → ℕ → String → Checked
validate_nonempty value maximum field =
    if trims_to_empty value || ltb maximum (byte_len value) then err (invalid_text field) else ok tt

unfoldable pub validate_opaque : Text → ℕ → String → Checked
validate_opaque value maximum field =
    if is_empty value || ltb maximum (byte_len value) || contains_char 0 value
    then err (invalid_opaque_value field)
    else ok tt

unfoldable pub validate_optional_opaque : Option Text → ℕ → String → Checked
validate_optional_opaque none maximum field = ok tt
validate_optional_opaque (some value) maximum field = validate_opaque value maximum field

unfoldable pub validate_optional_text : Option Text → ℕ → String → Checked
validate_optional_text none maximum field = ok tt
validate_optional_text (some value) maximum field = validate_nonempty value maximum field

unfoldable pub validate_search_request : SearchRequest → Checked
validate_search_request r =
    validate_nonempty r.query max_query_bytes "query"
    >> validate_limit r.limit
    >> validate_optional_opaque r.cursor max_cursor_bytes "cursor"

unfoldable pub validate_discover_request : DiscoverRequest → Checked
validate_discover_request r =
    validate_limit r.limit >> validate_optional_opaque r.cursor max_cursor_bytes "cursor"

unfoldable pub validate_album_get_request : AlbumGetRequest → Checked
validate_album_get_request r = validate_opaque r.resource_id max_opaque_id_bytes "resourceId"

unfoldable pub validate_tracks_list_request : TracksListRequest → Checked
validate_tracks_list_request r =
    validate_opaque r.album_resource_id max_opaque_id_bytes "albumResourceId"
    >> validate_limit r.limit
    >> validate_optional_opaque r.cursor max_cursor_bytes "cursor"

unfoldable pub validate_content_item : ContentItem → Checked
validate_content_item i =
    validate_opaque i.resource_id max_opaque_id_bytes "resourceId"
    >> validate_optional_opaque i.canonical_id max_opaque_id_bytes "canonicalId"
    >> validate_nonempty i.title max_title_bytes "title"
    >> validate_optional_text i.subtitle max_short_text_bytes "subtitle"
    >> validate_optional_text i.description max_description_bytes "description"

unfoldable pub validate_discover_section : DiscoverSection → Checked
validate_discover_section s =
    validate_opaque s.id max_opaque_id_bytes "sectionId"
    >> validate_nonempty s.title max_title_bytes "sectionTitle"
    >> validate_item_count (length s.items)
    >> each validate_content_item s.items

unfoldable pub validate_category_item : CategoryItem → Checked
validate_category_item i =
    validate_opaque i.resource_id max_opaque_id_bytes "resourceId"
    >> validate_optional_opaque i.canonical_id max_opaque_id_bytes "canonicalId"
    >> validate_nonempty i.title max_title_bytes "title"
    >> validate_optional_text i.description max_description_bytes "description"

unfoldable pub validate_album_detail : AlbumDetail → Checked
validate_album_detail a =
    validate_opaque a.resource_id max_opaque_id_bytes "resourceId"
    >> validate_optional_opaque a.canonical_id max_opaque_id_bytes "canonicalId"
    >> validate_nonempty a.title max_title_bytes "title"
    >> validate_optional_text a.creator max_short_text_bytes "creator"
    >> validate_optional_text a.description max_description_bytes "description"

unfoldable pub validate_track_item : TrackItem → Checked
validate_track_item t =
    validate_opaque t.resource_id max_opaque_id_bytes "resourceId"
    >> validate_optional_opaque t.canonical_id max_opaque_id_bytes "canonicalId"
    >> validate_nonempty t.title max_title_bytes "title"
    >> validate_optional_text t.subtitle max_short_text_bytes "subtitle"

unfoldable pub validate_search_result : SearchResult → Checked
validate_search_result r =
    validate_item_count (length r.items)
    >> each validate_content_item r.items
    >> validate_optional_opaque r.next_cursor max_cursor_bytes "nextCursor"

unfoldable pub validate_discover_result : DiscoverResult → Checked
validate_discover_result r =
    if ltb max_sections_per_response (length r.sections)
    then err too_many_sections
    else each validate_discover_section r.sections
      >> validate_optional_opaque r.next_cursor max_cursor_bytes "nextCursor"

unfoldable pub validate_categories_result : CategoriesResult → Checked
validate_categories_result r =
    validate_item_count (length r.items) >> each validate_category_item r.items

unfoldable pub validate_album_get_result : AlbumGetResult → Checked
validate_album_get_result r = validate_album_detail r.album

unfoldable pub validate_tracks_list_result : TracksListResult → Checked
validate_tracks_list_result r =
    validate_item_count (length r.items)
    >> each validate_track_item r.items
    >> validate_optional_opaque r.next_cursor max_cursor_bytes "nextCursor"
