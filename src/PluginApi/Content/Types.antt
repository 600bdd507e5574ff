-- ===== src/PluginApi/Content/Types.antt =====
-- crates/audiodown-plugin-api/src/content.rs: the types.
use audio_down_core.Base.{ℕ, List, [], ◌∷◌, Option, ◌*◌, find, ◌==◌}
use audio_down_core.Base.Text.{Text, text, text_eq}

abbrev pub max_query_bytes : ℕ
max_query_bytes = 512

abbrev pub max_cursor_bytes : ℕ
max_cursor_bytes = 4 * 1024

abbrev pub max_opaque_id_bytes : ℕ
max_opaque_id_bytes = 1024

abbrev pub max_items_per_response : ℕ
max_items_per_response = 200

abbrev pub max_sections_per_response : ℕ
max_sections_per_response = 32

abbrev pub max_title_bytes : ℕ
max_title_bytes = 512

abbrev pub max_short_text_bytes : ℕ
max_short_text_bytes = 1024

abbrev pub max_description_bytes : ℕ
max_description_bytes = 4 * 1024

pub data ContentMethod : Type 0 where
  search discover categories album_get tracks_list : ContentMethod

-- `ContentMethod::ALL`.
abbrev pub all_methods : List ContentMethod
all_methods = search ∷ discover ∷ categories ∷ album_get ∷ tracks_list ∷ []

unfoldable pub capability : ContentMethod → Text
capability search = text "content.search"
capability discover = text "content.discover"
capability categories = text "content.categories"
capability album_get = text "content.album.get"
capability tracks_list = text "content.tracks.list"

unfoldable pub from_capability : Text → Option ContentMethod
from_capability value = find (λ m. capability m == value) all_methods

pub data ContentResourceType : Type 0 where
  album track category : ContentResourceType

pub record SearchRequest : Type 0 where
  pub query : Text
  pub cursor : Option Text
  pub limit : ℕ

pub record DiscoverRequest : Type 0 where
  pub cursor : Option Text
  pub limit : ℕ

pub record CategoriesRequest : Type 0 where

pub record AlbumGetRequest : Type 0 where
  pub resource_id : Text

pub record TracksListRequest : Type 0 where
  pub album_resource_id : Text
  pub cursor : Option Text
  pub limit : ℕ

pub record ContentItem : Type 0 where
  pub resource_type : ContentResourceType
  pub resource_id : Text
  pub canonical_id : Option Text
  pub title : Text
  pub subtitle : Option Text
  pub description : Option Text

pub data DiscoverLayout : Type 0 where
  hero_carousel album_grid horizontal_list ranked_list category_grid : DiscoverLayout

pub record DiscoverSection : Type 0 where
  pub id : Text
  pub title : Text
  pub layout : DiscoverLayout
  pub items : List ContentItem

pub record CategoryItem : Type 0 where
  pub resource_id : Text
  pub canonical_id : Option Text
  pub title : Text
  pub description : Option Text

pub record AlbumDetail : Type 0 where
  pub resource_id : Text
  pub canonical_id : Option Text
  pub title : Text
  pub creator : Option Text
  pub description : Option Text
  pub track_count : Option ℕ

pub record TrackItem : Type 0 where
  pub resource_id : Text
  pub canonical_id : Option Text
  pub title : Text
  pub subtitle : Option Text
  pub sequence : Option ℕ
  pub duration_seconds : Option ℕ

pub record SearchResult : Type 0 where
  pub items : List ContentItem
  pub next_cursor : Option Text

pub record DiscoverResult : Type 0 where
  pub sections : List DiscoverSection
  pub next_cursor : Option Text

pub record CategoriesResult : Type 0 where
  pub items : List CategoryItem

pub record AlbumGetResult : Type 0 where
  pub album : AlbumDetail

pub record TracksListResult : Type 0 where
  pub items : List TrackItem
  pub next_cursor : Option Text
