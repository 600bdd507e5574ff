-- ===== src/Content/Examples/Cursors.antt =====
-- The cursors of crates/audiodown-content/src/cursor.rs on concrete requests.
use audio_down_core.Base.{◌≡◌, ◌↔◌, refl, Option, some, [], All, ok, err, ok?}
use audio_down_core.Base.Text.{Text, text_cmp}
use audio_down_core.Domain.PluginId.{parse}
use audio_down_core.Content.Cursor.{
  SourceCursor, canonical, validate_sources, encode_cursor, decode_cursor, request_fingerprint,
}
use audio_down_core.Content.Cursor.Laws.{
  IsValidSources, validate_sources_iff, decode_cursor-IsValidSources, decode-encode_cursor,
}
use audio_down_core.Content.Examples.Codec.{codec, codec-IsCodec}
use audio_down_core.Content.Examples.Data.{binding, other_binding, plugin_cursors}

abbrev pub encoded_of : Option (Option Text) → Text
encoded_of (some (some t)) = t
encoded_of _ = []

-- The cursor of the plugin cursors.
abbrev pub encoded : Text
unfolding encode_cursor
encoded = encoded_of (ok? (encode_cursor codec binding plugin_cursors))

pub encoded-eq : encode_cursor codec binding plugin_cursors ≡ ok (some encoded)
unfolding encode_cursor validate_sources text_cmp request_fingerprint canonical
encoded-eq = refl

pub plugin_cursors-parsed :
    All (λ (s : SourceCursor). parse s.plugin_id.as_str ≡ ok s.plugin_id) plugin_cursors
unfolding parse
plugin_cursors-parsed = (refl, (refl, tt))

abbrev other_fingerprint : Text
unfolding request_fingerprint
other_fingerprint = elim (request_fingerprint codec other_binding) [ ok f ↦ f | err e ↦ [] ]

validate_sources_iff_example :
    (validate_sources plugin_cursors ≡ ok tt) ↔ IsValidSources plugin_cursors
validate_sources_iff_example = validate_sources_iff plugin_cursors

decode-encode_cursor_example : decode_cursor codec encoded binding ≡ ok plugin_cursors
decode-encode_cursor_example =
    decode-encode_cursor codec binding plugin_cursors codec-IsCodec plugin_cursors-parsed encoded-eq

decode_cursor-IsValidSources_example : IsValidSources plugin_cursors
decode_cursor-IsValidSources_example =
    decode_cursor-IsValidSources codec encoded binding decode-encode_cursor_example
