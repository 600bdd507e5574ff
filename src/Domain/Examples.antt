-- ===== src/Domain/Examples.antt =====
-- Plugin IDs of crates/audiodown-domain/src/plugin.rs on a concrete text.
use audio_down_core.Base.{◌≡◌, ◌↔◌, ◌≤◌, true, All, ok}
use audio_down_core.Base.Text.{text, byte_len}
use audio_down_core.Domain.PluginId.{is_inner, max_plugin_id_bytes, parse}
use audio_down_core.Domain.PluginId.Laws.{first_is_edge, last_is_edge, parse_iff}

parse_iff_example : (parse (text "a.b-1") ≡ ok (record { as_str = text "a.b-1" })) ↔ (
    (text "a.b-1" ≡ text "a.b-1")
    × (byte_len (text "a.b-1") ≤ max_plugin_id_bytes)
    × All (λ c. is_inner c ≡ true) (text "a.b-1")
    × (first_is_edge (text "a.b-1") ≡ true)
    × (last_is_edge (text "a.b-1") ≡ true))
parse_iff_example = parse_iff (text "a.b-1") (record { as_str = text "a.b-1" })
