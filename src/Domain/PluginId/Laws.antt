-- ===== src/Domain/PluginId/Laws.antt =====
-- Which texts `PluginId::parse` of crates/audiodown-domain/src/plugin.rs accepts.
use audio_down_core.Base.{
  Bool, true, false, ◌&&◌, ◌≡◌, ◌↔◌, ◌≤◌, refl, [], ◌∷◌, All, all, all_iff, ok, arith,
}
use audio_down_core.Base.Text.{Text, byte_len}
use audio_down_core.Domain.PluginId.{
  PluginId, is_edge, is_inner, matches_rest, matches_pattern, max_plugin_id_bytes, parse,
}

abbrev pub first_is_edge : Text → Bool
first_is_edge [] = false
first_is_edge (c ∷ cs) = is_edge c

abbrev pub last_is_edge : Text → Bool
last_is_edge [] = false
last_is_edge (c ∷ []) = is_edge c
last_is_edge (c ∷ d ∷ cs) = last_is_edge (d ∷ cs)

matches_rest-eq : (t : Text) → matches_rest t ≡ (all is_inner t && last_is_edge t)
unfolding matches_rest
matches_rest-eq [] = refl
matches_rest-eq (c ∷ []) = ground arith
matches_rest-eq (c ∷ d ∷ cs) = ground (arith, matches_rest-eq (d ∷ cs))

matches_pattern-eq :
    (t : Text) → matches_pattern t ≡ (all is_inner t && first_is_edge t && last_is_edge t)
unfolding matches_pattern
matches_pattern-eq [] = refl
matches_pattern-eq (c ∷ []) = ground arith
matches_pattern-eq (c ∷ d ∷ cs) = ground (arith, matches_rest-eq (d ∷ cs))

-- A text is parsed to a plugin ID, which is then that text, exactly when it has at most 128 bytes,
-- consists of lower case letters, digits, dots, underscores and dashes, and begins and ends with a
-- letter or a digit.
pub parse_iff :
    (input : Text) (id : PluginId)
    → (parse input ≡ ok id) ↔ (
        (id.as_str ≡ input)
        × (byte_len input ≤ max_plugin_id_bytes)
        × All (λ c. is_inner c ≡ true) input
        × (first_is_edge input ≡ true)
        × (last_is_edge input ≡ true))
unfolding parse
parse_iff [] id = ground arith
parse_iff (c ∷ cs) id = ground (arith, matches_pattern-eq (c ∷ cs), all_iff is_inner (c ∷ cs))
