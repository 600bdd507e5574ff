-- ===== src/Domain/PluginId.antt =====
-- crates/audiodown-domain/src/plugin.rs: `PluginId` and its parser.
pub mod Laws
use audio_down_core.Base.{
  ℕ, Bool, true, false, ◌&&◌, ◌||◌, ◌≡◌, ◌↔◌, [], ◌∷◌, ltb, nat_beq, is_empty, if◌then◌else◌,
  Result, ok, err, Eq, arith,
}
use audio_down_core.Base.Text.{
  Text, byte_len, is_ascii_lowercase, is_ascii_digit, text_beq, text_beq_iff,
}

pub data PluginIdError : Type 0 where
  empty too_long invalid_format : PluginIdError

pub record PluginId : Type 0 where
  pub as_str : Text

abbrev pub max_plugin_id_bytes : ℕ
max_plugin_id_bytes = 128

-- The character classes [a-z0-9] and [a-z0-9._-] of the pattern.
abbrev pub is_edge : ℕ → Bool
is_edge c = is_ascii_lowercase c || is_ascii_digit c

abbrev pub is_inner : ℕ → Bool
is_inner c = is_edge c || nat_beq c b'.' || nat_beq c b'_' || nat_beq c b'-'

-- [a-z0-9._-]*[a-z0-9]$
unfoldable pub matches_rest : Text → Bool
matches_rest [] = false
matches_rest (c ∷ []) = is_edge c
matches_rest (c ∷ d ∷ cs) = is_inner c && matches_rest (d ∷ cs)

-- ^[a-z0-9](?:[a-z0-9._-]*[a-z0-9])?$
unfoldable pub matches_pattern : Text → Bool
unfolding matches_rest
matches_pattern [] = false
matches_pattern (c ∷ cs) = is_edge c && (is_empty cs || matches_rest cs)

-- `PluginId::parse`.
unfoldable pub parse : Text → Result PluginId PluginIdError
unfolding matches_pattern
parse input =
    if is_empty input
    then err empty
    else if ltb max_plugin_id_bytes (byte_len input)
    then err too_long
    else if matches_pattern input
    then ok (record { as_str = input })
    else err invalid_format

pub plugin_id_beq_iff : (a b : PluginId) → (text_beq a.as_str b.as_str ≡ true) ↔ (a ≡ b)
plugin_id_beq_iff a b = ground (arith, text_beq_iff a.as_str b.as_str)

instance abbrev pub plugin_id_eq : Eq PluginId
plugin_id_eq = record { beq = λ a b. text_beq a.as_str b.as_str; beq_iff = plugin_id_beq_iff }
