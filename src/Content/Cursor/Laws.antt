-- ===== src/Content/Cursor/Laws.antt =====
-- What `validate_sources` of crates/audiodown-content/src/cursor.rs accepts, and that a cursor is read
-- back as it was written.
use Prim.Native.Nat.{Ordering}
use audio_down_core.Base.{
  ◌≡◌, ◌≢◌, ◌↔◌, ◌≤◌, refl, true, false, ◌||◌, ltb, Option, none, some, List, [], ◌∷◌, length, All,
  All-map, all_iff, arith, nat_beq, ok, fail_if-bind, ne_nil_of_is_empty,
}
use audio_down_core.Base.Text.{
  Text, byte_len, text_beq_iff, text_cmp, text_cmp-IsLawful, is_ascii_lowercase, is_ascii_digit,
}
use audio_down_core.Domain.PluginId.{parse}
use audio_down_core.Content.Cursor.Envelope.{fingerprint_of, envelope_of, written}
use audio_down_core.Content.Cursor.{
  ContentCursorBinding, SourceCursor, CursorCodec, IsCodec, malformed, source_cursor_too_large,
  too_many_sources, not_after, max_cursor_sources, max_source_cursor_bytes, valid_platform_id,
  validate_each, validate_sources, encode_cursor, decode_cursor,
}

-- 1 to 128 bytes of lower case letters, digits, dots, underscores and dashes.
abbrev pub IsPlatformId : Text → Type 0
IsPlatformId id =
    (id ≢ [])
    × (byte_len id ≤ 128)
    × All
        (λ c.
          (is_ascii_lowercase c
            || is_ascii_digit c
            || nat_beq c b'.'
            || nat_beq c b'_'
            || nat_beq c b'-')
          ≡ true)
        id

abbrev pub IsValidSource : SourceCursor → Type 0
IsValidSource s =
    (s.cursor ≢ []) × (byte_len s.cursor ≤ max_source_cursor_bytes) × IsPlatformId s.platform_id

-- Each platform comes strictly before all later ones.
abbrev pub IsAscending : List SourceCursor → Type 0
IsAscending [] = Unit
IsAscending (s ∷ rest) =
    All (λ (t : SourceCursor). text_cmp s.platform_id t.platform_id ≡ Ordering.lt) rest
    × IsAscending rest

pub valid_platform_id_iff : (id : Text) → (valid_platform_id id ≡ true) ↔ IsPlatformId id
unfolding valid_platform_id
valid_platform_id_iff [] = ground arith
valid_platform_id_iff (c ∷ cs) = ground (
  arith,
  all_iff
      (λ d.
        is_ascii_lowercase d
        || is_ascii_digit d
        || nat_beq d b'.'
        || nat_beq d b'_'
        || nat_beq d b'-')
      (c ∷ cs),
)

abbrev IsAfter : Option Text → List SourceCursor → Type 0
IsAfter none sources = Unit
IsAfter (some previous) sources =
    All (λ (t : SourceCursor). text_cmp previous t.platform_id ≡ Ordering.lt) sources

IsAfter-cons :
    (previous : Option Text) (s : SourceCursor) (rest : List SourceCursor)
    → not_after previous s.platform_id ≡ false
    → IsAfter (some s.platform_id) rest
    → IsAfter previous (s ∷ rest)
IsAfter-cons none s rest h later = tt
IsAfter-cons (some p) s rest h later =
    let first : text_cmp p s.platform_id ≡ Ordering.lt = ground arith in
    (
      first,
      All-map (λ t. text_cmp-IsLawful.lt_trans p s.platform_id t.platform_id first) rest later,
    )

validate_each_sound :
    (previous : Option Text) (sources : List SourceCursor)
    → validate_each previous sources ≡ ok tt
    → IsAfter previous sources × All IsValidSource sources × IsAscending sources
unfolding validate_each
validate_each_sound none [] h = (tt, tt, tt)
validate_each_sound (some previous) [] h = (tt, tt, tt)
validate_each_sound previous (s ∷ rest) h =
    let (filled, h₁) = fail_if-bind _ malformed _ h in
    let (short, h₂) = fail_if-bind _ source_cursor_too_large _ h₁ in
    let (named, h₃) = fail_if-bind _ malformed _ h₂ in
    let (after, h₄) = fail_if-bind _ malformed _ h₃ in
    let (later, valid, ascending) = validate_each_sound (some s.platform_id) rest h₄ in
    (
      IsAfter-cons previous s rest after later,
      (
        (
          ne_nil_of_is_empty s.cursor filled,
          ground arith,
          (valid_platform_id_iff s.platform_id).0 (ground arith),
        ),
        valid,
      ),
      (later, ascending),
    )

validate_each_complete :
    (previous : Option Text) (sources : List SourceCursor)
    → IsAfter previous sources
    → All IsValidSource sources
    → IsAscending sources
    → validate_each previous sources ≡ ok tt
unfolding validate_each
validate_each_complete previous [] a v h = refl
validate_each_complete none (s ∷ rest) a v h = ground (
  arith,
  valid_platform_id_iff s.platform_id,
  validate_each_complete (some s.platform_id) rest h.0 v.1 h.1,
)
validate_each_complete (some previous) (s ∷ rest) a v h = ground (
  arith,
  valid_platform_id_iff s.platform_id,
  validate_each_complete (some s.platform_id) rest h.0 v.1 h.1,
)

abbrev pub IsValidSources : List SourceCursor → Type 0
IsValidSources sources =
    (length sources ≤ max_cursor_sources) × All IsValidSource sources × IsAscending sources

-- A list of plugin cursors passes `validate_sources` exactly when it has at most 32 entries, each
-- with a platform ID of the permitted form and a cursor of 1 to 4096 bytes, in strictly ascending
-- order of platform.
pub validate_sources_iff :
    (sources : List SourceCursor) → (validate_sources sources ≡ ok tt) ↔ IsValidSources sources
unfolding validate_sources
validate_sources_iff sources = (
  λ h.
      let (few, h₁) =
        fail_if-bind (ltb max_cursor_sources (length sources)) too_many_sources
          (validate_each none sources) h in
      let (_, valid, ascending) = validate_each_sound none sources h₁ in
      (ground arith, valid, ascending),
  λ v. ground (arith, validate_each_complete none sources tt v.1 v.2),
)

module _ (codec : CursorCodec) where
  -- Whatever text is decoded, the plugin cursors that come out are valid.
  pub decode_cursor-IsValidSources :
      (encoded : Text) (binding : ContentCursorBinding) {sources : List SourceCursor}
      → decode_cursor codec encoded binding ≡ ok sources
      → IsValidSources sources
  unfolding decode_cursor
  decode_cursor-IsValidSources encoded binding {sources} h =
      (validate_sources_iff sources).0 (ground arith)

  -- A cursor that was encoded is decoded under the same request to the plugin cursors that it was
  -- made of, whatever the codec, as long as it undoes its own encoding.
  pub decode-encode_cursor :
      (binding : ContentCursorBinding) (sources : List SourceCursor) {encoded : Text}
      → IsCodec codec
      → All (λ (s : SourceCursor). parse s.plugin_id.as_str ≡ ok s.plugin_id) sources
      → encode_cursor codec binding sources ≡ ok (some encoded)
      → decode_cursor codec encoded binding ≡ ok sources
  unfolding encode_cursor decode_cursor
  decode-encode_cursor binding [] laws ids h = cc
  decode-encode_cursor binding (s ∷ rest) laws ids h = ground (
    arith,
    text_beq_iff (fingerprint_of codec binding) (fingerprint_of codec binding),
    laws.base64_round_trip (written codec binding (s ∷ rest)),
    laws.envelope_round_trip (envelope_of codec binding (s ∷ rest))
        {bytes = written codec binding (s ∷ rest)},
  )
