-- ===== src/Content/Cursor.antt =====
-- crates/audiodown-content/src/cursor.rs: the opaque cursor of an aggregated page, which carries one
-- plugin cursor for each platform and is bound to the request it was made for.
mod Envelope
pub mod Laws
pub mod Binding
use audio_down_core.Base.{
  ℕ, Bool, true, false, ◌&&◌, ◌||◌, not, ◌≡◌, ◌*◌, ◌<◌, Option, none, some, List, [], ◌∷◌, length,
  is_empty, all, ltb, leb, nat_beq, if◌then◌else◌, Eq, ◌==◌, Result, ok, err, ◌>>=◌, ◌>>◌, ok_or,
  fail_if, All,
}
use audio_down_core.Base.Text.{
  Text, byte_len, is_ascii_lowercase, is_ascii_digit, text_cmp, text_eq,
}
use audio_down_core.Base.Order.{is_lt}
use audio_down_core.Domain.PluginId.{PluginId, parse}
use audio_down_core.Content.Candidate.{ContentFilters}

abbrev pub cursor_version : ℕ
cursor_version = 1

abbrev pub max_cursor_sources : ℕ
max_cursor_sources = 32

abbrev pub max_source_cursor_bytes : ℕ
max_source_cursor_bytes = 4 * 1024

abbrev pub max_cursor_decoded_bytes : ℕ
max_cursor_decoded_bytes = 16 * 1024

abbrev pub max_cursor_encoded_bytes : ℕ
max_cursor_encoded_bytes = 24 * 1024

pub data ContentCursorOperation : Type 0 where
  search discover : ContentCursorOperation

pub record ContentCursorBinding : Type 0 where
  pub operation : ContentCursorOperation
  pub query : Option Text
  pub filters : ContentFilters

pub record SourceCursor : Type 0 where
  pub platform_id : Text
  pub plugin_id : PluginId
  pub cursor : Text

pub data ContentCursorError : Type 0 where
  encoded_too_large decoded_too_large too_many_sources source_cursor_too_large : ContentCursorError
  malformed unsupported_version binding_mismatch : ContentCursorError

pub record CursorEnvelope : Type 0 where
  pub version : ℕ
  pub fingerprint : Text
  pub sources : List SourceCursor

pub record BindingFingerprint : Type 0 where
  pub operation : ContentCursorOperation
  pub query : Option Text
  pub platform_id : Option Text
  pub plugin_id : Option Text

-- What the source calls of serde_json, base64 and sha2: serialising an envelope or a fingerprint may
-- fail, and so may reading bytes or text back.
pub record CursorCodec : Type 0 where
  pub envelope_to_vec : CursorEnvelope → Option (List ℕ)
  pub envelope_from_slice : List ℕ → Option CursorEnvelope
  pub fingerprint_to_vec : BindingFingerprint → Option (List ℕ)
  pub sha256 : List ℕ → List ℕ
  pub base64_encode : List ℕ → Text
  pub base64_decode : Text → Option (List ℕ)

abbrev pub as_option_str : Option PluginId → Option Text
as_option_str none = none
as_option_str (some id) = some id.as_str

-- The part of a request that its cursor is bound to.
unfoldable pub canonical : ContentCursorBinding → BindingFingerprint
canonical binding = record {
  operation = binding.operation;
  query = binding.query;
  platform_id = binding.filters.platform_id;
  plugin_id = as_option_str binding.filters.plugin_id;
}

unfoldable pub valid_platform_id : Text → Bool
valid_platform_id id =
    not (is_empty id)
    && leb (byte_len id) 128
    && all
        (λ c.
          is_ascii_lowercase c
          || is_ascii_digit c
          || nat_beq c b'.'
          || nat_beq c b'_'
          || nat_beq c b'-')
        id

-- `previous_platform.is_some_and(|previous| previous >= platform)`.
abbrev not_after : Option Text → Text → Bool
not_after none platform = false
not_after (some previous) platform = not (is_lt (text_cmp previous platform))

-- The loop of `validate_sources`, with its `previous_platform`.
unfoldable pub validate_each : Option Text → List SourceCursor → Result Unit ContentCursorError
unfolding valid_platform_id
validate_each previous [] = ok tt
validate_each previous (source ∷ sources) =
    fail_if (is_empty source.cursor) malformed
    >> fail_if (ltb max_source_cursor_bytes (byte_len source.cursor)) source_cursor_too_large
    >> fail_if (not (valid_platform_id source.platform_id)) malformed
    >> fail_if (not_after previous source.platform_id) malformed
    >> validate_each (some source.platform_id) sources

unfoldable pub validate_sources : List SourceCursor → Result Unit ContentCursorError
unfolding validate_each
validate_sources sources =
    fail_if (ltb max_cursor_sources (length sources)) too_many_sources >> validate_each none sources

module _ (codec : CursorCodec) where
  open codec use {
    envelope_to_vec, envelope_from_slice, fingerprint_to_vec, sha256, base64_encode, base64_decode,
  }

  unfoldable pub request_fingerprint : ContentCursorBinding → Result Text ContentCursorError
  request_fingerprint binding = do
    bytes ← ok_or malformed (fingerprint_to_vec (canonical binding))
    ok (base64_encode (sha256 bytes))

  unfoldable pub encode_cursor :
      ContentCursorBinding → List SourceCursor → Result (Option Text) ContentCursorError
  encode_cursor binding [] = ok none
  encode_cursor binding (source ∷ rest) = do
    validate_sources (source ∷ rest)
    fingerprint ← request_fingerprint binding
    decoded ← ok_or malformed (
        envelope_to_vec
          (record { version = cursor_version; fingerprint = fingerprint; sources = source ∷ rest }))
    fail_if (ltb max_cursor_decoded_bytes (length decoded)) decoded_too_large
    let encoded = base64_encode decoded
    fail_if (ltb max_cursor_encoded_bytes (byte_len encoded)) encoded_too_large
    ok (some encoded)

  unfoldable pub decode_cursor :
      Text → ContentCursorBinding → Result (List SourceCursor) ContentCursorError
  decode_cursor encoded binding = do
    fail_if (ltb max_cursor_encoded_bytes (byte_len encoded)) encoded_too_large
    decoded ← ok_or malformed (base64_decode encoded)
    fail_if (ltb max_cursor_decoded_bytes (length decoded)) decoded_too_large
    envelope ← ok_or malformed (envelope_from_slice decoded)
    fail_if (not (nat_beq envelope.version cursor_version)) unsupported_version
    expected ← request_fingerprint binding
    fail_if (not (envelope.fingerprint == expected)) binding_mismatch
    validate_sources envelope.sources
    ok envelope.sources

-- What the source relies on: decoding undoes encoding. A plugin ID is read back only if its parser
-- accepts it, which holds of every `PluginId` that the program makes.
pub record IsCodec (codec : CursorCodec) : Type 0 where
  pub base64_round_trip :
      (bytes : List ℕ) → codec.base64_decode (codec.base64_encode bytes) ≡ some bytes
  pub envelope_round_trip :
      (envelope : CursorEnvelope) {bytes : List ℕ}
      → envelope.version < 256
      → All (λ (s : SourceCursor). parse s.plugin_id.as_str ≡ ok s.plugin_id) envelope.sources
      → codec.envelope_to_vec envelope ≡ some bytes
      → codec.envelope_from_slice bytes ≡ some envelope

-- What an encoded request is assumed to give away: different requests are serialised to different
-- bytes, and the digests of two serialised requests do not collide.
pub record SeparatesRequests (codec : CursorCodec) : Type 0 where
  pub serialised :
      (a b : BindingFingerprint) {bytes : List ℕ}
      → codec.fingerprint_to_vec a ≡ some bytes
      → codec.fingerprint_to_vec b ≡ some bytes
      → a ≡ b
  pub digested :
      (a b : BindingFingerprint) {bytes other : List ℕ}
      → codec.fingerprint_to_vec a ≡ some bytes
      → codec.fingerprint_to_vec b ≡ some other
      → codec.sha256 bytes ≡ codec.sha256 other
      → bytes ≡ other
