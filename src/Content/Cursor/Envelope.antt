-- ===== src/Content/Cursor/Envelope.antt =====
-- The envelope that `encode_cursor` of crates/audiodown-content/src/cursor.rs writes, and its bytes;
-- both are empty where serialising fails.
use audio_down_core.Base.{ℕ, none, some, List, [], ok, err}
use audio_down_core.Base.Text.{Text}
use audio_down_core.Content.Cursor.{
  ContentCursorBinding, SourceCursor, CursorEnvelope, CursorCodec, cursor_version,
  request_fingerprint,
}

module _ (codec : CursorCodec) where
  abbrev pub fingerprint_of : ContentCursorBinding → Text
  fingerprint_of binding = elim (request_fingerprint codec binding) [ ok f ↦ f | err e ↦ [] ]

  abbrev pub envelope_of : ContentCursorBinding → List SourceCursor → CursorEnvelope
  envelope_of binding sources = record {
    version = cursor_version;
    fingerprint = fingerprint_of binding;
    sources = sources;
  }

  abbrev pub written : ContentCursorBinding → List SourceCursor → List ℕ
  written binding sources = elim (codec.envelope_to_vec (envelope_of binding sources)) [
    | some bytes ↦ bytes
    | none ↦ []
  ]
