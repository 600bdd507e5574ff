-- ===== src/Content/Examples/Codec.antt =====
-- A codec that the examples of crates/audiodown-content/src/cursor.rs use: every text is written with
-- its length before it, and the digest and the encoding of bytes leave the bytes as they are.
use audio_down_core.Base.{
  ℕ, zero, suc, ◌≡◌, refl, ap, Option, none, some, List, [], ◌∷◌, ◌++◌, length, arith,
}
use audio_down_core.Base.Text.{Text}
use audio_down_core.Content.Cursor.{
  ContentCursorOperation, search, discover, SourceCursor, CursorEnvelope, BindingFingerprint,
  CursorCodec, IsCodec, SeparatesRequests,
}

abbrev put_text : Text → List ℕ → List ℕ
put_text t rest = length t ∷ t ++ rest

abbrev put_option : Option Text → List ℕ → List ℕ
put_option none rest = 0 ∷ rest
put_option (some t) rest = 1 ∷ put_text t rest

abbrev put_sources : List SourceCursor → List ℕ → List ℕ
put_sources [] rest = rest
put_sources (s ∷ ss) rest =
    put_text s.platform_id (put_text s.plugin_id.as_str (put_text s.cursor (put_sources ss rest)))

abbrev put_envelope : CursorEnvelope → List ℕ
put_envelope e = e.version ∷ put_text e.fingerprint (length e.sources ∷ put_sources e.sources [])

abbrev operation_code : ContentCursorOperation → ℕ
operation_code search = 0
operation_code discover = 1

abbrev put_fingerprint : BindingFingerprint → List ℕ
put_fingerprint f =
    operation_code f.operation
    ∷ put_option f.query (put_option f.platform_id (put_option f.plugin_id []))

-- A first part of that length, and what follows it.
abbrev split : ℕ → List ℕ → Text × List ℕ
split zero bytes = ([], bytes)
split (suc n) [] = ([], [])
split (suc n) (b ∷ bs) = let (t, rest) = split n bs in (b ∷ t, rest)

abbrev get_text : List ℕ → Text × List ℕ
get_text [] = ([], [])
get_text (n ∷ bs) = split n bs

abbrev get_option : List ℕ → Option Text × List ℕ
get_option [] = (none, [])
get_option (zero ∷ bs) = (none, bs)
get_option (suc n ∷ bs) = let (t, rest) = get_text bs in (some t, rest)

abbrev get_sources : ℕ → List ℕ → List SourceCursor
get_sources zero bs = []
get_sources (suc n) bs =
    let (platform, r₁) = get_text bs in
    let (plugin, r₂) = get_text r₁ in
    let (cursor, r₃) = get_text r₂ in
    record { platform_id = platform; plugin_id = record { as_str = plugin }; cursor = cursor }
    ∷ get_sources n r₃

abbrev sources_from : List ℕ → List SourceCursor
sources_from [] = []
sources_from (n ∷ bs) = get_sources n bs

abbrev get_envelope : List ℕ → Option CursorEnvelope
get_envelope [] = none
get_envelope (version ∷ bs) =
    let (fingerprint, rest) = get_text bs in
    some (record { version = version; fingerprint = fingerprint; sources = sources_from rest })

abbrev operation_of : ℕ → ContentCursorOperation
operation_of zero = search
operation_of (suc n) = discover

abbrev get_fingerprint : List ℕ → Option BindingFingerprint
get_fingerprint [] = none
get_fingerprint (operation ∷ bs) =
    let (query, r₁) = get_option bs in
    let (platform, r₂) = get_option r₁ in
    let (plugin, r₃) = get_option r₂ in
    some (record {
      operation = operation_of operation;
      query = query;
      platform_id = platform;
      plugin_id = plugin;
    })

split-append : (t : Text) (rest : List ℕ) → split (length t) (t ++ rest) ≡ (t, rest)
split-append [] rest = refl
split-append (c ∷ t) rest = ap (λ r. (c ∷ r.0, r.1)) (split-append t rest)

get-put_option : (o : Option Text) (rest : List ℕ) → get_option (put_option o rest) ≡ (o, rest)
get-put_option none rest = refl
get-put_option (some t) rest = ap (λ r. (some r.0, r.1)) (split-append t rest)

get-put_sources :
    (ss : List SourceCursor) (rest : List ℕ) → get_sources (length ss) (put_sources ss rest) ≡ ss
get-put_sources [] rest = refl
get-put_sources (s ∷ ss) rest =
    rw
      (
        split-append s.platform_id,
        split-append s.plugin_id.as_str,
        split-append s.cursor,
        get-put_sources ss rest,
      )
      refl

get-put_envelope : (e : CursorEnvelope) → get_envelope (put_envelope e) ≡ some e
get-put_envelope e = rw (split-append e.fingerprint, get-put_sources e.sources []) refl

operation_of-code : (o : ContentCursorOperation) → operation_of (operation_code o) ≡ o
operation_of-code search = refl
operation_of-code discover = refl

get-put_fingerprint : (f : BindingFingerprint) → get_fingerprint (put_fingerprint f) ≡ some f
get-put_fingerprint f =
    rw
      (
        operation_of-code f.operation,
        get-put_option f.query,
        get-put_option f.platform_id,
        get-put_option f.plugin_id,
      )
      refl

abbrev pub codec : CursorCodec
codec = record {
  envelope_to_vec = λ e. some (put_envelope e);
  envelope_from_slice = get_envelope;
  fingerprint_to_vec = λ f. some (put_fingerprint f);
  sha256 = λ bytes. bytes;
  base64_encode = λ bytes. bytes;
  base64_decode = λ t. some t;
}

pub codec-IsCodec : IsCodec codec
codec-IsCodec = record {
  base64_round_trip = λ bytes. refl;
  envelope_round_trip = λ e {bytes} small ids written. ground (arith, get-put_envelope e);
}

pub codec-SeparatesRequests : SeparatesRequests codec
codec-SeparatesRequests = record {
  serialised = λ a b {bytes} h k. ground (arith, get-put_fingerprint a, get-put_fingerprint b);
  digested = λ a b {bytes} {other} h k same. same;
}
