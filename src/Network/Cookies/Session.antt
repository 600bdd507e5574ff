-- ===== src/Network/Cookies/Session.antt =====
-- cookie_jar.rs: bindings, sessions and errors, with the origins that a binding allows.
use audio_down_core.Base.{
  ℕ, Bool, true, false, ◌&&◌, ◌||◌, not, Option, none, some, List, [], ◌∷◌, Result, ok,
  if◌then◌else◌, ltb, nat_beq, ◌==◌, length, is_empty, all, fail_if, ok_or, traverse, ◌>>=◌, ◌>>◌,
}
use Prim.Native.Nat.{Ordering}
use audio_down_core.Base.Sort.{sort_by}
use audio_down_core.Base.Text.{
  Text, text, text_eq, text_cmp, byte_len, is_ascii_lowercase, is_ascii_digit, contains_char,
}
use audio_down_core.Domain.PluginId.{PluginId, plugin_id_eq}

-- What the url crate makes of a text.
pub record Url : Type 0 where
  pub scheme : Text
  pub username : Text
  pub password : Option Text
  pub host : Option Text
  pub path : Text
  pub query : Option Text
  pub fragment : Option Text
  pub origin : Text

-- What the source reads of a cookie in the store.
pub record Cookie : Type 0 where
  pub name : Text
  pub value : Text
  pub path : Text

-- How `CookieStore::insert_raw` ends.
pub data Insertion : Type 0 where
  inserted expired_cookie rejected : Insertion

-- url, cookie_store, psl and http. `domain_cmp` is the order that cookie_store derives on the domains
-- of its cookies.
pub record Library (Store Raw : Type 0) : Type 0 where
  pub parse_url : Text → Option Url
  pub trim : Text → Text
  pub new_store : Store
  pub parse_cookie : Text → Option Raw
  pub raw_name : Raw → Text
  pub raw_value : Raw → Text
  pub raw_value_trimmed : Raw → Text
  pub raw_domain : Raw → Option Text
  pub insert_raw : Store → Raw → Url → Insertion × Store
  pub iter_unexpired : Store → List Cookie
  pub matches : Store → Url → List Cookie
  pub domain_cmp : Cookie → Cookie → Ordering
  pub suffix_str : Text → Option Text
  pub is_header_value : Text → Bool

pub data CookieJarError : Type 0 where
  invalid_binding capacity_reached not_found expired binding_mismatch purpose_mismatch origin_denied
        invalid_cookie header_too_large busy unavailable :
      CookieJarError

pub data CookieJarPurpose : Type 0 where
  login : CookieJarPurpose
  refresh : ℕ → ℕ → CookieJarPurpose

pub record CookieJarBinding : Type 0 where
  pub plugin_id : PluginId
  pub manifest_hash : Option Text
  pub platform_id : Text
  pub scope : Text
  pub target_origins : List Text
  pub purpose : CookieJarPurpose

pub data SessionState : Type 0 where
  active committing : SessionState

pub record CookieJarSession (Store : Type 0) : Type 0 where
  pub binding : CookieJarBinding
  pub expires_at : ℕ
  pub store : Store
  pub state : SessionState

abbrev pub max_sessions : ℕ
max_sessions = 64

-- Ten minutes.
abbrev pub max_session_ttl : ℕ
max_session_ttl = 600000000000

abbrev pub max_cookies : ℕ
max_cookies = 128

abbrev pub max_cookie_header_bytes : ℕ
max_cookie_header_bytes = 16384

abbrev pub max_platform_id_bytes : ℕ
max_platform_id_bytes = 64

abbrev pub max_credential_target_origin_bytes : ℕ
max_credential_target_origin_bytes = 2048

-- The derived `PartialEq` of a binding.
abbrev pub texts_beq : List Text → List Text → Bool
texts_beq [] [] = true
texts_beq (x ∷ xs) (y ∷ ys) = (x == y) && texts_beq xs ys
texts_beq _ _ = false

abbrev pub option_beq : Option Text → Option Text → Bool
option_beq none none = true
option_beq (some x) (some y) = x == y
option_beq _ _ = false

abbrev pub purpose_beq : CookieJarPurpose → CookieJarPurpose → Bool
purpose_beq login login = true
purpose_beq (refresh c r) (refresh d s) = nat_beq c d && nat_beq r s
purpose_beq _ _ = false

abbrev pub binding_beq : CookieJarBinding → CookieJarBinding → Bool
binding_beq a b =
    (a.plugin_id == b.plugin_id)
    && option_beq a.manifest_hash b.manifest_hash
    && (a.platform_id == b.platform_id)
    && (a.scope == b.scope)
    && texts_beq a.target_origins b.target_origins
    && purpose_beq a.purpose b.purpose

abbrev pub state_is_active : SessionState → Bool
state_is_active active = true
state_is_active committing = false

-- `Vec::dedup`.
abbrev pub dedup_texts : Text → List Text → List Text
dedup_texts a [] = []
dedup_texts a (b ∷ rest) = let kept = dedup_texts b rest in if a == b then kept else b ∷ kept

abbrev pub dedup_all : List Text → List Text
dedup_all [] = []
dedup_all (a ∷ rest) = a ∷ dedup_texts a rest

module _ {Store Raw : Type 0} (library : Library Store Raw) where
  abbrev pub is_exact_origin : Url → Bool
  is_exact_origin url =
      ((url.scheme == text "http") || (url.scheme == text "https"))
      && is_empty url.username
      && option_beq url.password none
      && not (option_beq url.host none)
      && (url.path == text "/")
      && option_beq url.query none
      && option_beq url.fragment none
      && not (host_has_star url.host)
    where
      host_has_star : Option Text → Bool
      host_has_star none = false
      host_has_star (some host) = contains_char b'*' host

  -- `CredentialTargetOrigin::parse` of crates/audiodown-plugin-api/src/manifest.rs.
  unfoldable pub parse_origin : Text → Option Text
  parse_origin value =
      if is_empty value
        || not (value == library.trim value)
        || ltb max_credential_target_origin_bytes (byte_len value)
      then none
      else elim (library.parse_url value) [
        | none ↦ none
        | some url ↦ if is_exact_origin url then some url.origin else none
      ]

  unfoldable pub normalize_origins : List Text → Result (List Text) CookieJarError
  unfolding parse_origin
  normalize_origins origins = do
    fail_if (is_empty origins || ltb 16 (length origins)) invalid_binding
    normalized ← traverse (λ origin. ok_or invalid_binding (parse_origin origin)) origins
    let sorted = dedup_all (sort_by text_cmp normalized)
    fail_if (is_empty sorted) invalid_binding
    ok sorted

  -- `CookieJarBinding::new`, `login` and `refresh`.
  abbrev pub is_platform_char : ℕ → Bool
  is_platform_char c = is_ascii_lowercase c || is_ascii_digit c || nat_beq c b'-'

  unfoldable pub new_binding :
      PluginId → Text → Text → List Text → CookieJarPurpose → Result CookieJarBinding CookieJarError
  unfolding normalize_origins
  new_binding plugin_id platform_id scope target_origins purpose = do
    fail_if
        (is_empty platform_id
          || ltb max_platform_id_bytes (byte_len platform_id)
          || not (all is_platform_char platform_id))
        invalid_binding
    origins ← normalize_origins target_origins
    ok (record {
      plugin_id = plugin_id;
      manifest_hash = none;
      platform_id = platform_id;
      scope = scope;
      target_origins = origins;
      purpose = purpose;
    })

  unfoldable pub login_binding :
      PluginId → Text → Text → List Text → Result CookieJarBinding CookieJarError
  unfolding new_binding
  login_binding plugin_id platform_id scope target_origins =
      new_binding plugin_id platform_id scope target_origins login

  unfoldable pub refresh_binding :
      PluginId → Text → Text → List Text → ℕ → ℕ → Result CookieJarBinding CookieJarError
  unfolding new_binding
  refresh_binding plugin_id platform_id scope target_origins credential_id expected_revision = do
    fail_if (nat_beq expected_revision 0) invalid_binding
    new_binding plugin_id platform_id scope target_origins (refresh credential_id expected_revision)
