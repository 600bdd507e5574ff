-- ===== src/Network/Cookies/Jars.antt =====
-- cookie_jar.rs: `TemporaryCookieJars`. Every method locks the sessions and reads the clock once, so
-- the sessions and `now` are what it works on. What a commit reads out of the store for the vault is
-- left to the parameter `snapshot`.
use audio_down_core.Base.{
  ℕ, ◌+◌, Bool, true, false, not, Option, none, some, List, [], ◌∷◌, Result, ok, err, if◌then◌else◌,
  ltb, leb, ◌==◌, length, any, all, filter,
}
use Prim.Native.Nat.{compare}
use audio_down_core.Base.Map.{Map, get, insert, adjust, remove}
use audio_down_core.Base.Stateful.{Method, pure, fail, lift, gets, modify, fail_when, ◌>>=◌, ◌>>◌}
use audio_down_core.Base.Text.{Text, text_eq}
use audio_down_core.Network.Cookies.Session.{
  Url, Library, CookieJarError, invalid_binding, capacity_reached, not_found, expired,
  binding_mismatch, purpose_mismatch, origin_denied, busy, CookieJarPurpose, login, refresh,
  CookieJarBinding, CookieJarSession, active, committing, max_sessions, max_session_ttl,
  binding_beq, state_is_active, parse_origin, normalize_origins,
}
use audio_down_core.Network.Cookies.Store.{enforce_store_limits, cookie_header_of, capture_all}

abbrev pub Sessions : Type 0 → Type 0
Sessions Store = Map ℕ (CookieJarSession Store)

abbrev pub JarMethod : Type 0 → Type 0 → Type 0
JarMethod Store A = Method (Sessions Store) CookieJarError A

module _ {Store : Type 0} where
  -- `HashMap::retain`.
  abbrev pub retain_live : ℕ → Sessions Store → Sessions Store
  retain_live now sessions = filter (λ e. ltb now e.1.expires_at) sessions

  -- The loop that draws an ID until it is a new one, on the IDs that are drawn.
  unfoldable pub pick : List ℕ → Sessions Store → Option ℕ
  pick [] sessions = none
  pick (id ∷ draws) sessions =
      let later = pick draws sessions in
      elim (get compare id sessions) [ none ↦ some id | some _ ↦ later ]

  unfoldable pub insert_session : Option ℕ → CookieJarSession Store → JarMethod Store (Option ℕ)
  insert_session none session = pure none
  insert_session (some id) session = do modify (insert compare id session); pure (some id)

  -- `create_with_store`; `none` while every ID drawn was in use.
  unfoldable pub create_with_store :
      CookieJarBinding → ℕ → Store → ℕ → List ℕ → JarMethod Store (Option ℕ)
  unfolding pick insert_session
  create_with_store binding ttl store now draws = do
    fail_when (ltb max_session_ttl ttl) invalid_binding
    modify (retain_live now)
    count ← gets length
    fail_when (leb max_sessions count) capacity_reached
    id ← gets (pick draws)
    insert_session id
        (record { binding = binding; expires_at = now + ttl; store = store; state = active })

  unfoldable pub live_from :
      ℕ → ℕ → Option (CookieJarSession Store) → JarMethod Store (CookieJarSession Store)
  live_from now id none = fail not_found
  live_from now id (some session) =
      if leb session.expires_at now
      then (do modify (remove compare id); fail expired)
      else pure session

  unfoldable pub live_session : ℕ → ℕ → JarMethod Store (CookieJarSession Store)
  unfolding live_from
  live_session now id = do session ← gets (get compare id); live_from now id session

  abbrev pub ensure_binding : CookieJarSession Store → CookieJarBinding → JarMethod Store (Unit {0})
  ensure_binding session binding =
      fail_when (not (binding_beq session.binding binding)) binding_mismatch

  abbrev pub ensure_active : CookieJarSession Store → JarMethod Store (Unit {0})
  ensure_active session = fail_when (not (state_is_active session.state)) busy

  unfoldable pub cancel : ℕ → ℕ → CookieJarBinding → JarMethod Store (Unit {0})
  unfolding live_session
  cancel now id binding = do
    session ← live_session now id
    ensure_binding session binding
    modify (remove compare id)

  unfoldable pub binding_of : ℕ → ℕ → JarMethod Store CookieJarBinding
  unfolding live_session
  binding_of now id = do session ← live_session now id; ensure_active session; pure session.binding

  unfoldable pub finish_from :
      ℕ → Bool → Option (CookieJarSession Store) → JarMethod Store (Unit {0})
  finish_from id retryable none = fail not_found
  finish_from id retryable (some session) =
      if retryable
      then modify (adjust compare id (record session { state = active }))
      else modify (remove compare id)

  unfoldable pub finish_refresh : ℕ → Bool → JarMethod Store (Unit {0})
  unfolding finish_from
  finish_refresh id retryable = do session ← gets (get compare id); finish_from id retryable session

module _ {Store Raw : Type 0} (library : Library Store Raw) where
  -- `create`: a jar that starts empty.
  unfoldable pub create : CookieJarBinding → ℕ → ℕ → List ℕ → JarMethod Store (Option ℕ)
  unfolding create_with_store
  create binding ttl now draws = create_with_store binding ttl library.new_store now draws

  abbrev pub is_target : CookieJarBinding → Option Text → Bool
  is_target binding none = false
  is_target binding (some origin) = any (λ allowed. allowed == origin) binding.target_origins

  abbrev pub ensure_origin : CookieJarBinding → Url → JarMethod Store (Unit {0})
  ensure_origin binding url =
      fail_when (not (is_target binding (parse_origin library url.origin))) origin_denied

  unfoldable pub capture_response :
      ℕ → ℕ → CookieJarBinding → Url → List (Option Text) → JarMethod Store (List Text)
  unfolding live_session capture_all enforce_store_limits
  capture_response now id binding response_url headers = do
    session ← live_session now id
    ensure_binding session binding
    ensure_active session
    ensure_origin binding response_url
    captured ← lift (capture_all library response_url headers session.store)
    lift (enforce_store_limits library captured.0)
    modify (adjust compare id (record session { store = captured.0 }))
    pure captured.1

  unfoldable pub cookie_header : ℕ → ℕ → CookieJarBinding → Url → JarMethod Store (Option Text)
  unfolding live_session cookie_header_of
  cookie_header now id binding request_url = do
    session ← live_session now id
    ensure_binding session binding
    ensure_active session
    ensure_origin binding request_url
    lift (cookie_header_of library session.store request_url)

  abbrev pub are_targets : CookieJarBinding → List Text → Bool
  are_targets binding origins =
      all (λ origin. any (λ allowed. allowed == origin) binding.target_origins) origins

  abbrev pub is_login : CookieJarPurpose → Bool
  is_login login = true
  is_login (refresh _ _) = false

  module _ {Secret : Type 0} (snapshot : Store → List Text → Result Secret CookieJarError) where
    unfoldable pub promotion_snapshot :
        ℕ → ℕ → CookieJarBinding → List Text → JarMethod Store (List Text × Secret)
    unfolding live_session normalize_origins
    promotion_snapshot now id binding selected = do
      fail_when (not (is_login binding.purpose)) purpose_mismatch
      origins ← lift (normalize_origins library selected)
      fail_when (not (are_targets binding origins)) origin_denied
      session ← live_session now id
      ensure_binding session binding
      ensure_active session
      secret ← lift (snapshot session.store origins)
      pure (origins, secret)

    abbrev pub refresh_identity : CookieJarPurpose → Result (ℕ × ℕ) CookieJarError
    refresh_identity login = err purpose_mismatch
    refresh_identity (refresh credential_id expected_revision) =
        ok (credential_id, expected_revision)

    -- The part of `begin_refresh_commit` that follows on the lookup of the session.
    unfoldable pub commit_session :
        ℕ
        → CookieJarBinding
        → List Text
        → CookieJarSession Store
        → JarMethod Store ((ℕ × ℕ) × List Text × Secret)
    commit_session id binding origins session = do
      ensure_binding session binding
      ensure_active session
      identity ← lift (refresh_identity binding.purpose)
      secret ← lift (snapshot session.store origins)
      modify (adjust compare id (record session { state = committing }))
      pure (identity, origins, secret)

    unfoldable pub begin_refresh_commit :
        ℕ → ℕ → CookieJarBinding → List Text → JarMethod Store ((ℕ × ℕ) × List Text × Secret)
    unfolding live_session normalize_origins commit_session
    begin_refresh_commit now id binding selected = do
      origins ← lift (normalize_origins library selected)
      fail_when (not (are_targets binding origins)) origin_denied
      session ← live_session now id
      commit_session id binding origins session
