-- ===== src/Network/Cookies/Exclusion.antt =====
-- The exclusion of a commit in cookie_jar.rs: until it is finished, its session serves nothing.
use audio_down_core.Base.{ℕ, Option, some, List, ◌≡◌, Result, err}
use Prim.Native.Nat.{compare}
use audio_down_core.Base.Map.{get}
use audio_down_core.Base.Text.{Text}
use audio_down_core.Network.Cookies.Session.{
  Url, Library, CookieJarError, CookieJarBinding, CookieJarSession, active,
}
use audio_down_core.Network.Cookies.Jars.{
  Sessions, binding_of, capture_response, cookie_header, promotion_snapshot, begin_refresh_commit,
}

module _ {Store : Type 0} where
  -- An active session of the ID is there.
  abbrev HasActive : ℕ → Sessions Store → Type 0
  HasActive id s =
      (session : CookieJarSession Store) × (get compare id s ≡ some session)
      × (session.state ≡ active)

module _ {Store Raw Secret : Type 0} (library : Library Store Raw)
    (snapshot : Store → List Text → Result Secret CookieJarError) where
  -- Every way of reading the session, of writing to it and of beginning a commit on it fails, at any
  -- time and for any caller.
  pub record IsExcluded (id : ℕ) (s : Sessions Store) : Type 0 where
    pub no_commit :
        (now : ℕ) (binding : CookieJarBinding) (selected : List Text)
        → (cause : CookieJarError) × ((begin_refresh_commit library snapshot now id binding selected
              s).0
            ≡ err cause)
    pub no_header :
        (now : ℕ) (binding : CookieJarBinding) (url : Url)
        → (cause : CookieJarError) × ((cookie_header library now id binding url s).0 ≡ err cause)
    pub no_capture :
        (now : ℕ) (binding : CookieJarBinding) (url : Url) (headers : List (Option Text))
        → (cause : CookieJarError) × ((capture_response library now id binding url headers s).0
            ≡ err cause)
    pub no_promotion :
        (now : ℕ) (binding : CookieJarBinding) (selected : List Text)
        → (cause : CookieJarError) × ((promotion_snapshot library snapshot now id binding selected
              s).0
            ≡ err cause)
    pub no_binding : (now : ℕ) → (cause : CookieJarError) × ((binding_of now id s).0 ≡ err cause)
