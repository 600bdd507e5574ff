-- ===== src/Network/Cookies/Requests.antt =====
-- Whatever is asked of the temporary cookie jars, and in whatever order: the lock of
-- `TemporaryCookieJars` makes each method one step.
use audio_down_core.Base.{
  ℕ, Bool, Option, List, [], ◌∷◌, ◌≡◌, refl, sym, subst, Result, ok, fail_if, ltb, ◌||◌, length,
  ◌*◌,
}
use audio_down_core.Base.Text.{Text}
use audio_down_core.Network.Cookies.Session.{
  Url, Library, Cookie, CookieJarError, CookieJarBinding, header_too_large, max_cookies,
  max_cookie_header_bytes,
}
use audio_down_core.Network.Cookies.Store.{enforce_store_limits, cookie_bytes}
use audio_down_core.Network.Cookies.Jars.{
  Sessions, create, cancel, binding_of, finish_refresh, capture_response, cookie_header,
  promotion_snapshot, begin_refresh_commit,
}
use audio_down_core.Network.Cookies.Bounds.{
  IsBounded, create_with_store-IsBounded, cancel-IsBounded, capture_response-IsBounded,
  cookie_header-IsBounded, binding_of-IsBounded, finish_refresh-IsBounded,
  promotion_snapshot-IsBounded, begin_refresh_commit-IsBounded,
}

-- A call with its arguments: the time first, then the session.
pub data Request : Type 0 where
  creating : CookieJarBinding → ℕ → ℕ → List ℕ → Request
  cancelling : ℕ → ℕ → CookieJarBinding → Request
  capturing : ℕ → ℕ → CookieJarBinding → Url → List (Option Text) → Request
  sending : ℕ → ℕ → CookieJarBinding → Url → Request
  reading : ℕ → ℕ → Request
  promoting : ℕ → ℕ → CookieJarBinding → List Text → Request
  beginning : ℕ → ℕ → CookieJarBinding → List Text → Request
  finishing : ℕ → Bool → Request

module _ {Store Raw Secret : Type 0} (library : Library Store Raw)
    (snapshot : Store → List Text → Result Secret CookieJarError) where
  unfoldable pub serve : Request → Sessions Store → Sessions Store
  serve (creating binding ttl now draws) s = (create library binding ttl now draws s).1
  serve (cancelling now id binding) s = (cancel now id binding s).1
  serve (capturing now id binding url headers) s =
      (capture_response library now id binding url headers s).1
  serve (sending now id binding url) s = (cookie_header library now id binding url s).1
  serve (reading now id) s = (binding_of now id s).1
  serve (promoting now id binding selected) s =
      (promotion_snapshot library snapshot now id binding selected s).1
  serve (beginning now id binding selected) s =
      (begin_refresh_commit library snapshot now id binding selected s).1
  serve (finishing id retryable) s = (finish_refresh id retryable s).1

  unfoldable pub serve_all : List Request → Sessions Store → Sessions Store
  unfolding serve
  serve_all [] s = s
  serve_all (request ∷ rest) s = serve_all rest (serve request s)

  module _ (fresh : library.iter_unexpired library.new_store ≡ []) where
    new_store-limits : enforce_store_limits library library.new_store ≡ ok tt
    unfolding enforce_store_limits
    new_store-limits =
        subst
          (λ (cookies : List Cookie).
            fail_if
              (ltb max_cookies (length cookies)
                || ltb (max_cookie_header_bytes * 2) (cookie_bytes cookies))
              header_too_large
            ≡ ok tt)
          (sym fresh) refl

    serve-IsBounded :
        (request : Request) (s : Sessions Store)
        → IsBounded library s
        → IsBounded library (serve request s)
    unfolding serve create
    serve-IsBounded (creating binding ttl now draws) s h =
        create_with_store-IsBounded library binding ttl library.new_store now draws new_store-limits
          s h
    serve-IsBounded (cancelling now id binding) s h = cancel-IsBounded library now id binding s h
    serve-IsBounded (capturing now id binding url headers) s h =
        capture_response-IsBounded library now id binding url headers s h
    serve-IsBounded (sending now id binding url) s h =
        cookie_header-IsBounded library now id binding url s h
    serve-IsBounded (reading now id) s h = binding_of-IsBounded library now id s h
    serve-IsBounded (promoting now id binding selected) s h =
        promotion_snapshot-IsBounded library snapshot now id binding selected s h
    serve-IsBounded (beginning now id binding selected) s h =
        begin_refresh_commit-IsBounded library snapshot now id binding selected s h
    serve-IsBounded (finishing id retryable) s h = finish_refresh-IsBounded library id retryable s h

    -- Whatever the jars are asked, in whatever order and at whatever times, there are at most 64 of
    -- them, and each was within the limits on its cookies when it was last written, if that held
    -- before, and a new store has no cookies.
    pub serve_all-IsBounded :
        (requests : List Request) (s : Sessions Store)
        → IsBounded library s
        → IsBounded library (serve_all requests s)
    unfolding serve_all
    serve_all-IsBounded [] s h = h
    serve_all-IsBounded (request ∷ rest) s h =
        serve_all-IsBounded rest (serve request s) (serve-IsBounded request s h)
