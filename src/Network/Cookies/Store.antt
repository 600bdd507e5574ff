-- ===== src/Network/Cookies/Store.antt =====
-- cookie_jar.rs: the cookies of one store: the limits, the header, and what a response sets.
use audio_down_core.Base.{
  ℕ, ◌+◌, ◌*◌, Bool, false, ◌&&◌, ◌||◌, not, Option, none, some, List, [], ◌∷◌, ◌++◌, Result, ok,
  err, Ordering, if◌then◌else◌, ltb, ◌==◌, length, is_empty, fail_if, ok_or, map, nat_beq, ◌>>=◌,
  ◌>>◌,
}
use Prim.Native.Nat.{compare}
use audio_down_core.Base.Order.{◌then_with◌}
use audio_down_core.Base.Sort.{sort_by}
use audio_down_core.Base.Text.{Text, text, text_eq, text_cmp, byte_len}
use audio_down_core.Network.Host.{lower}
use audio_down_core.Network.Cookies.Session.{
  Cookie, Url, Library, rejected, CookieJarError, invalid_cookie, header_too_large, max_cookies,
  max_cookie_header_bytes,
}

abbrev pub with_cookie : Text → Cookie → Text
with_cookie value cookie =
    (if is_empty value then [] else value ++ text "; ") ++ cookie.name ++ b'=' ∷ cookie.value

unfoldable pub join_cookies : Text → List Cookie → Result Text CookieJarError
join_cookies value [] = ok value
join_cookies value (cookie ∷ rest) = do
  fail_if (ltb max_cookie_header_bytes (byte_len (with_cookie value cookie))) header_too_large
  join_cookies (with_cookie value cookie) rest

-- The names, values and paths together.
abbrev pub cookie_bytes : List Cookie → ℕ
cookie_bytes [] = 0
cookie_bytes (cookie ∷ rest) =
    byte_len cookie.name + byte_len cookie.value + byte_len cookie.path + cookie_bytes rest

abbrev pub trim_dots : Text → Text
trim_dots [] = []
trim_dots (c ∷ cs) = let rest = trim_dots cs in if nat_beq c b'.' then rest else c ∷ cs

module _ {Store Raw : Type 0} (library : Library Store Raw) where
  -- The order of the cookies in a header: the longest path first.
  abbrev pub header_cmp : Cookie → Cookie → Ordering
  header_cmp left right =
      compare (byte_len right.path) (byte_len left.path)
      then_with library.domain_cmp left right
      then_with text_cmp left.path right.path
      then_with text_cmp left.name right.name

  unfoldable pub enforce_store_limits : Store → Result (Unit {0}) CookieJarError
  enforce_store_limits store =
      fail_if
        (ltb max_cookies (length (library.iter_unexpired store))
          || ltb (max_cookie_header_bytes * 2) (cookie_bytes (library.iter_unexpired store)))
        header_too_large

  unfoldable pub cookie_header_of : Store → Url → Result (Option Text) CookieJarError
  unfolding join_cookies
  cookie_header_of store request_url = do
    let matching = sort_by header_cmp (library.matches store request_url)
    fail_if (ltb max_cookies (length matching)) header_too_large
    value ← join_cookies [] matching
    if is_empty value
        then ok none
        else (if library.is_header_value value then ok (some value) else err invalid_cookie)

  abbrev pub canonical_host : Text → Option Text
  canonical_host domain = elim (library.parse_url (text "https://" ++ domain ++ text "/")) [
    | none ↦ none
    | some url ↦ url.host
  ]

  abbrev pub is_suffix : Option Text → Text → Bool
  is_suffix none canonical = false
  is_suffix (some suffix) canonical = suffix == canonical

  unfoldable pub reject_public_suffix : Raw → Result (Unit {0}) CookieJarError
  reject_public_suffix raw = elim (library.raw_domain raw) [
    | none ↦ ok tt
    | some domain ↦ do
      canonical ← ok_or invalid_cookie (canonical_host (map lower (trim_dots domain)))
      fail_if (is_suffix (library.suffix_str canonical) canonical) invalid_cookie
  ]

  unfoldable pub cookie_secret_markers : Raw → List Text
  cookie_secret_markers raw =
      let value = library.raw_value raw in
      let trimmed = library.raw_value_trimmed raw in
      (if is_empty value then [] else value ∷ (library.raw_name raw ++ b'=' ∷ value) ∷ [])
      ++ (if not (is_empty trimmed) && not (trimmed == value) then trimmed ∷ [] else [])

  -- One `Set-Cookie` header: its text, where it is one, and the store and the markers so far.
  unfoldable pub capture_one : Url → Option Text → Store → Result (Store × List Text) CookieJarError
  unfolding reject_public_suffix cookie_secret_markers
  capture_one response_url header store = do
    value ← ok_or invalid_cookie header
    raw ← ok_or invalid_cookie (library.parse_cookie value)
    fail_if (is_empty (library.raw_name raw)) invalid_cookie
    reject_public_suffix raw
    let (insertion, updated) = library.insert_raw store raw response_url
    elim insertion [ rejected ↦ err invalid_cookie | _ ↦ ok (updated, cookie_secret_markers raw) ]

  unfoldable pub capture_all :
      Url → List (Option Text) → Store → Result (Store × List Text) CookieJarError
  unfolding capture_one
  capture_all response_url [] store = ok (store, [])
  capture_all response_url (header ∷ rest) store = do
    first ← capture_one response_url header store
    later ← capture_all response_url rest first.0
    ok (later.0, first.1 ++ later.1)
