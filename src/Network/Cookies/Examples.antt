-- ===== src/Network/Cookies/Examples.antt =====
-- The theorems on cookie jars, applied to a jar with one cookie.
use audio_down_core.Base.{ℕ, ◌<◌, true, none, some, List, [], ◌∷◌, ◌≡◌, refl, Result, ok, arith}
use Prim.Native.Nat.{Ordering, compare}
use audio_down_core.Base.Map.{get}
use audio_down_core.Base.Sort.{sort_by, insert_by}
use audio_down_core.Base.Text.{Text, text, text_beq}
use audio_down_core.Network.Cookies.Session.{
  Url, Cookie, Library, inserted, CookieJarError, CookieJarBinding, CookieJarSession, refresh,
  active, parse_origin,
}
use audio_down_core.Network.Cookies.Store.{cookie_header_of, join_cookies, enforce_store_limits}
use audio_down_core.Network.Cookies.Jars.{
  Sessions, pick, live_session, live_from, cookie_header, is_target,
}
use audio_down_core.Network.Cookies.Bounds.{IsBounded}
use audio_down_core.Network.Cookies.Requests.{
  Request, creating, capturing, cancelling, serve_all, serve_all-IsBounded,
}
use audio_down_core.Network.Cookies.Access.{cookie_header-IsBound}
use audio_down_core.Network.Cookies.Commit.{IsFirstUnused, pick-IsFirstUnused}

abbrev site : Text
site = text "https://a.b"

abbrev url_of : Text → Url
url_of t = record {
  scheme = text "https";
  username = [];
  password = none;
  host = some (text "a.b");
  path = text "/";
  query = none;
  fragment = none;
  origin = t;
}

abbrev token : Cookie
token = record { name = text "t"; value = text "1"; path = text "/" }

abbrev library : Library (List Cookie) Text
library = record {
  parse_url = λ t. some (url_of t);
  trim = λ t. t;
  new_store = [];
  parse_cookie = λ t. some t;
  raw_name = λ t. t;
  raw_value = λ t. t;
  raw_value_trimmed = λ t. t;
  raw_domain = λ t. none;
  insert_raw = λ store t u. (inserted, token ∷ store);
  iter_unexpired = λ store. store;
  matches = λ store u. store;
  domain_cmp = λ a b. Ordering.eq;
  suffix_str = λ t. none;
  is_header_value = λ t. true;
}

abbrev binding : CookieJarBinding
binding = record {
  plugin_id = record { as_str = text "demo" };
  manifest_hash = none;
  platform_id = text "p";
  scope = text "s.t";
  target_origins = site ∷ [];
  purpose = refresh 5 2;
}

abbrev one_jar : Sessions (List Cookie)
one_jar =
    (7, record { binding = binding; expires_at = 100; store = token ∷ []; state = active }) ∷ []

abbrev snapshot : List Cookie → List Text → Result (List Cookie) CookieJarError
snapshot store origins = ok store

abbrev requests : List Request
requests =
    creating binding 50 3 (7 ∷ 8 ∷ [])
    ∷ capturing 4 8 binding (url_of site) (some (text "t=1") ∷ [])
    ∷ cancelling 5 7 binding
    ∷ []

one_jar-IsBounded : IsBounded library one_jar
unfolding IsBounded enforce_store_limits
one_jar-IsBounded = (omega arith, (refl, tt))

serve_all-IsBounded_example : IsBounded library (serve_all library snapshot requests one_jar)
serve_all-IsBounded_example =
    serve_all-IsBounded library snapshot refl requests one_jar one_jar-IsBounded

given : (cookie_header library 9 7 binding (url_of site) one_jar).0 ≡ ok (some (text "t=1"))
unfolding cookie_header live_session live_from cookie_header_of join_cookies parse_origin sort_by
    insert_by text_beq
given = refl

cookie_header-IsBound_example :
    (session : CookieJarSession (List Cookie)) × (get compare 7 one_jar ≡ some session)
    × (9 < session.expires_at)
    × (session.binding ≡ binding)
    × (session.state ≡ active)
    × (is_target library binding (parse_origin library site) ≡ true)
    × (cookie_header_of library session.store (url_of site) ≡ ok (some (text "t=1")))
cookie_header-IsBound_example =
    cookie_header-IsBound library 9 7 binding (url_of site) one_jar (some (text "t=1")) given

-- What is asked while the commit is under way.
abbrev later : List Request
later =
    capturing 10 7 binding (url_of site) (some (text "t=2") ∷ [])
    ∷ creating binding 50 11 (8 ∷ [])
    ∷ []

pick-IsFirstUnused_example :
    (id : ℕ) × (pick (7 ∷ 8 ∷ []) one_jar ≡ some id) × IsFirstUnused (7 ∷ 8 ∷ []) one_jar id
pick-IsFirstUnused_example =
    pick-IsFirstUnused (7 ∷ 8 ∷ []) one_jar (((λ h. ground arith), tt), (tt, tt)) (omega arith)
