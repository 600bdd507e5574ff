-- ===== src/Network/Examples.antt =====
-- The policy of crates/audiodown-network-proxy/src/policy.rs on a concrete manifest, URL and resolver.
use mathlib.Core.List.{Memᴰ}
use audio_down_core.Base.{
  ℕ, suc, ◌≡◌, ◌↔◌, refl, true, not, Option, none, some, List, [], ◌∷◌, ◌++◌, length, any, All, ok,
  if◌then◌else◌, ◌==◌, arith,
}
use audio_down_core.Base.Text.{Text, text, text_eq, text_beq, text_cmp, IsFreeOf}
use audio_down_core.Network.Address.{Ipv4Addr, v4, is_global_ipv4, is_global_address}
use audio_down_core.Network.Address.Blocks.{value, reserved, is_within, is_global_ipv4-eq-blocks}
use audio_down_core.Network.Host.{wildcard, split, normalize_host, matches, from_manifest, allows}
use audio_down_core.Network.Host.Listed.{IsMatch, allows-IsMatch}
use audio_down_core.Network.Host.Patterns.{matches-wildcard_iff}
use audio_down_core.Network.Policy.{
  Url, domain, Resolver, PinnedTarget, production, authorize_url, authorize_redirect,
}
use audio_down_core.Network.Policy.Authorized.{
  IsAuthorized, authorize_url-IsAuthorized, authorize_redirect-eq-pinned, authorize_url-IsGlobal,
}

abbrev hosts : List Text
hosts = text "*.a.b" ∷ []

abbrev site : Url
site = record {
  scheme = text "https";
  username = [];
  password = none;
  fragment = none;
  host = some (domain (text "X.a.b."));
  port_or_known_default = some 443;
}

abbrev parse_url : Text → Option Url
parse_url raw = if raw == text "u" then some site else none

abbrev public_address : Ipv4Addr
public_address = record { o₀ = 93; o₁ = 184; o₂ = 216; o₃ = 34 }

-- Two equal answers; the state counts the requests.
abbrev resolve : Resolver ℕ
resolve host n = (ok (v4 public_address ∷ v4 public_address ∷ []), suc n)

abbrev target : PinnedTarget
target = record { url = site; host = text "x.a.b"; port = 443; addresses = v4 public_address ∷ [] }

authorized : (authorize_url parse_url resolve (production hosts) (text "u") 0).0 ≡ ok target
unfolding authorize_url text_beq production text_cmp
authorized = refl

redirected :
    (authorize_redirect parse_url resolve (production hosts) target (text "u") 1).0 ≡ ok target
unfolding authorize_redirect text_beq production text_cmp
redirected = refl

authorize_url-IsAuthorized_example : IsAuthorized parse_url resolve (production hosts) 0 target
authorize_url-IsAuthorized_example =
    authorize_url-IsAuthorized parse_url resolve (production hosts) (text "u") 0 target authorized

authorize_redirect-eq-pinned_example :
    (target.host ≡ target.host)
    × (target.addresses ≡ target.addresses)
    × IsAuthorized parse_url resolve (production hosts) 1 target
authorize_redirect-eq-pinned_example =
    authorize_redirect-eq-pinned parse_url resolve (production hosts) target (text "u") 1 target
      (tt, tt) redirected

authorize_url-IsGlobal_example :
    (target.url.scheme ≡ text "https")
    × (allows (from_manifest hosts) target.host ≡ true)
    × All (λ a. is_global_address a ≡ true) target.addresses
authorize_url-IsGlobal_example =
    authorize_url-IsGlobal parse_url resolve hosts (text "u") 0 target authorized

matches-wildcard_iff_example :
    (matches (wildcard (text "a.b") (length (split b'.' (text "a.b")))) (text "X.a.b.") ≡ true) ↔ (
      (label : Text) × IsFreeOf b'.' label
      × (normalize_host (text "X.a.b.") ≡ label ++ b'.' ∷ text "a.b"))
matches-wildcard_iff_example = matches-wildcard_iff (text "a.b") (text "X.a.b.")

is_global_ipv4-eq-blocks_example :
    is_global_ipv4 public_address ≡ not (any (is_within (value public_address)) reserved)
is_global_ipv4-eq-blocks_example =
    is_global_ipv4-eq-blocks public_address (omega arith) (omega arith) (omega arith) (omega arith)

allowed : allows (from_manifest hosts) (text "x.a.b") ≡ true
unfolding allows from_manifest text_beq
allowed = refl

allows-IsMatch_example : (pattern : Text) × Memᴰ pattern hosts × IsMatch pattern (text "x.a.b")
allows-IsMatch_example = allows-IsMatch hosts (text "x.a.b") allowed
