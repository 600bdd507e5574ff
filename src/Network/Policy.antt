-- ===== src/Network/Policy.antt =====
-- crates/audiodown-network-proxy/src/policy.rs: the policy that authorises a request and its redirects.
-- The `url` crate's parser is a parameter, and so is the resolver, with its state.
pub mod Addresses
pub mod Pinned
pub mod Authorized
use audio_down_core.Base.{
  ℕ, Bool, true, false, not, ◌&&◌, ◌||◌, ◌≡◌, Option, none, some, List, [], ◌∷◌, is_empty, any,
  nat_beq, ◌==◌, if◌then◌else◌, Result, ok, err, ◌>>=◌, ◌>>◌, map_err, ok_or, fail_if,
}
use audio_down_core.Base.Order.{is_eq}
use audio_down_core.Base.Sort.{sort_by}
use audio_down_core.Base.Text.{Text, text, text_eq}
use audio_down_core.Network.Address.{
  IpAddr, is_global_address, is_fixture_address, address_key, address_cmp,
}
use audio_down_core.Network.Host.{
  HostPattern, from_manifest, allows, normalize_host, valid_hostname,
}

pub data ProxyPolicyError : Type 0 where
  invalid_url host_not_allowed blocked_address resolve_failed : ProxyPolicyError
  dns_rebinding redirect_host_changed developer_mode_required : ProxyPolicyError
  invalid_fixture_mapping : ProxyPolicyError

-- What the source reads of a parsed URL.
pub data UrlHost : Type 0 where
  domain : Text → UrlHost
  ip_literal : IpAddr → UrlHost

pub record Url : Type 0 where
  pub scheme : Text
  pub username : Text
  pub password : Option Text
  pub fragment : Option Text
  pub host : Option UrlHost
  pub port_or_known_default : Option ℕ

-- The trait `DnsResolver`, over the state that `&mut self` is.
abbrev pub Resolver : Type 0 → Type 0
Resolver S = Text → S → Result (List IpAddr) Unit × S

pub record ProxyPolicy : Type 0 where
  pub allowed_hosts : List HostPattern
  pub developer_mode : Bool
  pub fixture_mappings : List (Text × IpAddr)

unfoldable pub production : List Text → ProxyPolicy
unfolding from_manifest
production hosts = record {
  allowed_hosts = from_manifest hosts;
  developer_mode = false;
  fixture_mappings = [];
}

unfoldable pub developer : List Text → ProxyPolicy
unfolding from_manifest
developer hosts = record {
  allowed_hosts = from_manifest hosts;
  developer_mode = true;
  fixture_mappings = [];
}

-- `HashMap::get`, and `insert` in the list of the entries.
abbrev pub lookup : Text → List (Text × IpAddr) → Option IpAddr
lookup host [] = none
lookup host ((key, address) ∷ rest) =
    let later = lookup host rest in if key == host then some address else later

abbrev pub insert : Text → IpAddr → List (Text × IpAddr) → List (Text × IpAddr)
insert host address [] = (host, address) ∷ []
insert host address ((key, old) ∷ rest) =
    let later = insert host address rest in
    if key == host then (host, address) ∷ rest else (key, old) ∷ later

abbrev pub is_some {ℓ} : {A : Type ℓ} → Option A → Bool
is_some none = false
is_some (some a) = true

unfoldable pub with_fixture_mapping :
    ProxyPolicy → Text → IpAddr → Result ProxyPolicy ProxyPolicyError
unfolding normalize_host valid_hostname is_fixture_address
with_fixture_mapping policy raw_host address = do
  fail_if (not policy.developer_mode) developer_mode_required
  let host = normalize_host raw_host
  fail_if (not (valid_hostname host) || not (is_fixture_address address)) invalid_fixture_mapping
  ok (record policy { fixture_mappings = insert host address policy.fixture_mappings })

pub record PinnedTarget : Type 0 where
  pub url : Url
  pub host : Text
  pub port : ℕ
  pub addresses : List IpAddr

pub record ParsedRequestUrl : Type 0 where
  pub url : Url
  pub host : Text
  pub port : ℕ

abbrev pub domain_of : UrlHost → Option Text
domain_of (domain host) = some host
domain_of (ip_literal address) = none

-- The scheme is not permitted, or there are credentials or a fragment.
abbrev pub is_refused : Bool → Url → Bool
is_refused developer_mode url =
    (not developer_mode && not (url.scheme == text "https"))
    || (developer_mode && not (url.scheme == text "http" || url.scheme == text "https"))
    || not (is_empty url.username)
    || is_some url.password
    || is_some url.fragment

-- `Vec::dedup` after the first element.
abbrev pub dedup_after : IpAddr → List IpAddr → List IpAddr
dedup_after a [] = []
dedup_after a (b ∷ bs) =
    let kept = dedup_after b bs in if is_eq (address_cmp a b) then kept else b ∷ kept

abbrev pub dedup : List IpAddr → List IpAddr
dedup [] = []
dedup (a ∷ rest) = a ∷ dedup_after a rest

-- `addresses.sort_unstable(); addresses.dedup();`, and the elements of a `BTreeSet` in order.
unfoldable pub address_set : List IpAddr → List IpAddr
unfolding sort_by
address_set addresses = dedup (sort_by address_cmp addresses)

abbrev pub same_addresses : List IpAddr → List IpAddr → Bool
same_addresses [] [] = true
same_addresses (a ∷ rest) (b ∷ others) = is_eq (address_cmp a b) && same_addresses rest others
same_addresses _ _ = false

-- The tests on the addresses that a host resolves to.
unfoldable pub check_addresses : Bool → List IpAddr → Result (List IpAddr) ProxyPolicyError
unfolding is_global_address is_fixture_address address_set
check_addresses is_fixture addresses =
    fail_if
      (is_empty addresses
        || any (λ a. not (if is_fixture then is_fixture_address a else is_global_address a))
            addresses)
      blocked_address
    >> ok (address_set addresses)

abbrev pub pin : ParsedRequestUrl → List IpAddr → PinnedTarget
pin parsed addresses = record {
  url = parsed.url;
  host = parsed.host;
  port = parsed.port;
  addresses = addresses;
}

-- The tests on a redirected target.
unfoldable pub check_redirect : PinnedTarget → PinnedTarget → Result PinnedTarget ProxyPolicyError
unfolding address_set
check_redirect pinned redirected =
    fail_if (not (redirected.host == pinned.host)) redirect_host_changed
    >> fail_if
        (not (same_addresses (address_set redirected.addresses) (address_set pinned.addresses)))
        dns_rebinding
    >> ok redirected

module _ {S : Type 0} (parse_url : Text → Option Url) (resolve : Resolver S) where
  unfoldable pub parse_request_url : Text → Bool → Result ParsedRequestUrl ProxyPolicyError
  unfolding normalize_host valid_hostname
  parse_request_url raw_url developer_mode = do
    url ← ok_or invalid_url (parse_url raw_url)
    fail_if (is_refused developer_mode url) invalid_url
    url_host ← ok_or invalid_url url.host
    name ← ok_or invalid_url (domain_of url_host)
    let host = normalize_host name
    fail_if (not (valid_hostname host)) invalid_url
    port ← ok_or invalid_url url.port_or_known_default
    fail_if (nat_beq port 0) invalid_url
    ok (record { url = url; host = host; port = port })

  unfoldable pub resolve_and_validate :
      ProxyPolicy → Text → S → Result (List IpAddr) ProxyPolicyError × S
  unfolding check_addresses
  resolve_and_validate policy host s = elim (lookup host policy.fixture_mappings) [
    | some address ↦ (check_addresses true (address ∷ []), s)
    | none ↦
        let (answer, s') = resolve host s in
        (map_err (λ _. resolve_failed) answer >>= check_addresses false, s')
  ]

  -- What is tested before the host is resolved.
  unfoldable pub authorize_host : ProxyPolicy → Text → Result ParsedRequestUrl ProxyPolicyError
  unfolding parse_request_url allows
  authorize_host policy raw_url = do
    parsed ← parse_request_url raw_url policy.developer_mode
    fail_if
        (parsed.url.scheme == text "http"
          && not (is_some (lookup parsed.host policy.fixture_mappings)))
        invalid_url
    fail_if (not (allows policy.allowed_hosts parsed.host)) host_not_allowed
    ok parsed

  unfoldable pub authorize_url : ProxyPolicy → Text → S → Result PinnedTarget ProxyPolicyError × S
  unfolding authorize_host resolve_and_validate
  authorize_url policy raw_url s = elim (authorize_host policy raw_url) [
    | err e ↦ (err e, s)
    | ok parsed ↦
        let (resolved, s') = resolve_and_validate policy parsed.host s in
        (resolved >>= λ addresses. ok (pin parsed addresses), s')
  ]

  unfoldable pub authorize_redirect :
      ProxyPolicy → PinnedTarget → Text → S → Result PinnedTarget ProxyPolicyError × S
  unfolding authorize_url check_redirect
  authorize_redirect policy pinned raw_url s =
      let (authorised, s') = authorize_url policy raw_url s in
      (authorised >>= check_redirect pinned, s')
