-- ===== src/Network/Policy/Authorized.antt =====
-- What a target that crates/audiodown-network-proxy/src/policy.rs authorises is.
use audio_down_core.Base.{
  true, false, not, ◌&&◌, ◌≡◌, ◌≢◌, ◌⊎◌, inl, inr, Result, refl, sym, ap, ◌∙◌, subst, Option, none,
  some, List, [], ◌∷◌, is_empty, All, All-map, nat_beq, ◌==◌, eq_iff, ok, Result-cases,
  Option-cases, arith,
}
use audio_down_core.Base.Text.{Text, text, text_eq}
use audio_down_core.Network.Address.{IpAddr, is_global_address}
use audio_down_core.Network.Host.{allows, valid_hostname, from_manifest}
use audio_down_core.Network.Policy.{
  ProxyPolicy, Url, Resolver, ParsedRequestUrl, PinnedTarget, domain_of, is_refused, is_some,
  lookup, production, parse_request_url, resolve_and_validate, authorize_host, pin, authorize_url,
  check_redirect, authorize_redirect, address_set, same_addresses,
}
use audio_down_core.Network.Policy.Pinned.{
  IsPermitted, IsPinned, mapped-IsPinned, resolved-IsPinned,
}
use audio_down_core.Network.Policy.Addresses.{IsStrict, address_set-id, eq_of_same_addresses}

-- The host has a fixture mapping.
abbrev pub IsMapped : ProxyPolicy → Text → Type 0
IsMapped policy host = is_some (lookup host policy.fixture_mappings) ≡ true

-- HTTPS, or HTTP to a fixture in developer mode; no credentials, no fragment, a valid host name that
-- the manifest allows, and a port.
pub record IsAllowed (policy : ProxyPolicy) (parsed : ParsedRequestUrl) : Type 0 where
  pub scheme :
      (parsed.url.scheme ≡ text "https")
      ⊎ ((parsed.url.scheme ≡ text "http")
          × (policy.developer_mode ≡ true)
          × IsMapped policy parsed.host)
  pub anonymous : (parsed.url.username ≡ []) × (parsed.url.password ≡ none)
  pub whole : parsed.url.fragment ≡ none
  pub named : valid_hostname parsed.host ≡ true
  pub listed : allows policy.allowed_hosts parsed.host ≡ true
  pub port : parsed.port ≢ 0

is_some-false {ℓ} : {A : Type ℓ} (o : Option A) → is_some o ≡ false → o ≡ none
is_some-false none h = refl
is_some-false (some a) h = cc

is_empty-true {ℓ} : {A : Type ℓ} (l : List A) → is_empty l ≡ true → l ≡ []
is_empty-true [] h = refl
is_empty-true (x ∷ xs) h = cc

IsAllowed-of_tests :
    (policy : ProxyPolicy) (found : ParsedRequestUrl)
    → is_refused policy.developer_mode found.url ≡ false
    → (found.url.scheme == text "http" && not (is_some (lookup found.host policy.fixture_mappings)))
      ≡ false
    → valid_hostname found.host ≡ true
    → nat_beq found.port 0 ≡ false
    → allows policy.allowed_hosts found.host ≡ true
    → IsAllowed policy found
IsAllowed-of_tests policy found accepted secure named port listed = record {
  scheme =
      ground (arith, eq_iff found.url.scheme (text "http"), eq_iff found.url.scheme (text "https"));
  anonymous = (
    is_empty-true found.url.username (ground arith),
    is_some-false found.url.password (ground arith),
  );
  whole = is_some-false found.url.fragment (ground arith);
  named = named;
  listed = listed;
  port = ground arith;
}

module _ {S : Type 0} (parse_url : Text → Option Url) (resolve : Resolver S)
    (policy : ProxyPolicy) where
  resolve_and_validate-IsPinned :
      (host : Text) (s : S) {addresses : List IpAddr}
      → (resolve_and_validate parse_url resolve policy host s).0 ≡ ok addresses
      → IsPinned policy host (resolve host s).0 addresses
  resolve_and_validate-IsPinned host s {addresses} h =
      elim (Option-cases (lookup host policy.fixture_mappings)) [
        | inl unmapped ↦ elim (Result-cases (resolve host s).0) [
          | inl (answer, resolved) ↦
              resolved-IsPinned policy host (resolve host s).0 answer addresses unmapped resolved
                (unfold resolve_and_validate in ground arith)
          | inr (e, failed) ↦ absurd (unfold resolve_and_validate in ground arith)
        ]
        | inr (address, mapped) ↦
            mapped-IsPinned policy host (resolve host s).0 address addresses mapped
              (unfold resolve_and_validate in ground arith)
      ]

  -- What parsing gives, and the tests that it passed.
  parse_request_url-eq-ok :
      (raw_url : Text) {parsed : ParsedRequestUrl}
      → parse_request_url parse_url resolve raw_url policy.developer_mode ≡ ok parsed
      → (is_refused policy.developer_mode parsed.url ≡ false)
        × (valid_hostname parsed.host ≡ true)
        × (nat_beq parsed.port 0 ≡ false)
  parse_request_url-eq-ok raw_url {parsed} h = elim (Option-cases (parse_url raw_url)) [
    | inl p ↦ absurd (unfold parse_request_url in ground arith)
    | inr (url, p) ↦ elim (Option-cases url.host) [
      | inl q ↦ absurd (unfold parse_request_url in ground arith)
      | inr (url_host, q) ↦ elim (Option-cases (domain_of url_host)) [
        | inl r ↦ absurd (unfold parse_request_url in ground arith)
        | inr (name, r) ↦ elim (Option-cases url.port_or_known_default) [
          | inl t ↦ absurd (unfold parse_request_url in ground arith)
          | inr (port, t) ↦ unfold parse_request_url in ground arith
        ]
      ]
    ]
  ]

  authorize_host-IsAllowed :
      (raw_url : Text) {parsed : ParsedRequestUrl}
      → authorize_host parse_url resolve policy raw_url ≡ ok parsed
      → IsAllowed policy parsed
  authorize_host-IsAllowed raw_url {parsed} h =
      elim (Result-cases (parse_request_url parse_url resolve raw_url policy.developer_mode)) [
        | inr (e, p) ↦ absurd (unfold authorize_host in ground arith)
        | inl (found, p) ↦
            let same : found ≡ parsed = unfold authorize_host in ground arith in
            let secure : (found.url.scheme == text "http"
                  && not (is_some (lookup found.host policy.fixture_mappings)))
                ≡ false =
              unfold authorize_host in ground arith in
            let listed : allows policy.allowed_hosts found.host ≡ true =
              unfold authorize_host in ground arith in
            let (accepted, named, port) = parse_request_url-eq-ok raw_url p in
            subst (IsAllowed policy) same
              (IsAllowed-of_tests policy found accepted secure named port listed)
      ]

  -- What the policy says of a target, in the state that the resolver is asked in.
  pub record IsAuthorized (s : S) (target : PinnedTarget) : Type 0 where
    pub parsed : ParsedRequestUrl
    pub allowed : IsAllowed policy parsed
    pub pinned : IsPinned policy parsed.host (resolve parsed.host s).0 target.addresses
    pub made : target ≡ pin parsed target.addresses

  -- Whatever the resolver answers and whatever the state it is in, an authorised target is HTTPS, or
  -- HTTP to a fixture in developer mode; it has no credentials, no fragment and a port; its host is a
  -- valid name that the manifest allows; and its addresses, at least one and none twice, in ascending
  -- order, are exactly the address that the host is mapped to, which is a fixture's, or, where the
  -- host is not mapped, all global and among those that the resolver answers for the host.
  pub authorize_url-IsAuthorized :
      (raw_url : Text) (s : S) (target : PinnedTarget)
      → (authorize_url parse_url resolve policy raw_url s).0 ≡ ok target
      → IsAuthorized s target
  authorize_url-IsAuthorized raw_url s target h =
      elim (Result-cases (authorize_host parse_url resolve policy raw_url)) [
        | inr (e, p) ↦ absurd (unfold authorize_url in ground arith)
        | inl (parsed, p) ↦
            elim (Result-cases (resolve_and_validate parse_url resolve policy parsed.host s).0) [
              | inr (e, q) ↦ absurd (unfold authorize_url in ground arith)
              | inl (addresses, q) ↦
                  let same : pin parsed addresses ≡ target = unfold authorize_url in ground arith in
                  subst (IsAuthorized s) same (record {
                    parsed = parsed;
                    allowed = authorize_host-IsAllowed raw_url p;
                    pinned = resolve_and_validate-IsPinned parsed.host s q;
                    made = refl;
                  })
            ]
      ]

  -- A redirect is authorised only to a target that the policy authorises by itself, on the host and
  -- on exactly the addresses that were pinned before, provided that those are in strictly ascending
  -- order, as every pinned target's are.
  pub authorize_redirect-eq-pinned :
      (pinned : PinnedTarget) (raw_url : Text) (s : S) (target : PinnedTarget)
      → IsStrict pinned.addresses
      → (authorize_redirect parse_url resolve policy pinned raw_url s).0 ≡ ok target
      → (target.host ≡ pinned.host) × (target.addresses ≡ pinned.addresses) × IsAuthorized s target
  authorize_redirect-eq-pinned pinned raw_url s target strict h =
      elim (Result-cases (authorize_url parse_url resolve policy raw_url s).0) [
        | inr (e, p) ↦ absurd (unfold authorize_redirect in ground arith)
        | inl (redirected, p) ↦
            let checked : check_redirect pinned redirected ≡ ok target =
              unfold authorize_redirect in ground arith in
            let same : redirected ≡ target = unfold check_redirect in ground arith in
            let host : target.host ≡ pinned.host =
              unfold check_redirect in ground (arith, eq_iff redirected.host pinned.host) in
            let authorized =
              authorize_url-IsAuthorized raw_url s target (ground (arith, p, same)) in
            let sets : same_addresses (address_set redirected.addresses)
                  (address_set pinned.addresses)
                ≡ true =
              unfold check_redirect in ground arith in
            (
              host,
              sym (address_set-id target.addresses authorized.pinned.ascending)
                  ∙ (sym (ap (λ (t : PinnedTarget). address_set t.addresses) same)
                      ∙ (eq_of_same_addresses _ _ sets ∙ address_set-id pinned.addresses strict)),
              authorized,
            )
      ]

module _ {S : Type 0} (parse_url : Text → Option Url) (resolve : Resolver S)
    (hosts : List Text) where
  global_of_permitted :
      (host : Text) (answer : Result (List IpAddr) (Unit {0})) (addresses : List IpAddr)
      → IsPermitted (production hosts) host answer addresses
      → All (λ a. is_global_address a ≡ true) addresses
  unfolding production
  global_of_permitted host answer addresses (inl (address, mapped, fixture, only)) = cc
  global_of_permitted host answer addresses (inr (unmapped, (found, answered, good))) =
      All-map (λ a g. g.0) addresses good

  https_of_allowed :
      (parsed : ParsedRequestUrl)
      → IsAllowed (production hosts) parsed
      → parsed.url.scheme ≡ text "https"
  unfolding production
  https_of_allowed parsed allowed = go allowed.scheme
    where
      go :
          (parsed.url.scheme ≡ text "https")
            ⊎ ((parsed.url.scheme ≡ text "http")
                × ((production hosts).developer_mode ≡ true)
                × IsMapped (production hosts) parsed.host)
          → parsed.url.scheme ≡ text "https"
      go (inl secure) = secure
      go (inr (plain, mode, mapped)) = cc

  -- Under a production policy an authorised target is HTTPS, on a host that a pattern of the manifest
  -- matches, and every address that it is pinned to is global.
  pub authorize_url-IsGlobal :
      (raw_url : Text) (s : S) (target : PinnedTarget)
      → (authorize_url parse_url resolve (production hosts) raw_url s).0 ≡ ok target
      → (target.url.scheme ≡ text "https")
        × (allows (from_manifest hosts) target.host ≡ true)
        × All (λ a. is_global_address a ≡ true) target.addresses
  unfolding production
  authorize_url-IsGlobal raw_url s target h =
      let authorized =
        authorize_url-IsAuthorized parse_url resolve (production hosts) raw_url s target h in
      (
        ap (λ (t : PinnedTarget). t.url.scheme) authorized.made
            ∙ https_of_allowed authorized.parsed authorized.allowed,
        ap (λ (t : PinnedTarget). allows (from_manifest hosts) t.host) authorized.made
            ∙ authorized.allowed.listed,
        global_of_permitted authorized.parsed.host (resolve authorized.parsed.host s).0
            target.addresses authorized.pinned.permitted,
      )
