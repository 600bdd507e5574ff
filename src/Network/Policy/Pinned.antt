-- ===== src/Network/Policy/Pinned.antt =====
-- What crates/audiodown-network-proxy/src/policy.rs makes of the addresses of a host.
use mathlib.Core.List.{Memᴰ}
use audio_down_core.Base.{
  Bool, true, false, not, ◌||◌, ◌≡◌, ◌≢◌, ◌⊎◌, inl, inr, refl, sym, ◌∙◌, subst, none, some, List,
  [], ◌∷◌, is_empty, any, All, All-members, if◌then◌else◌, Result, ok, fail_if-bind,
  ne_nil_of_is_empty, arith,
}
use audio_down_core.Base.Text.{Text, text_eq}
use audio_down_core.Network.Address.{IpAddr, is_global_address, is_fixture_address}
use audio_down_core.Network.Policy.{
  ProxyPolicy, lookup, check_addresses, address_set, blocked_address,
}
use audio_down_core.Network.Policy.Addresses.{
  IsStrict, address_set-IsStrict, All-address_set, address_set-ne-nil, address_set-id,
}

-- A mapped host has only its fixture address. For another host all addresses are global, and each is
-- one of the resolver's answer.
abbrev pub IsPermitted : ProxyPolicy → Text → Result (List IpAddr) (Unit {0}) → List IpAddr → Type 0
IsPermitted policy host answer addresses =
    ((address : IpAddr) × (lookup host policy.fixture_mappings ≡ some address)
      × (is_fixture_address address ≡ true)
      × (addresses ≡ address ∷ []))
    ⊎ ((lookup host policy.fixture_mappings ≡ none)
        × ((found : List IpAddr) × (answer ≡ ok found)
            × All (λ a. (is_global_address a ≡ true) × Memᴰ a found) addresses))

-- The addresses are there, in strictly ascending order, and permitted for the host.
pub record IsPinned (policy : ProxyPolicy) (host : Text) (answer : Result (List IpAddr) (Unit {0}))
    (addresses : List IpAddr) : Type 0 where
  pub there : addresses ≢ []
  pub ascending : IsStrict addresses
  pub permitted : IsPermitted policy host answer addresses

All-of_none :
    (P : IpAddr → Type 0) (p : IpAddr → Bool) (l : List IpAddr)
    → ((a : IpAddr) → p a ≡ true → P a)
    → any (λ a. not (p a)) l ≡ false
    → All P l
All-of_none P p [] f h = tt
All-of_none P p (a ∷ rest) f h = (f a (ground arith), All-of_none P p rest f (ground arith))

-- What the tests on the addresses let through.
check_addresses-ok :
    (is_fixture : Bool) (l result : List IpAddr)
    → check_addresses is_fixture l ≡ ok result
    → (l ≢ [])
      × (result ≡ address_set l)
      × All (λ a. (if is_fixture then is_fixture_address a else is_global_address a) ≡ true) l
unfolding check_addresses
check_addresses-ok is_fixture l result h =
    let test = λ (a : IpAddr). if is_fixture then is_fixture_address a else is_global_address a in
    let (passed, h₁) =
      fail_if-bind (is_empty l || any (λ a. not (test a)) l) blocked_address (ok (address_set l))
        h in
    (
      ne_nil_of_is_empty l (ground arith),
      ground arith,
      All-of_none (λ a. test a ≡ true) test l (λ a good. good) (ground arith),
    )

pub mapped-IsPinned :
    (policy : ProxyPolicy) (host : Text) (answer : Result (List IpAddr) (Unit {0}))
    (address : IpAddr) (result : List IpAddr)
    → lookup host policy.fixture_mappings ≡ some address
    → check_addresses true (address ∷ []) ≡ ok result
    → IsPinned policy host answer result
mapped-IsPinned policy host answer address result mapped h =
    let (there, same, good) = check_addresses-ok true (address ∷ []) result h in
    let one = address_set-id (address ∷ []) (tt, tt) in
    subst (IsPinned policy host answer) (sym (same ∙ one)) (record {
      there = there;
      ascending = (tt, tt);
      permitted = inl (address, mapped, good.0, refl);
    })

pub resolved-IsPinned :
    (policy : ProxyPolicy) (host : Text) (answer : Result (List IpAddr) (Unit {0}))
    (found result : List IpAddr)
    → lookup host policy.fixture_mappings ≡ none
    → answer ≡ ok found
    → check_addresses false found ≡ ok result
    → IsPinned policy host answer result
resolved-IsPinned policy host answer found result unmapped answered h =
    let (there, same, good) = check_addresses-ok false found result h in
    let P : IpAddr → Type 0 = λ a. (is_global_address a ≡ true) × Memᴰ a found in
    subst (IsPinned policy host answer) (sym same) (record {
      there = address_set-ne-nil found there;
      ascending = address_set-IsStrict found;
      permitted = inr (
        unmapped,
        (found, answered, All-address_set P found (both found good (All-members found))),
      );
    })
  where
    both :
        (l : List IpAddr)
        → All (λ a. is_global_address a ≡ true) l
        → All (λ a. Memᴰ a found) l
        → All (λ a. (is_global_address a ≡ true) × Memᴰ a found) l
    both [] g m = tt
    both (a ∷ rest) g m = ((g.0, m.0), both rest g.1 m.1)
