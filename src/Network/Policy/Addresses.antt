-- ===== src/Network/Policy/Addresses.antt =====
-- The list of addresses that crates/audiodown-network-proxy/src/policy.rs pins.
use Prim.Native.Nat.{Ordering}
use mathlib.Core.List.Permᴰ as Perm
use audio_down_core.Base.{
  true, ◌≡◌, ◌≢◌, refl, sym, ap, subst, ◌∙◌, List, [], ◌∷◌, All, All-map, inl, inr, arith,
}
use audio_down_core.Base.Order.{IsLawful, key-IsLawful, Ordering-cases}
use audio_down_core.Base.Sort.{
  sort_by, IsSorted, sort_by-IsSorted, sort_by-perm, sort_by_of_IsSorted, All-perm,
}
use audio_down_core.Base.Text.{text_cmp-IsLawful, eq_of_text_cmp}
use audio_down_core.Network.Address.{IpAddr, v4, v6, address_key, address_cmp}
use audio_down_core.Network.Policy.{dedup_after, dedup, address_set, same_addresses}

pub address_cmp-IsLawful : IsLawful address_cmp
address_cmp-IsLawful = key-IsLawful address_key text_cmp-IsLawful

address_of_key : (a b : IpAddr) → address_key a ≡ address_key b → a ≡ b
address_of_key (v4 a) (v4 b) h = ground (arith, h)
address_of_key (v4 a) (v6 b) h = ground (arith, h)
address_of_key (v6 a) (v4 b) h = ground (arith, h)
address_of_key (v6 a) (v6 b) h = ground (arith, h)

pub eq_of_address_cmp : (a b : IpAddr) → address_cmp a b ≡ Ordering.eq → a ≡ b
eq_of_address_cmp a b h = address_of_key a b (eq_of_text_cmp (address_key a) (address_key b) h)

-- Strictly ascending: in order, and no address twice.
abbrev pub IsStrict : List IpAddr → Type 0
IsStrict [] = Unit
IsStrict (a ∷ rest) = All (λ b. address_cmp a b ≡ Ordering.lt) rest × IsStrict rest

All-dedup_after :
    (P : IpAddr → Type 0) (a : IpAddr) (bs : List IpAddr) → All P bs → All P (dedup_after a bs)
All-dedup_after P a [] h = tt
All-dedup_after P a (b ∷ bs) h = ground (arith, All-dedup_after P b bs h.1)

dedup_after-IsStrict :
    (a : IpAddr) (bs : List IpAddr)
    → IsSorted address_cmp (a ∷ bs)
    → IsStrict (a ∷ dedup_after a bs)
dedup_after-IsStrict a [] h = (tt, tt)
dedup_after-IsStrict a (b ∷ bs) h =
    let (later, strict) = dedup_after-IsStrict b bs h.1 in
    elim (Ordering-cases (address_cmp a b)) [
      | inl below ↦ rw below (
        (below, All-map (λ c. address_cmp-IsLawful.lt_trans a b c below) (dedup_after b bs) later),
        (later, strict),
      )
      | inr (inl same) ↦ rw same (
        All-map (λ c p. address_cmp-IsLawful.congruent a b c same ∙ p) (dedup_after b bs) later,
        strict,
      )
      | inr (inr above) ↦ absurd (h.0.0 above)
    ]

dedup-IsStrict : (l : List IpAddr) → IsSorted address_cmp l → IsStrict (dedup l)
dedup-IsStrict [] h = tt
dedup-IsStrict (a ∷ rest) h = dedup_after-IsStrict a rest h

pub address_set-IsStrict : (l : List IpAddr) → IsStrict (address_set l)
unfolding address_set
address_set-IsStrict l =
    dedup-IsStrict (sort_by address_cmp l) (sort_by-IsSorted address_cmp-IsLawful l)

All-dedup : (P : IpAddr → Type 0) (l : List IpAddr) → All P l → All P (dedup l)
All-dedup P [] h = tt
All-dedup P (a ∷ rest) h = (h.0, All-dedup_after P a rest h.1)

pub All-address_set : (P : IpAddr → Type 0) (l : List IpAddr) → All P l → All P (address_set l)
unfolding address_set
All-address_set P l h =
    All-dedup P (sort_by address_cmp l) (All-perm P (Perm.symm (sort_by-perm address_cmp l)) h)

sort_by-ne-nil : (l : List IpAddr) → l ≢ [] → sort_by address_cmp l ≢ []
sort_by-ne-nil [] h e = h refl
sort_by-ne-nil (a ∷ rest) h e =
    (All-perm (λ _. ⊥) (sort_by-perm address_cmp (a ∷ rest)) (subst (All (λ _. ⊥)) (sym e) tt)).0

dedup-ne-nil : (l : List IpAddr) → l ≢ [] → dedup l ≢ []
dedup-ne-nil [] h e = h refl
dedup-ne-nil (a ∷ rest) h e = cc

pub address_set-ne-nil : (l : List IpAddr) → l ≢ [] → address_set l ≢ []
unfolding address_set
address_set-ne-nil l h = dedup-ne-nil (sort_by address_cmp l) (sort_by-ne-nil l h)

IsSorted-IsStrict : (l : List IpAddr) → IsStrict l → IsSorted address_cmp l
IsSorted-IsStrict [] h = tt
IsSorted-IsStrict (a ∷ rest) h = (
  All-map (λ b (p : address_cmp a b ≡ Ordering.lt). ground arith) rest h.0,
  IsSorted-IsStrict rest h.1,
)

dedup_after-id : (a : IpAddr) (l : List IpAddr) → IsStrict (a ∷ l) → dedup_after a l ≡ l
dedup_after-id a [] h = refl
dedup_after-id a (b ∷ bs) h = rw h.0.0 (ap (λ l. b ∷ l) (dedup_after-id b bs h.1))

dedup-id : (l : List IpAddr) → IsStrict l → dedup l ≡ l
dedup-id [] h = refl
dedup-id (a ∷ rest) h = ap (λ l. a ∷ l) (dedup_after-id a rest h)

-- A list of addresses as it is pinned is its own set.
pub address_set-id : (l : List IpAddr) → IsStrict l → address_set l ≡ l
unfolding address_set
address_set-id l h =
    ap dedup (sort_by_of_IsSorted address_cmp l (IsSorted-IsStrict l h)) ∙ dedup-id l h

pub eq_of_same_addresses : (l m : List IpAddr) → same_addresses l m ≡ true → l ≡ m
eq_of_same_addresses [] [] h = refl
eq_of_same_addresses [] (b ∷ bs) h = cc
eq_of_same_addresses (a ∷ rest) [] h = cc
eq_of_same_addresses (a ∷ rest) (b ∷ others) h =
    ground (arith, eq_of_address_cmp a b, eq_of_same_addresses rest others)
