-- ===== src/Network/Address.antt =====
-- crates/audiodown-network-proxy/src/policy.rs: the addresses that a request may go to, with the tests
-- of the standard library's `std::net` that the source calls.
pub mod Blocks
use Prim.Native.Nat.{Ordering}
use audio_down_core.Base.{
  ℕ, ◌+◌, ◌*◌, ◌/◌, ◌%◌, ◌≡◌, ◌<◌, ◌≤◌, Bool, true, false, not, ◌&&◌, ◌||◌, Option, none, some,
  List, [], ◌∷◌, leb, nat_beq,
}
use audio_down_core.Base.Text.{text_cmp}

pub record Ipv4Addr : Type 0 where
  pub o₀ : ℕ
  pub o₁ : ℕ
  pub o₂ : ℕ
  pub o₃ : ℕ

pub record Ipv6Addr : Type 0 where
  pub s₀ : ℕ
  pub s₁ : ℕ
  pub s₂ : ℕ
  pub s₃ : ℕ
  pub s₄ : ℕ
  pub s₅ : ℕ
  pub s₆ : ℕ
  pub s₇ : ℕ

pub data IpAddr : Type 0 where
  v4 : Ipv4Addr → IpAddr
  v6 : Ipv6Addr → IpAddr

abbrev is_private : Ipv4Addr → Bool
is_private a =
    nat_beq a.o₀ 10
    || (nat_beq a.o₀ 172 && leb 16 a.o₁ && leb a.o₁ 31)
    || (nat_beq a.o₀ 192 && nat_beq a.o₁ 168)

abbrev pub is_unspecified : Ipv4Addr → Bool
is_unspecified a = nat_beq a.o₀ 0 && nat_beq a.o₁ 0 && nat_beq a.o₂ 0 && nat_beq a.o₃ 0

abbrev pub is_broadcast : Ipv4Addr → Bool
is_broadcast a = nat_beq a.o₀ 255 && nat_beq a.o₁ 255 && nat_beq a.o₂ 255 && nat_beq a.o₃ 255

unfoldable pub is_global_ipv4 : Ipv4Addr → Bool
is_global_ipv4 a = not (
    is_unspecified a
    || nat_beq a.o₀ 127
    || is_private a
    || (nat_beq a.o₀ 169 && nat_beq a.o₁ 254)
    || (leb 224 a.o₀ && leb a.o₀ 239)
    || is_broadcast a
    || nat_beq a.o₀ 0
    || leb 240 a.o₀
    || nat_beq a.o₀ 127
    || (nat_beq a.o₀ 100 && leb 64 a.o₁ && leb a.o₁ 127)
    || (nat_beq a.o₀ 169 && nat_beq a.o₁ 254)
    || (nat_beq a.o₀ 192 && nat_beq a.o₁ 0 && nat_beq a.o₂ 0)
    || (nat_beq a.o₀ 192 && nat_beq a.o₁ 0 && nat_beq a.o₂ 2)
    || (nat_beq a.o₀ 198 && nat_beq a.o₁ 18)
    || (nat_beq a.o₀ 198 && nat_beq a.o₁ 19)
    || (nat_beq a.o₀ 198 && nat_beq a.o₁ 51 && nat_beq a.o₂ 100)
    || (nat_beq a.o₀ 203 && nat_beq a.o₁ 0 && nat_beq a.o₂ 113))

-- `Ipv6Addr::to_ipv4`: a compatible or a mapped address.
abbrev pub to_ipv4 : Ipv6Addr → Option Ipv4Addr
to_ipv4 a =
    elim (nat_beq a.s₀ 0
      && nat_beq a.s₁ 0
      && nat_beq a.s₂ 0
      && nat_beq a.s₃ 0
      && nat_beq a.s₄ 0
      && (nat_beq a.s₅ 0 || nat_beq a.s₅ 0xffff)) [
        | true ↦
            some (record { o₀ = a.s₆ / 256; o₁ = a.s₆ % 256; o₂ = a.s₇ / 256; o₃ = a.s₇ % 256 })
        | false ↦ none
      ]

-- The masks select bits of a 16-bit segment: `& 0xfe00` the seven highest, `& 0xf000` the four
-- highest, `& 0xe000` the three highest.
unfoldable pub is_global_segments : Ipv6Addr → Bool
is_global_segments a =
    nat_beq (a.s₀ / 0x2000 % 8) 1
    && not (
        (nat_beq a.s₀ 0x2001 && (nat_beq (a.s₁ / 0x200 % 0x80) 0 || nat_beq a.s₁ 0x0db8))
        || nat_beq a.s₀ 0x2002
        || (nat_beq a.s₀ 0x3fff && nat_beq (a.s₁ / 0x1000 % 16) 0))

unfoldable pub is_global_ipv6 : Ipv6Addr → Bool
unfolding is_global_ipv4 is_global_segments
is_global_ipv6 a = elim (to_ipv4 a) [ some b ↦ is_global_ipv4 b | none ↦ is_global_segments a ]

unfoldable pub is_global_address : IpAddr → Bool
unfolding is_global_ipv4 is_global_ipv6
is_global_address (v4 a) = is_global_ipv4 a
is_global_address (v6 a) = is_global_ipv6 a

-- `IpAddr::is_loopback`: 127.0.0.0/8 and ::1.
abbrev pub is_loopback : IpAddr → Bool
is_loopback (v4 a) = nat_beq a.o₀ 127
is_loopback (v6 a) =
    nat_beq a.s₀ 0
    && nat_beq a.s₁ 0
    && nat_beq a.s₂ 0
    && nat_beq a.s₃ 0
    && nat_beq a.s₄ 0
    && nat_beq a.s₅ 0
    && nat_beq a.s₆ 0
    && nat_beq a.s₇ 1

unfoldable pub is_fixture_address : IpAddr → Bool
unfolding is_global_address
is_fixture_address a = is_global_address a || is_loopback a

-- What the derived order of `IpAddr` compares: the version, then the octets or segments.
abbrev pub address_key : IpAddr → List ℕ
address_key (v4 a) = 4 ∷ a.o₀ ∷ a.o₁ ∷ a.o₂ ∷ a.o₃ ∷ []
address_key (v6 a) = 6 ∷ a.s₀ ∷ a.s₁ ∷ a.s₂ ∷ a.s₃ ∷ a.s₄ ∷ a.s₅ ∷ a.s₆ ∷ a.s₇ ∷ []

abbrev pub address_cmp : IpAddr → IpAddr → Ordering
address_cmp a b = text_cmp (address_key a) (address_key b)
