-- ===== src/Network/Address/Blocks.antt =====
-- The addresses of version 4 that crates/audiodown-network-proxy/src/policy.rs refuses, as blocks.
use audio_down_core.Base.{
  ℕ, ◌+◌, ◌*◌, ◌<◌, ◌≡◌, ap, Bool, true, false, not, ◌&&◌, ◌||◌, List, [], ◌∷◌, any, leb, ltb,
  nat_beq, arith,
}
use audio_down_core.Network.Address.{Ipv4Addr, is_unspecified, is_broadcast, is_global_ipv4}

-- The address as a number of 32 bits.
abbrev pub value : Ipv4Addr → ℕ
value a = ((a.o₀ * 256 + a.o₁) * 256 + a.o₂) * 256 + a.o₃

-- A block: its first address and how many there are.
abbrev pub block : ℕ → ℕ → ℕ → ℕ → ℕ × ℕ
block a b c size = (((a * 256 + b) * 256 + c) * 256, size)

abbrev pub reserved : List (ℕ × ℕ)
reserved =
    block 0 0 0 0x1000000
    ∷ block 10 0 0 0x1000000
    ∷ block 100 64 0 0x400000
    ∷ block 127 0 0 0x1000000
    ∷ block 169 254 0 0x10000
    ∷ block 172 16 0 0x100000
    ∷ block 192 0 0 256
    ∷ block 192 0 2 256
    ∷ block 192 168 0 0x10000
    ∷ block 198 18 0 0x20000
    ∷ block 198 51 100 256
    ∷ block 203 0 113 256
    ∷ block 224 0 0 0x10000000
    ∷ block 240 0 0 0x10000000
    ∷ []

abbrev pub is_within : ℕ → ℕ × ℕ → Bool
is_within v b = leb b.0 v && ltb v (b.0 + b.1)

-- The two orders in which the tests are joined.
same_tests :
    (w l p q r t m b z e c n k x y d f : Bool)
    → (w || z) ≡ z
    → (b || e) ≡ e
    → (w
        || l
        || (p || q || r)
        || t
        || m
        || b
        || z
        || e
        || l
        || c
        || t
        || n
        || k
        || x
        || y
        || d
        || f)
      ≡ (z
          || (p
              || (c
                  || (l
                      || (t
                          || (q
                              || (n
                                  || (k
                                      || (r
                                          || ((x || y)
                                              || (d || (f || (m || (e || false))))))))))))))
same_tests true l p q r t m b z e c n k x y d f h g = ground (arith, h, g)
same_tests false true p q r t m b z e c n k x y d f h g = ground (arith, h, g)
same_tests false false p q r t m b z e c n k x y d f h g = ground (arith, h, g)

module _ (a : Ipv4Addr) (h₀ : a.o₀ < 256) (h₁ : a.o₁ < 256) (h₂ : a.o₂ < 256)
    (h₃ : a.o₃ < 256) where
  within_0 : is_within (value a) (block 0 0 0 0x1000000) ≡ (nat_beq a.o₀ 0)
  within_0 = ground arith

  within_10 : is_within (value a) (block 10 0 0 0x1000000) ≡ (nat_beq a.o₀ 10)
  within_10 = ground arith

  within_100 :
      is_within (value a) (block 100 64 0 0x400000)
      ≡ (nat_beq a.o₀ 100 && leb 64 a.o₁ && leb a.o₁ 127)
  within_100 = ground arith

  within_127 : is_within (value a) (block 127 0 0 0x1000000) ≡ (nat_beq a.o₀ 127)
  within_127 = ground arith

  within_169 :
      is_within (value a) (block 169 254 0 0x10000) ≡ (nat_beq a.o₀ 169 && nat_beq a.o₁ 254)
  within_169 = ground arith

  within_172 :
      is_within (value a) (block 172 16 0 0x100000)
      ≡ (nat_beq a.o₀ 172 && leb 16 a.o₁ && leb a.o₁ 31)
  within_172 = ground arith

  within_192_0_0 :
      is_within (value a) (block 192 0 0 256)
      ≡ (nat_beq a.o₀ 192 && nat_beq a.o₁ 0 && nat_beq a.o₂ 0)
  within_192_0_0 = ground arith

  within_192_0_2 :
      is_within (value a) (block 192 0 2 256)
      ≡ (nat_beq a.o₀ 192 && nat_beq a.o₁ 0 && nat_beq a.o₂ 2)
  within_192_0_2 = ground arith

  within_192_168 :
      is_within (value a) (block 192 168 0 0x10000) ≡ (nat_beq a.o₀ 192 && nat_beq a.o₁ 168)
  within_192_168 = ground arith

  within_198_18 :
      is_within (value a) (block 198 18 0 0x20000)
      ≡ ((nat_beq a.o₀ 198 && nat_beq a.o₁ 18) || (nat_beq a.o₀ 198 && nat_beq a.o₁ 19))
  within_198_18 = ground arith

  within_198_51 :
      is_within (value a) (block 198 51 100 256)
      ≡ (nat_beq a.o₀ 198 && nat_beq a.o₁ 51 && nat_beq a.o₂ 100)
  within_198_51 = ground arith

  within_203 :
      is_within (value a) (block 203 0 113 256)
      ≡ (nat_beq a.o₀ 203 && nat_beq a.o₁ 0 && nat_beq a.o₂ 113)
  within_203 = ground arith

  within_224 : is_within (value a) (block 224 0 0 0x10000000) ≡ (leb 224 a.o₀ && leb a.o₀ 239)
  within_224 = ground arith

  within_240 : is_within (value a) (block 240 0 0 0x10000000) ≡ (leb 240 a.o₀)
  within_240 = ground arith

  -- An address of four octets is global exactly when it lies in none of the blocks 0/8, 10/8,
  -- 100.64/10, 127/8, 169.254/16, 172.16/12, 192.0.0/24, 192.0.2/24, 192.168/16, 198.18/15,
  -- 198.51.100/24, 203.0.113/24, 224/4 and 240/4.
  pub is_global_ipv4-eq-blocks : is_global_ipv4 a ≡ not (any (is_within (value a)) reserved)
  unfolding is_global_ipv4
  is_global_ipv4-eq-blocks =
      rw
        (
          within_0, within_10, within_100, within_127, within_169, within_172, within_192_0_0,
          within_192_0_2, within_192_168, within_198_18, within_198_51, within_203, within_224,
          within_240,
        )
        (ap not (
          same_tests (is_unspecified a) (nat_beq a.o₀ 127) (nat_beq a.o₀ 10)
            (nat_beq a.o₀ 172 && leb 16 a.o₁ && leb a.o₁ 31) (nat_beq a.o₀ 192 && nat_beq a.o₁ 168)
            (nat_beq a.o₀ 169 && nat_beq a.o₁ 254) (leb 224 a.o₀ && leb a.o₀ 239) (is_broadcast a)
            (nat_beq a.o₀ 0) (leb 240 a.o₀) (nat_beq a.o₀ 100 && leb 64 a.o₁ && leb a.o₁ 127)
            (nat_beq a.o₀ 192 && nat_beq a.o₁ 0 && nat_beq a.o₂ 0)
            (nat_beq a.o₀ 192 && nat_beq a.o₁ 0 && nat_beq a.o₂ 2)
            (nat_beq a.o₀ 198 && nat_beq a.o₁ 18) (nat_beq a.o₀ 198 && nat_beq a.o₁ 19)
            (nat_beq a.o₀ 198 && nat_beq a.o₁ 51 && nat_beq a.o₂ 100)
            (nat_beq a.o₀ 203 && nat_beq a.o₁ 0 && nat_beq a.o₂ 113) (ground arith) (ground arith)))
