-- ===== src/Network/Host/Patterns.antt =====
-- Which hosts the patterns of crates/audiodown-network-proxy/src/policy.rs match.
use audio_down_core.Base.{
  ℕ, suc, ◌+◌, ◌≡◌, ◌↔◌, refl, sym, ap, ◌∙◌, true, List, [], ◌∷◌, ◌++◌, length, nat_beq,
  if◌then◌else◌, inl, inr, Bool-cases, arith,
}
use audio_down_core.Base.Text.{Text, text_beq, text_beq_iff, IsFreeOf}
use audio_down_core.Network.Host.{wildcard, normalize_host, split, add_first, ends_with, matches}

-- How often a character occurs.
abbrev count : ℕ → Text → ℕ
count c [] = 0
count c (d ∷ ds) = let rest = count c ds in if nat_beq d c then suc rest else rest

length-add_first :
    (d : ℕ) (ts : List Text) (n : ℕ) → length ts ≡ suc n → length (add_first d ts) ≡ suc n
length-add_first d [] n h = ground (arith, h)
length-add_first d (t ∷ ts) n h = h

length-split : (c : ℕ) (t : Text) → length (split c t) ≡ suc (count c t)
length-split c [] = refl
length-split c (d ∷ ds) =
    ground
      (arith, length-split c ds, length-add_first d (split c ds) (count c ds) (length-split c ds))

count-append : (c : ℕ) (s t : Text) → count c (s ++ t) ≡ count c s + count c t
count-append c [] t = omega arith
count-append c (d ∷ ds) t = ground (arith, count-append c ds t)

count_iff : (c : ℕ) (t : Text) → (count c t ≡ 0) ↔ IsFreeOf c t
count_iff c [] = ground arith
count_iff c (d ∷ ds) = ground (arith, count_iff c ds)

ends_with_sound : (s t : Text) → ends_with s t ≡ true → (front : Text) × (t ≡ front ++ s)
ends_with_sound [] [] h = ([], refl)
ends_with_sound (c ∷ s) [] h = cc
ends_with_sound s (d ∷ ds) h = elim (Bool-cases (text_beq s (d ∷ ds))) [
  | inl whole ↦ ([], sym ((text_beq_iff s (d ∷ ds)).0 whole))
  | inr part ↦
      let (front, e) = ends_with_sound s ds (ground arith) in (d ∷ front, ap (λ t. d ∷ t) e)
]

text_beq_refl : (s : Text) → text_beq s s ≡ true
text_beq_refl s = (text_beq_iff s s).1 refl

ends_with-append : (front s : Text) → ends_with s (front ++ s) ≡ true
ends_with-append [] [] = refl
ends_with-append [] (c ∷ s) = ground (arith, text_beq_refl (c ∷ s))
ends_with-append (d ∷ front) s = ground (arith, ends_with-append front s)

-- A wildcard pattern `*.suffix` matches exactly the hosts that are, lower-cased and without dots at the
-- end, one label without a dot in front of `.suffix`: neither the suffix itself nor a host with more
-- labels.
pub matches-wildcard_iff :
    (suffix host : Text)
    → (matches (wildcard suffix (length (split b'.' suffix))) host ≡ true)
      ↔ ((label : Text) × IsFreeOf b'.' label × (normalize_host host ≡ label ++ b'.' ∷ suffix))
unfolding matches
matches-wildcard_iff suffix host = (
  λ h.
      let (label, e) = ends_with_sound (b'.' ∷ suffix) (normalize_host host) (ground arith) in
      let counted : count b'.' (normalize_host host) ≡ suc (count b'.' suffix) =
        ground (arith, length-split b'.' (normalize_host host), length-split b'.' suffix) in
      let parts : count b'.' (normalize_host host) ≡ count b'.' label + suc (count b'.' suffix) =
        ap (count b'.') e ∙ count-append b'.' label (b'.' ∷ suffix) in
      (label, (count_iff b'.' label).0 (omega (arith, counted, parts)), e),
  λ (label, free, e).
      let parts : count b'.' (normalize_host host) ≡ count b'.' label + suc (count b'.' suffix) =
        ap (count b'.') e ∙ count-append b'.' label (b'.' ∷ suffix) in
      let none : count b'.' label ≡ 0 = (count_iff b'.' label).1 free in
      let ends : ends_with (b'.' ∷ suffix) (normalize_host host) ≡ true =
        rw e (ends_with-append label (b'.' ∷ suffix)) in
      ground (
        arith,
        ends,
        parts,
        none,
        length-split b'.' (normalize_host host),
        length-split b'.' suffix,
      ),
)
