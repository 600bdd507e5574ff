-- ===== src/Network/Host/Listed.antt =====
-- Which hosts the patterns of a manifest allow, in crates/audiodown-network-proxy/src/policy.rs.
use mathlib.Core.List.{Memᴰ}
use audio_down_core.Base.{
  true, ◌≡◌, ◌⊎◌, inl, inr, refl, subst, some, List, [], ◌∷◌, ◌++◌, length, is_empty, ◌||◌,
  Bool-cases, Option-cases, arith,
}
use audio_down_core.Base.Text.{Text, text_beq_iff, text_eq, IsFreeOf, contains_char}
use audio_down_core.Network.Host.{
  exact, wildcard, invalid, normalize_host, valid_hostname, split, wildcard_suffix, pattern_of,
  parse_pattern, matches, from_manifest, allows,
}
use audio_down_core.Network.Host.Patterns.{matches-wildcard_iff}

-- The pattern is the host itself, or `*.` and a valid suffix of which the host is a subdomain by one
-- label; both after normalisation.
abbrev pub IsMatch : Text → Text → Type 0
IsMatch pattern host =
    (normalize_host host ≡ normalize_host pattern)
    ⊎ ((suffix : Text) × (label : Text) × (normalize_host pattern ≡ b'*' ∷ b'.' ∷ suffix)
        × (valid_hostname suffix ≡ true)
        × IsFreeOf b'.' label
        × (normalize_host host ≡ label ++ b'.' ∷ suffix))

wildcard_suffix-eq-some :
    (t suffix : Text) → wildcard_suffix t ≡ some suffix → t ≡ b'*' ∷ b'.' ∷ suffix
wildcard_suffix-eq-some [] suffix h = cc
wildcard_suffix-eq-some (c ∷ []) suffix h = cc
wildcard_suffix-eq-some (c ∷ d ∷ rest) suffix h = ground (arith, h)

-- The three results of parsing a pattern.
pattern_of-cases :
    (t : Text)
    → (pattern_of t ≡ invalid)
      ⊎ ((pattern_of t ≡ exact t)
          ⊎ ((suffix : Text) × (t ≡ b'*' ∷ b'.' ∷ suffix)
              × (valid_hostname suffix ≡ true)
              × (pattern_of t ≡ wildcard suffix (length (split b'.' suffix)))))
pattern_of-cases t =
    elim (Bool-cases (is_empty t || contains_char b'/' t || contains_char b':' t)) [
      | inl bad ↦ inl (unfold pattern_of in ground arith)
      | inr good ↦ elim (Option-cases (wildcard_suffix t)) [
        | inl plain ↦ elim (Bool-cases (valid_hostname t)) [
          | inl valid ↦ inr (inl (unfold pattern_of in ground arith))
          | inr wrong ↦ inl (unfold pattern_of in ground arith)
        ]
        | inr (suffix, starred) ↦ elim (Bool-cases (valid_hostname suffix)) [
          | inl valid ↦ inr (
              inr (
                suffix,
                wildcard_suffix-eq-some t suffix starred,
                valid,
                unfold pattern_of in ground arith,
              ))
          | inr wrong ↦ inl (unfold pattern_of in ground arith)
        ]
      ]
    ]

IsMatch-matches :
    (pattern host : Text) → matches (parse_pattern pattern) host ≡ true → IsMatch pattern host
unfolding parse_pattern
IsMatch-matches pattern host h = elim (pattern_of-cases (normalize_host pattern)) [
  | inl bad ↦ absurd (unfold matches in ground (arith, h, bad))
  | inr (inl same) ↦ inl (
      unfold matches in
      (text_beq_iff (normalize_host host) (normalize_host pattern)).0
        (subst (λ p. matches p host ≡ true) same h))
  | inr (inr (suffix, starred, valid, same)) ↦
      let (label, free, e) =
        (matches-wildcard_iff suffix host).0 (subst (λ p. matches p host ≡ true) same h) in
      inr (suffix, label, starred, valid, free, e)
]

-- A host is allowed only by a pattern of the manifest that, normalised, is the host itself, or is
-- `*.` and a valid host name of which the host is a subdomain by exactly one label.
pub allows-IsMatch :
    (hosts : List Text) (host : Text)
    → allows (from_manifest hosts) host ≡ true
    → (pattern : Text) × Memᴰ pattern hosts × IsMatch pattern host
unfolding allows from_manifest
allows-IsMatch [] host h = cc
allows-IsMatch (p ∷ rest) host h = elim (Bool-cases (matches (parse_pattern p) host)) [
  | inl here ↦ (p, Memᴰ.head refl, IsMatch-matches p host here)
  | inr missed ↦
      let (q, there, found) = allows-IsMatch rest host (ground arith) in (q, Memᴰ.tail there, found)
]
