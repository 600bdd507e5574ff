-- ===== src/Network/Host.antt =====
-- crates/audiodown-network-proxy/src/policy.rs: host names, and the patterns that a manifest allows.
pub mod Patterns
pub mod Listed
use audio_down_core.Base.{
  ℕ, suc, ◌+◌, ◌*◌, ◌-◌, ◌≡◌, ◌≤◌, Bool, true, false, not, ◌&&◌, ◌||◌, Option, none, some, List, [],
  ◌∷◌, ◌++◌, map, length, is_empty, all, any, ltb, leb, nat_beq, if◌then◌else◌, ◌==◌,
}
use audio_down_core.Base.Text.{
  Text, text, byte_len, is_ascii_lowercase, is_ascii_digit, contains_char, text_beq, text_eq,
}

-- `str::trim_end_matches(c)`.
abbrev pub trim_end : ℕ → Text → Text
trim_end c [] = []
trim_end c (d ∷ ds) =
    let rest = trim_end c ds in if is_empty rest && nat_beq d c then [] else d ∷ rest

-- `char::to_ascii_lowercase`.
abbrev pub lower : ℕ → ℕ
lower c = if leb b'A' c && leb c b'Z' then c + 32 else c

unfoldable pub normalize_host : Text → Text
normalize_host host = map lower (trim_end b'.' host)

abbrev pub add_first : ℕ → List Text → List Text
add_first c [] = (c ∷ []) ∷ []
add_first c (t ∷ ts) = (c ∷ t) ∷ ts

-- `str::split(c)`.
abbrev pub split : ℕ → Text → List Text
split c [] = [] ∷ []
split c (d ∷ ds) = let rest = split c ds in if nat_beq d c then [] ∷ rest else add_first d rest

abbrev starts_with_char : ℕ → Text → Bool
starts_with_char c [] = false
starts_with_char c (d ∷ ds) = nat_beq d c

abbrev ends_with_char : ℕ → Text → Bool
ends_with_char c [] = false
ends_with_char c (d ∷ ds) =
    let rest = ends_with_char c ds in if is_empty ds then nat_beq d c else rest

-- `str::ends_with(suffix)`.
abbrev pub ends_with : Text → Text → Bool
ends_with suffix [] = is_empty suffix
ends_with suffix (d ∷ ds) = text_beq suffix (d ∷ ds) || ends_with suffix ds

unfoldable pub valid_label : Text → Bool
valid_label label =
    not (is_empty label)
    && leb (byte_len label) 63
    && not (starts_with_char b'-' label)
    && not (ends_with_char b'-' label)
    && all (λ c. is_ascii_lowercase c || is_ascii_digit c || nat_beq c b'-') label

abbrev decimal : ℕ → Text → ℕ
decimal n [] = n
decimal n (c ∷ cs) = decimal (n * 10 + (c - b'0')) cs

-- One to three digits, no leading zero, at most 255.
abbrev is_octet : Text → Bool
is_octet part =
    not (is_empty part)
    && leb (length part) 3
    && all is_ascii_digit part
    && (leb (length part) 1 || not (starts_with_char b'0' part))
    && leb (decimal 0 part) 255

-- `host.parse::<Ipv4Addr>().is_ok()`.
abbrev is_ipv4 : Text → Bool
is_ipv4 host = nat_beq (length (split b'.' host)) 4 && all is_octet (split b'.' host)

-- The source asks whether the host is an address of either version. One of version 6 has a colon,
-- which no label may have, so that it is refused by the labels and its parser is not needed.
unfoldable pub valid_hostname : Text → Bool
unfolding valid_label
valid_hostname host =
    if is_empty host || ltb 253 (byte_len host) || is_ipv4 host
    then false
    else all valid_label (split b'.' host)

pub data HostPattern : Type 0 where
  exact : Text → HostPattern
  wildcard : Text → ℕ → HostPattern
  invalid : HostPattern

-- `pattern.strip_prefix("*.")`.
abbrev pub wildcard_suffix : Text → Option Text
wildcard_suffix (c ∷ d ∷ rest) = if nat_beq c b'*' && nat_beq d b'.' then some rest else none
wildcard_suffix _ = none

-- `HostPattern::parse` after its normalisation.
abbrev pub pattern_of : Text → HostPattern
unfolding valid_hostname
pattern_of pattern =
    if is_empty pattern || contains_char b'/' pattern || contains_char b':' pattern
    then invalid
    else elim (wildcard_suffix pattern) [
      | some suffix ↦
          if valid_hostname suffix then wildcard suffix (length (split b'.' suffix)) else invalid
      | none ↦ if valid_hostname pattern then exact pattern else invalid
    ]

unfoldable pub parse_pattern : Text → HostPattern
unfolding normalize_host pattern_of
parse_pattern pattern = pattern_of (normalize_host pattern)

-- `HostPattern::matches`.
unfoldable pub matches : HostPattern → Text → Bool
unfolding normalize_host
matches (exact pattern) host = normalize_host host == pattern
matches (wildcard suffix suffix_labels) host =
    ends_with (b'.' ∷ suffix) (normalize_host host)
    && nat_beq (length (split b'.' (normalize_host host))) (suffix_labels + 1)
matches invalid host = false

-- `AllowedHosts`: the patterns of a manifest.
unfoldable pub from_manifest : List Text → List HostPattern
unfolding parse_pattern
from_manifest allowed_hosts = map parse_pattern allowed_hosts

unfoldable pub allows : List HostPattern → Text → Bool
unfolding matches
allows patterns host = any (λ pattern. matches pattern host) patterns
