-- ===== src/Base/Text.antt =====
-- The text of a Rust `str`, as the list of its Unicode scalar values. Byte lengths and the order of
-- texts are those of the UTF-8 encoding: `byte_len` adds up the widths, and the order of encodings
-- is the order of scalar values. A test on every byte that only ASCII passes is the same test on
-- every scalar value.
use Prim.Native.Nat.{ℕ, ◌+◌, compare, Ordering}
use Prim.Native.Char.{code}
use Prim.Native.String.{String}
use mathlib.Core.Path.{◌≡◌, refl}
use mathlib.Core.Logic.{◌↔◌, ◌≢◌}
use mathlib.Core.Bool.{Bool, true, false, ◌&&◌, ◌||◌}
use mathlib.Core.List.{List, [], ◌∷◌}
use native.Mathlib.Omega.{arith}
use audio_down_core.Base.Tests.{ltb, leb, nat_beq, Eq, if◌then◌else◌}
use audio_down_core.Base.Lists.{all, any, All, all_iff}
use audio_down_core.Base.Order.{IsLawful, ◌then_with◌, is_eq}

abbrev pub Text : Type 0
Text = List ℕ

abbrev pub text : String → Text
text String.[] = []
text (String.◌∷◌ c s) = code c ∷ text s

-- `char::len_utf8`.
abbrev pub utf8_width : ℕ → ℕ
utf8_width c = if ltb c 0x80 then 1 else if ltb c 0x800 then 2 else if ltb c 0x10000 then 3 else 4

-- `str::len`.
abbrev pub byte_len : Text → ℕ
byte_len [] = 0
byte_len (c ∷ cs) = utf8_width c + byte_len cs

-- `char::is_whitespace`: the Unicode property White_Space.
abbrev pub is_whitespace : ℕ → Bool
is_whitespace c =
    (leb 9 c && leb c 13)
    || nat_beq c 32
    || nat_beq c 0x85
    || nat_beq c 0xa0
    || nat_beq c 0x1680
    || (leb 0x2000 c && leb c 0x200a)
    || nat_beq c 0x2028
    || nat_beq c 0x2029
    || nat_beq c 0x202f
    || nat_beq c 0x205f
    || nat_beq c 0x3000

-- `s.trim().is_empty()`.
unfoldable pub trims_to_empty : Text → Bool
trims_to_empty s = all is_whitespace s

abbrev pub is_ascii_lowercase : ℕ → Bool
is_ascii_lowercase c = leb b'a' c && leb c b'z'

abbrev pub is_ascii_digit : ℕ → Bool
is_ascii_digit c = leb b'0' c && leb c b'9'

-- `s.contains(c)` for a character.
abbrev pub contains_char : ℕ → Text → Bool
contains_char c s = any (nat_beq c) s

unfoldable pub text_beq : Text → Text → Bool
text_beq [] [] = true
text_beq (c ∷ cs) (d ∷ ds) = nat_beq c d && text_beq cs ds
text_beq _ _ = false

pub text_beq_iff : (s t : Text) → (text_beq s t ≡ true) ↔ (s ≡ t)
unfolding text_beq
text_beq_iff [] [] = ground arith
text_beq_iff [] (d ∷ ds) = ground arith
text_beq_iff (c ∷ cs) [] = ground arith
text_beq_iff (c ∷ cs) (d ∷ ds) = ground (arith, text_beq_iff cs ds)

instance abbrev pub text_eq : Eq Text
text_eq = record { beq = text_beq; beq_iff = text_beq_iff }

-- `str::cmp`.
unfoldable pub text_cmp : Text → Text → Ordering
text_cmp [] [] = Ordering.eq
text_cmp [] (d ∷ ds) = Ordering.lt
text_cmp (c ∷ cs) [] = Ordering.gt
text_cmp (c ∷ cs) (d ∷ ds) = compare c d then_with text_cmp cs ds

text_cmp-swap : (s t : Text) → text_cmp t s ≡ audio_down_core.Base.Order.swap (text_cmp s t)
unfolding text_cmp
text_cmp-swap [] [] = refl
text_cmp-swap [] (d ∷ ds) = refl
text_cmp-swap (c ∷ cs) [] = refl
text_cmp-swap (c ∷ cs) (d ∷ ds) = ground (arith, text_cmp-swap cs ds)

pub eq_of_text_cmp : (s t : Text) → text_cmp s t ≡ Ordering.eq → s ≡ t
unfolding text_cmp
eq_of_text_cmp [] [] h = refl
eq_of_text_cmp [] (d ∷ ds) h = cc
eq_of_text_cmp (c ∷ cs) [] h = cc
eq_of_text_cmp (c ∷ cs) (d ∷ ds) h = ground (arith, eq_of_text_cmp cs ds)

text_cmp_lt_trans :
    (s t u : Text)
    → text_cmp s t ≡ Ordering.lt
    → text_cmp t u ≡ Ordering.lt
    → text_cmp s u ≡ Ordering.lt
unfolding text_cmp
text_cmp_lt_trans [] [] [] h k = cc
text_cmp_lt_trans [] (d ∷ ds) [] h k = cc
text_cmp_lt_trans [] t (e ∷ es) h k = refl
text_cmp_lt_trans (c ∷ cs) (d ∷ ds) (e ∷ es) h k = ground (arith, text_cmp_lt_trans cs ds es)
text_cmp_lt_trans (c ∷ cs) t u h k = cc

pub text_cmp-IsLawful : IsLawful text_cmp
text_cmp-IsLawful = record {
  swapped = text_cmp-swap;
  congruent = λ s t u h. ground (arith, eq_of_text_cmp s t);
  lt_trans = text_cmp_lt_trans;
}

abbrev pub IsBlank : Text → Type 0
IsBlank s = All (λ c. is_whitespace c ≡ true) s

pub trims_to_empty_iff : (s : Text) → (trims_to_empty s ≡ true) ↔ IsBlank s
unfolding trims_to_empty
trims_to_empty_iff s = all_iff is_whitespace s

-- No character of the text is `c`.
abbrev pub IsFreeOf : ℕ → Text → Type 0
IsFreeOf c s = All (λ d. d ≢ c) s

pub contains_char_iff : (c : ℕ) (s : Text) → (contains_char c s ≡ false) ↔ IsFreeOf c s
contains_char_iff c [] = ground arith
contains_char_iff c (d ∷ s) = ground (arith, contains_char_iff c s)
