-- ===== src/Base/Order.antt =====
-- Comparisons in the manner of `Ord::cmp`: the order of numbers, of Booleans, of signed integers,
-- chains by `then_with`, reversal and comparison by a key; the laws that make a comparison usable
-- for sorting are closed under all of these.
use Prim.Native.Nat.{compare, Ordering}
use mathlib.Core.Path.{◌≡◌, refl}
use mathlib.Core.Logic.{◌≢◌, ◌⊎◌, inl, inr}
use mathlib.Core.Bool.{Bool, true, false}
use native.Mathlib.Omega.{arith}

-- `Ordering::reverse` and `Ordering::then_with`.
abbrev pub swap : Ordering → Ordering
swap Ordering.lt = Ordering.gt
swap Ordering.eq = Ordering.eq
swap Ordering.gt = Ordering.lt

infixr 30 ◌then_with◌
abbrev pub ◌then_with◌ : Ordering → Ordering → Ordering
Ordering.lt then_with o = Ordering.lt
Ordering.eq then_with o = o
Ordering.gt then_with o = Ordering.gt

abbrev pub is_gt : Ordering → Bool
is_gt Ordering.gt = true
is_gt _ = false

abbrev pub is_eq : Ordering → Bool
is_eq Ordering.eq = true
is_eq _ = false

abbrev pub is_lt : Ordering → Bool
is_lt Ordering.lt = true
is_lt _ = false

pub record IsLawful {ℓ} {A : Type ℓ} (cmp : A → A → Ordering) : Type ℓ where
  pub swapped : (a b : A) → cmp b a ≡ swap (cmp a b)
  pub congruent : (a b c : A) → cmp a b ≡ Ordering.eq → cmp a c ≡ cmp b c
  pub lt_trans : (a b c : A) → cmp a b ≡ Ordering.lt → cmp b c ≡ Ordering.lt → cmp a c ≡ Ordering.lt

module _ {ℓ} {A : Type ℓ} {cmp : A → A → Ordering} (lawful : IsLawful cmp) where
  pub cmp_refl : (a : A) → cmp a a ≡ Ordering.eq
  cmp_refl a = ground (arith, lawful.swapped a a)

  -- Two values in order, in the sense that a sort uses.
  pub le_trans : (a b c : A) → cmp a b ≢ Ordering.gt → cmp b c ≢ Ordering.gt → cmp a c ≢ Ordering.gt
  le_trans a b c h k = ground (
    arith,
    lawful.congruent a b c,
    lawful.congruent b c a,
    lawful.lt_trans a b c,
    lawful.swapped a b,
    lawful.swapped a c,
    lawful.swapped b c,
  )

pub nat_cmp-IsLawful : IsLawful compare
nat_cmp-IsLawful = record {
  swapped = λ a b. ground arith;
  congruent = λ a b c h. ground arith;
  lt_trans = λ a b c h k. ground arith;
}

-- `false < true`.
abbrev pub bool_cmp : Bool → Bool → Ordering
bool_cmp false true = Ordering.lt
bool_cmp true false = Ordering.gt
bool_cmp _ _ = Ordering.eq

pub bool_cmp-IsLawful : IsLawful bool_cmp
bool_cmp-IsLawful = record {
  swapped = λ a b. ground arith;
  congruent = λ a b c h. ground arith;
  lt_trans = λ a b c h k. ground arith;
}

module _ {ℓ} {A : Type ℓ} {f g : A → A → Ordering} where
  pub then-IsLawful : IsLawful f → IsLawful g → IsLawful (λ a b. f a b then_with g a b)
  then-IsLawful lf lg = record {
    swapped = λ a b. ground (arith, lf.swapped a b, lg.swapped a b);
    congruent = λ a b c h. ground (arith, lf.congruent a b c, lg.congruent a b c);
    lt_trans = λ a b c h k. ground (
      arith,
      lf.lt_trans a b c,
      lg.lt_trans a b c,
      lf.congruent a b c,
      lf.congruent b c a,
      lf.swapped a b,
      lf.swapped b c,
      lf.swapped a c,
    );
  }

module _ {ℓ} {A : Type ℓ} {f : A → A → Ordering} where
  pub reverse-IsLawful : IsLawful f → IsLawful (λ a b. f b a)
  reverse-IsLawful lf = record {
    swapped = λ a b. lf.swapped b a;
    congruent = λ a b c h.
        ground (arith, lf.congruent a b c, lf.swapped a b, lf.swapped a c, lf.swapped b c);
    lt_trans = λ a b c h k. lf.lt_trans c b a k h;
  }

  pub key-IsLawful {κ} :
      {B : Type κ} (key : B → A) → IsLawful f → IsLawful (λ a b. f (key a) (key b))
  key-IsLawful key lf = record {
    swapped = λ a b. lf.swapped (key a) (key b);
    congruent = λ a b c. lf.congruent (key a) (key b) (key c);
    lt_trans = λ a b c. lf.lt_trans (key a) (key b) (key c);
  }

pub Ordering-cases : (o : Ordering) → (o ≡ Ordering.lt) ⊎ ((o ≡ Ordering.eq) ⊎ (o ≡ Ordering.gt))
Ordering-cases Ordering.lt = inl refl
Ordering-cases Ordering.eq = inr (inl refl)
Ordering-cases Ordering.gt = inr (inr refl)
