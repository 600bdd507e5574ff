-- ===== src/Base/Membership.antt =====
-- Predicates on every element, and membership.
use mathlib.Core.Path.{◌≡◌, refl, sym, subst}
use mathlib.Core.Bool.{Bool}
use mathlib.Core.Option.{some}
use mathlib.Core.Logic.{inl, inr}
use mathlib.Core.List.{List, [], ◌∷◌, ◌++◌, map, Memᴰ}
use native.Mathlib.Omega.{arith}
use audio_down_core.Base.Tests.{Bool-cases}
use audio_down_core.Base.Lists.{All, All-map, concat, find, Zip}

module _ {ℓ κ} {A : Type ℓ} (P : A → Type κ) where
  pub All-mem : {x : A} {xs : List A} → Memᴰ x xs → All P xs → P x
  All-mem (Memᴰ.head e) h = subst P (sym e) h.0
  All-mem (Memᴰ.tail m) h = All-mem m h.1

module _ {ℓ κ} {A : Type ℓ} (P : A → Type κ) where
  pub All-append_parts : (xs ys : List A) → All P (xs ++ ys) → All P xs × All P ys
  All-append_parts [] ys h = (tt, h)
  All-append_parts (x ∷ xs) ys h = let (p, q) = All-append_parts xs ys h.1 in ((h.0, p), q)

  pub All-of_concat : (xss : List (List A)) → All P (concat xss) → All (All P) xss
  All-of_concat [] h = tt
  All-of_concat (xs ∷ xss) h =
      let (here, later) = All-append_parts xs (concat xss) h in (here, All-of_concat xss later)

  pub All-find : (p : A → Bool) (xs : List A) (x : A) → All P xs → find p xs ≡ some x → P x
  All-find p [] x h e = absurd (ground (arith, e))
  All-find p (y ∷ ys) x h e = elim (Bool-cases (p y)) [
    | inl found ↦ let same : y ≡ x = ground (arith, e) in subst P same h.0
    | inr missed ↦ All-find p ys x h.1 (ground (arith, e))
  ]

  pub All-map_list {μ} :
      {B : Type μ} (f : B → A) (xs : List B) → All (λ x. P (f x)) xs → All P (map f xs)
  All-map_list f [] h = tt
  All-map_list f (x ∷ xs) h = (h.0, All-map_list f xs h.1)

  pub All-Zip {μ} :
      {B : Type μ} (R : B → A → Type 0) (Q : B → Type κ)
      → ((b : B) (a : A) → Q b → R b a → P a)
      → (xs : List B) (ys : List A) → Zip R xs ys
      → All Q xs
      → All P ys
  All-Zip R Q f [] [] z h = tt
  All-Zip R Q f [] (y ∷ ys) z h = absurd z
  All-Zip R Q f (x ∷ xs) [] z h = tt
  All-Zip R Q f (x ∷ xs) (y ∷ ys) z h = (f x y h.0 z.0, All-Zip R Q f xs ys z.1 h.1)

pub All-members {ℓ} : {A : Type ℓ} (xs : List A) → All (λ x. Memᴰ x xs) xs
All-members [] = tt
All-members (x ∷ xs) = (Memᴰ.head refl, All-map (λ y m. Memᴰ.tail m) xs (All-members xs))

pub All-trivial {ℓ} : {A : Type ℓ} (xs : List A) → All (λ _. Unit {0}) xs
All-trivial [] = tt
All-trivial (x ∷ xs) = (tt, All-trivial xs)

module _ {ℓ} {A : Type ℓ} {P Q R : A → Type 0} where
  pub All-both : ((x : A) → P x → Q x → R x) → (xs : List A) → All P xs → All Q xs → All R xs
  All-both f [] h k = tt
  All-both f (x ∷ xs) h k = (f x h.0 k.0, All-both f xs h.1 k.1)
