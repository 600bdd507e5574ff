-- ===== src/Base/Lists.antt =====
-- Lists measured by native numbers and filtered by Boolean tests, as the source's slices and
-- iterators are.
use Prim.Native.Nat.{ℕ, suc, ◌+◌, ◌≤◌}
use mathlib.Core.Path.{◌≡◌, refl, ap}
use mathlib.Core.Logic.{◌↔◌, ◌≢◌}
use mathlib.Core.Bool.{Bool, true, false, ◌&&◌, ◌||◌}
use mathlib.Core.List.{List, [], ◌∷◌, ◌++◌}
use mathlib.Core.Option.{Option, none, some}
use native.Mathlib.Omega.{arith}
use audio_down_core.Base.Tests.{if◌then◌else◌, true_of_and}

module _ {ℓ} {A : Type ℓ} where
  abbrev pub length : List A → ℕ
  length [] = 0
  length (x ∷ xs) = suc (length xs)

  abbrev pub is_empty : List A → Bool
  is_empty [] = true
  is_empty (x ∷ xs) = false

  -- `Iterator::filter`, `Vec::retain`.
  abbrev pub filter : (A → Bool) → List A → List A
  filter p [] = []
  filter p (x ∷ xs) = let rest = filter p xs in if p x then x ∷ rest else rest

  -- `Iterator::any`, `Iterator::all`, `Iterator::find`.
  abbrev pub any : (A → Bool) → List A → Bool
  any p [] = false
  any p (x ∷ xs) = p x || any p xs

  abbrev pub all : (A → Bool) → List A → Bool
  all p [] = true
  all p (x ∷ xs) = p x && all p xs

  abbrev pub find : (A → Bool) → List A → Option A
  find p [] = none
  find p (x ∷ xs) = if p x then some x else find p xs

  -- `flatten` of a list of lists.
  abbrev pub concat : List (List A) → List A
  concat [] = []
  concat (xs ∷ xss) = xs ++ concat xss

  pub length-append : (xs ys : List A) → length (xs ++ ys) ≡ length xs + length ys
  length-append [] ys = omega arith
  length-append (x ∷ xs) ys = omega (arith, length-append xs ys)

  pub length-filter : (p : A → Bool) (xs : List A) → length (filter p xs) ≤ length xs
  length-filter p [] = omega arith
  length-filter p (x ∷ xs) = ground (arith, length-filter p xs)

module _ {ℓ κ} {A : Type ℓ} where
  -- The predicate on every element, which computes to a tuple.
  abbrev pub All : (A → Type κ) → List A → Type κ
  All P [] = Unit
  All P (x ∷ xs) = P x × All P xs

module _ {ℓ κ} {A : Type ℓ} (P : A → Type κ) where
  pub All-append : (xs ys : List A) → All P xs → All P ys → All P (xs ++ ys)
  All-append [] ys hx hy = hy
  All-append (x ∷ xs) ys hx hy = (hx.0, All-append xs ys hx.1 hy)

  pub All-filter : (p : A → Bool) (xs : List A) → All P xs → All P (filter p xs)
  All-filter p [] h = tt
  All-filter p (x ∷ xs) h = ground (arith, All-filter p xs h.1)

module _ {ℓ κ μ} {A : Type ℓ} {P : A → Type κ} {Q : A → Type μ} where
  pub All-map : ((x : A) → P x → Q x) → (xs : List A) → All P xs → All Q xs
  All-map f [] h = tt
  All-map f (x ∷ xs) h = (f x h.0, All-map f xs h.1)

module _ {ℓ} {A : Type ℓ} where
  pub All-of_all : (p : A → Bool) (xs : List A) → all p xs ≡ true → All (λ x. p x ≡ true) xs
  All-of_all p [] h = tt
  All-of_all p (x ∷ xs) h =
      let (here, later) = true_of_and (p x) (all p xs) h in (here, All-of_all p xs later)

  pub All-filter_self : (p : A → Bool) (xs : List A) → All (λ x. p x ≡ true) (filter p xs)
  All-filter_self p [] = tt
  All-filter_self p (x ∷ xs) = ground (arith, All-filter_self p xs)

  pub all_iff : (p : A → Bool) (xs : List A) → (all p xs ≡ true) ↔ All (λ x. p x ≡ true) xs
  all_iff p [] = ground arith
  all_iff p (x ∷ xs) = ground (arith, all_iff p xs)

  pub ne_nil_of_is_empty : (xs : List A) → is_empty xs ≡ false → xs ≢ []
  ne_nil_of_is_empty [] h = cc
  ne_nil_of_is_empty (x ∷ xs) h = λ e. cc

-- Two lists of one length, with related elements at each place.
abbrev pub Zip {ℓ κ} : {A : Type ℓ} {B : Type κ} → (A → B → Type 0) → List A → List B → Type 0
Zip R [] [] = Unit
Zip R [] (y ∷ ys) = ⊥
Zip R (x ∷ xs) [] = ⊥
Zip R (x ∷ xs) (y ∷ ys) = R x y × Zip R xs ys

pub Zip-map {ℓ κ} :
    {A : Type ℓ} {B : Type κ} (R S : A → B → Type 0)
    → ((a : A) (b : B) → R a b → S a b)
    → (xs : List A) (ys : List B) → Zip R xs ys
    → Zip S xs ys
Zip-map R S f [] [] h = tt
Zip-map R S f [] (y ∷ ys) h = absurd h
Zip-map R S f (x ∷ xs) [] h = absurd h
Zip-map R S f (x ∷ xs) (y ∷ ys) h = (f x y h.0, Zip-map R S f xs ys h.1)

pub Zip-compose {ℓ κ μ} :
    {A : Type ℓ} {B : Type κ} {C : Type μ} (R : A → B → Type 0) (S : B → C → Type 0)
    (T : A → C → Type 0)
    → ((a : A) (b : B) (c : C) → R a b → S b c → T a c)
    → (xs : List A) (ys : List B) (zs : List C) → Zip R xs ys
    → Zip S ys zs
    → Zip T xs zs
Zip-compose R S T f [] [] [] h k = tt
Zip-compose R S T f [] [] (z ∷ zs) h k = absurd k
Zip-compose R S T f [] (y ∷ ys) zs h k = absurd h
Zip-compose R S T f (x ∷ xs) [] zs h k = absurd h
Zip-compose R S T f (x ∷ xs) (y ∷ ys) [] h k = absurd k
Zip-compose R S T f (x ∷ xs) (y ∷ ys) (z ∷ zs) h k =
    (f x y z h.0 k.0, Zip-compose R S T f xs ys zs h.1 k.1)

pub length-Zip {ℓ κ} :
    {A : Type ℓ} {B : Type κ} (R : A → B → Type 0) (xs : List A) (ys : List B)
    → Zip R xs ys
    → length xs ≡ length ys
length-Zip R [] [] h = refl
length-Zip R [] (y ∷ ys) h = absurd h
length-Zip R (x ∷ xs) [] h = absurd h
length-Zip R (x ∷ xs) (y ∷ ys) h = ap suc (length-Zip R xs ys h.1)
