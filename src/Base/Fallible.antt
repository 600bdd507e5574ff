-- ===== src/Base/Fallible.antt =====
-- Rust's `Result`, with the monad that `?` is.
use mathlib.Core.Path.{◌≡◌, refl}
use audio_down_core.Base.Lists.{All, Zip}
use native.Mathlib.Omega.{arith}
use mathlib.Core.Logic.{◌↔◌, ◌⊎◌, inl, inr}
use mathlib.Core.Bool.{Bool, true, false}
use mathlib.Core.Option.{Option, none, some}
use mathlib.Core.List.{List, [], ◌∷◌}

pub data Result {ℓ} (A E : Type ℓ) : Type ℓ where
  ok : A → Result A E
  err : E → Result A E

infixl 5 ◌>>=◌
abbrev pub ◌>>=◌ {ℓ} : {A B E : Type ℓ} → Result A E → (A → Result B E) → Result B E
ok value >>= next = next value
err cause >>= next = err cause

module _ {ℓ} {A B E : Type ℓ} where
  infixr 6 ◌>>◌
  -- A check, and what follows it.
  abbrev pub ◌>>◌ : Result A E → Result B E → Result B E
  check >> later = check >>= λ _. later

module _ {ℓ} {A B E : Type ℓ} where
  abbrev pub map_ok : (A → B) → Result A E → Result B E
  map_ok f (ok a) = ok (f a)
  map_ok f (err e) = err e

  abbrev pub map_err : (E → B) → Result A E → Result A B
  map_err f (ok a) = ok a
  map_err f (err e) = err (f e)

  -- `for x in xs { f(x)?; }`.
  abbrev pub each : (A → Result B E) → List A → Result (Unit {ℓ}) E
  each f [] = ok tt
  each f (x ∷ xs) = f x >> each f xs

  -- `map(f).collect::<Result<Vec<_>, _>>()`.
  abbrev pub traverse : (A → Result B E) → List A → Result (List B) E
  traverse f [] = ok []
  traverse f (x ∷ xs) = f x >>= λ y. traverse f xs >>= λ ys. ok (y ∷ ys)

  pub >>=-eq-ok :
      (m : Result A E) (f : A → Result B E) {b : B}
      → (m >>= f) ≡ ok b
      → (a : A) × (m ≡ ok a) × (f a ≡ ok b)
  >>=-eq-ok (ok value) next h = (value, refl, h)
  >>=-eq-ok (err cause) next h = cc

module _ {ℓ} {A E : Type ℓ} where
  -- `Option::ok_or`.
  abbrev pub ok_or : E → Option A → Result A E
  ok_or e none = err e
  ok_or e (some a) = ok a

  -- `Result::ok`.
  abbrev pub ok? : Result A E → Option A
  ok? (ok a) = some a
  ok? (err e) = none

  pub Result-cases : (m : Result A E) → ((a : A) × (m ≡ ok a)) ⊎ ((e : E) × (m ≡ err e))
  Result-cases (ok a) = inl (a, refl)
  Result-cases (err e) = inr (e, refl)

-- `if b { return Err(e); }`.
abbrev pub fail_if {ℓ} : {E : Type ℓ} → Bool → E → Result (Unit {ℓ}) E
fail_if true e = err e
fail_if false e = ok tt

module _ {ℓ} {E : Type ℓ} where
  -- A chain of checks passes exactly when each of them does.
  pub >>-ok_iff :
      {m k : Result (Unit {ℓ}) E} {P Q : Type ℓ}
      → (m ≡ ok tt) ↔ P
      → (k ≡ ok tt) ↔ Q
      → ((m >> k) ≡ ok tt) ↔ (P × Q)
  >>-ok_iff {m = ok tt} p q = (λ h. (p.0 refl, q.0 h), λ h. q.1 h.1)
  >>-ok_iff {m = err e} p q = (λ h. cc, λ h. cc (p.1 h.0))

module _ {ℓ} {A E : Type ℓ} where
  pub each-ok_iff :
      {P : A → Type ℓ} (f : A → Result (Unit {ℓ}) E)
      → ((a : A) → (f a ≡ ok tt) ↔ P a)
      → (xs : List A) → (each f xs ≡ ok tt) ↔ All P xs
  each-ok_iff f h [] = (λ _. tt, λ _. refl)
  each-ok_iff f h (x ∷ xs) = >>-ok_iff (h x) (each-ok_iff f h xs)

pub fail_if_iff {ℓ} : {E : Type ℓ} (b : Bool) (e : E) → (fail_if b e ≡ ok tt) ↔ (b ≡ false)
fail_if_iff true e = (λ h. cc, λ h. cc)
fail_if_iff false e = (λ _. refl, λ _. refl)

-- Inversion of an early return and of `ok_or`, inside a chain.
module _ {ℓ} {B E : Type ℓ} where
  pub fail_if-bind :
      (b : Bool) (e : E) (k : Result B E) {r : B}
      → (fail_if b e >> k) ≡ ok r
      → (b ≡ false) × (k ≡ ok r)
  fail_if-bind true e k h = (cc, cc)
  fail_if-bind false e k h = (refl, h)

module _ {ℓ} {A B E : Type ℓ} where
  pub ok_or-bind :
      (o : Option A) (e : E) (f : A → Result B E) {r : B}
      → (ok_or e o >>= f) ≡ ok r
      → (a : A) × (o ≡ some a) × (f a ≡ ok r)
  ok_or-bind none e f h = cc
  ok_or-bind (some a) e f h = (a, refl, h)

-- A successful `collect` has the result of every element, in order.
pub traverse-Zip :
    {A B E : Type 0} (f : A → Result B E) (xs : List A) (ys : List B)
    → traverse f xs ≡ ok ys
    → Zip (λ x y. f x ≡ ok y) xs ys
traverse-Zip f [] [] h = tt
traverse-Zip f [] (y ∷ ys) h = absurd (cc)
traverse-Zip f (x ∷ xs) ys h = elim (Result-cases (f x)) [
  | inr (e, p) ↦ absurd (ground (arith, h, p))
  | inl (y, p) ↦ elim (Result-cases (traverse f xs)) [
    | inr (e, q) ↦ absurd (ground (arith, h, p, q))
    | inl (zs, q) ↦
        let whole : ys ≡ y ∷ zs = ground (arith, h, p, q) in rw whole (p, traverse-Zip f xs zs q)
  ]
]
