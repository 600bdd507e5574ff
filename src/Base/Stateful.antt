-- ===== src/Base/Stateful.antt =====
-- Methods on a shared state that may fail: the state comes back from a failure too, since what was
-- written stays written.
use audio_down_core.Base.Fallible.{Result, ok, err}
use audio_down_core.Base.Tests.{if◌then◌else◌}
use mathlib.Core.Bool.{Bool, true, false}
use mathlib.Core.Path.{◌≡◌, refl}

abbrev pub Method : Type 0 → Type 0 → Type 0 → Type 0
Method S E A = S → Result A E × S

module _ {S E A : Type 0} where
  abbrev pub pure : A → Method S E A
  pure a s = (ok a, s)

  abbrev pub fail : E → Method S E A
  fail e s = (err e, s)

  abbrev pub lift : Result A E → Method S E A
  lift r s = (r, s)

  abbrev pub gets : (S → A) → Method S E A
  gets f s = (ok (f s), s)

module _ {S E : Type 0} where
  abbrev pub modify : (S → S) → Method S E (Unit {0})
  modify f s = (ok tt, f s)

  abbrev pub fail_when : Bool → E → Method S E (Unit {0})
  fail_when b e s = (if b then err e else ok tt, s)

-- What follows on a method: the next one after a success, nothing after a failure.
abbrev pub resume : {S E A B : Type 0} → (A → Method S E B) → Result A E → Method S E B
resume f (ok a) s = f a s
resume f (err e) s = (err e, s)

infixl 5 ◌>>=◌
abbrev pub ◌>>=◌ : {S E A B : Type 0} → Method S E A → (A → Method S E B) → Method S E B
◌>>=◌ m f s = resume f (m s).0 (m s).1

infixl 5 ◌>>◌
abbrev pub ◌>>◌ : {S E A B : Type 0} → Method S E A → Method S E B → Method S E B
m >> k = m >>= λ _. k

-- Every state that the method leaves satisfies the predicate, if the first did.
abbrev pub Keeps : {S E A : Type 0} → (S → Type 0) → Method S E A → Type 0
Keeps {S} P m = (s : S) → P s → P (m s).1

module _ {S E A B : Type 0} (P : S → Type 0) where
  pub Keeps-bind :
      (m : Method S E A) (f : A → Method S E B)
      → Keeps P m
      → ((a : A) → Keeps P (f a))
      → Keeps P (m >>= f)
  Keeps-bind m f km kf s h = go (m s).0 (m s).1 (km s h)
    where
      go : (r : Result A E) (s' : S) → P s' → P (resume f r s').1
      go (ok a) s' k = kf a s' k
      go (err e) s' k = k

-- A result that is not the method's own leaves its state.
pub state-pure :
    {S E A B : Type 0} (m : Method S E A) (b : B) (s : S) → ((m >> pure b) s).1 ≡ (m s).1
state-pure {S} {E} {A} m b s = left_by (m s).0
  where
    left_by : (r : Result A E) → (resume (λ _. pure b) r (m s).1).1 ≡ (m s).1
    left_by (ok a) = refl
    left_by (err e) = refl

-- A bind that succeeds: so did its first method, and the rest is run on what that left.
pub >>=-ok :
    {S E A B : Type 0} (m : Method S E A) (f : A → Method S E B) (s : S) (b : B)
    → ((m >>= f) s).0 ≡ ok b
    → (a : A) × ((m s).0 ≡ ok a) × ((m >>= f) s ≡ f a (m s).1)
>>=-ok {S} {E} {A} {B} m f s b h = by_result (m s).0 h
  where
    by_result :
        (r : Result A E)
        → (resume f r (m s).1).0 ≡ ok b
        → (a : A) × (r ≡ ok a) × (resume f r (m s).1 ≡ f a (m s).1)
    by_result (ok a) k = (a, refl, refl)
    by_result (err e) k = absurd (cc)

-- A predicate on what a chain leaves, over a check and over a result that is computed on the way.
module _ {S E B : Type 0} (P : S → Type 0) where
  pub holds-guarded :
      (b : Bool) (e : E) (k : Method S E B) (s : S)
      → P s
      → (b ≡ false → P (k s).1)
      → P ((fail_when b e >> k) s).1
  holds-guarded true e k s h hk = h
  holds-guarded false e k s h hk = hk refl

  pub holds-lifted :
      {A : Type 0} (r : Result A E) (f : A → Method S E B) (s : S)
      → P s
      → ((a : A) → r ≡ ok a → P (f a s).1)
      → P ((lift r >>= f) s).1
  holds-lifted (ok a) f s h hf = hf a refl
  holds-lifted (err e) f s h hf = h

-- What a chain that succeeds has passed.
module _ {S E B : Type 0} where
  pub guarded-ok :
      (b : Bool) (e : E) (k : Method S E B) (s : S) (r : B)
      → ((fail_when b e >> k) s).0 ≡ ok r
      → (b ≡ false) × ((fail_when b e >> k) s ≡ k s)
  guarded-ok true e k s r h = absurd (cc)
  guarded-ok false e k s r h = (refl, refl)

  pub lifted-ok :
      {A : Type 0} (m : Result A E) (f : A → Method S E B) (s : S) (r : B)
      → ((lift m >>= f) s).0 ≡ ok r
      → (a : A) × (m ≡ ok a) × ((lift m >>= f) s ≡ f a s)
  lifted-ok (ok a) f s r h = (a, refl, refl)
  lifted-ok (err e) f s r h = absurd (cc)
