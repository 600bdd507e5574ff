-- ===== src/Base/Map.antt =====
-- `BTreeMap`: an association list in ascending order of its keys. `adjust` writes through `get_mut`.
use Prim.Native.Nat.{Ordering, ℕ, ◌+◌, ◌≤◌, suc}
use mathlib.Core.Path.{◌≡◌, refl, subst}
use mathlib.Core.Logic.{inl, inr}
use mathlib.Core.Bool.{Bool, true, false}
use mathlib.Core.Option.{Option, none, some}
use mathlib.Core.List.{List, [], ◌∷◌, map}
use native.Mathlib.Omega.{arith}
use audio_down_core.Base.Tests.{if◌then◌else◌, Bool-cases}
use audio_down_core.Base.Lists.{All, any, filter, length}
use audio_down_core.Base.Order.{IsLawful, is_eq}

abbrev pub Map {ℓ κ} : Type ℓ → Type κ → Type (ℓ ⊔ κ)
Map K V = List (K × V)

-- `values`, and how many of them pass a test.
abbrev pub values {ℓ κ} : {K : Type ℓ} {V : Type κ} → Map K V → List V
values m = map (λ e. e.1) m

abbrev pub count {ℓ} : {A : Type ℓ} → (A → Bool) → List A → ℕ
count p [] = 0
count p (x ∷ xs) = let rest = count p xs in if p x then suc rest else rest

module _ {ℓ κ} {K : Type ℓ} {V : Type κ} (cmp : K → K → Ordering) where
  abbrev pub get : K → Map K V → Option V
  get k [] = none
  get k (e ∷ m) = let later = get k m in if is_eq (cmp k e.0) then some e.1 else later

  unfoldable pub insert : K → V → Map K V → Map K V
  insert k v [] = (k, v) ∷ []
  insert k v (e ∷ m) =
      let further = insert k v m in
      elim (cmp k e.0) [
        | Ordering.lt ↦ (k, v) ∷ e ∷ m
        | Ordering.eq ↦ (k, v) ∷ m
        | Ordering.gt ↦ e ∷ further
      ]

  unfoldable pub adjust : K → V → Map K V → Map K V
  adjust k v [] = []
  adjust k v (e ∷ m) =
      let further = adjust k v m in if is_eq (cmp k e.0) then (e.0, v) ∷ m else e ∷ further

  unfoldable pub remove : K → Map K V → Map K V
  remove k [] = []
  remove k (e ∷ m) = let further = remove k m in if is_eq (cmp k e.0) then further else e ∷ further

  pub length-insert-le : (k : K) (v : V) (m : Map K V) → length (insert k v m) ≤ suc (length m)
  unfolding insert
  length-insert-le k v [] = omega arith
  length-insert-le k v (e ∷ m) = ground (arith, length-insert-le k v m)

  pub length-adjust : (k : K) (v : V) (m : Map K V) → length (adjust k v m) ≡ length m
  unfolding adjust
  length-adjust k v [] = refl
  length-adjust k v (e ∷ m) = ground (arith, length-adjust k v m)

  pub length-remove-le : (k : K) (m : Map K V) → length (remove k m) ≤ length m
  unfolding remove
  length-remove-le k [] = omega arith
  length-remove-le k (e ∷ m) = ground (arith, length-remove-le k m)

  pub length-remove-lt :
      (k : K) (v : V) (m : Map K V) → get k m ≡ some v → suc (length (remove k m)) ≤ length m
  unfolding remove
  length-remove-lt k v [] h = cc
  length-remove-lt k v (e ∷ m) h = ground (arith, length-remove-le k m, length-remove-lt k v m)

  module _ (p : V → Bool) where
    pub count-insert_new :
        (k : K) (v : V) (m : Map K V)
        → get k m ≡ none
        → count p (values (insert k v m)) ≡ count p (v ∷ values m)
    unfolding insert
    count-insert_new k v [] h = refl
    count-insert_new k v (e ∷ m) h = ground (arith, count-insert_new k v m)

    pub count-adjust :
        (k : K) (v old : V) (m : Map K V)
        → get k m ≡ some old
        → count p (values (adjust k v m)) + count p (old ∷ [])
          ≡ count p (values m) + count p (v ∷ [])
    unfolding adjust
    count-adjust k v old [] h = cc
    count-adjust k v old (e ∷ m) h = ground (arith, count-adjust k v old m)

    pub count-remove-le : (k : K) (m : Map K V) → count p (values (remove k m)) ≤ count p (values m)
    unfolding remove
    count-remove-le k [] = omega arith
    count-remove-le k (e ∷ m) = ground (arith, count-remove-le k m)

    pub count_of_get :
        (k : K) (v : V) (m : Map K V) → get k m ≡ some v → p v ≡ true → suc 0 ≤ count p (values m)
    count_of_get k v [] h t = cc
    count_of_get k v (e ∷ m) h t = ground (arith, count_of_get k v m)

  module _ {μ} (P : V → Type μ) where
    pub All-insert :
        (k : K) (v : V) (m : Map K V) → P v → All P (values m) → All P (values (insert k v m))
    unfolding insert
    All-insert k v [] p h = (p, tt)
    All-insert k v (e ∷ m) p h = ground (arith, All-insert k v m p h.1)

    pub All-adjust :
        (k : K) (v : V) (m : Map K V) → P v → All P (values m) → All P (values (adjust k v m))
    unfolding adjust
    All-adjust k v [] p h = tt
    All-adjust k v (e ∷ m) p h = ground (arith, All-adjust k v m p h.1)

    pub All-remove : (k : K) (m : Map K V) → All P (values m) → All P (values (remove k m))
    unfolding remove
    All-remove k [] h = tt
    All-remove k (e ∷ m) h = ground (arith, All-remove k m h.1)

    pub All-filter_entries :
        (keep : K × V → Bool) (m : Map K V) → All P (values m) → All P (values (filter keep m))
    All-filter_entries keep [] h = tt
    All-filter_entries keep (e ∷ m) h = ground (arith, All-filter_entries keep m h.1)

    pub All-get : (k : K) (v : V) (m : Map K V) → get k m ≡ some v → All P (values m) → P v
    All-get k v [] e h = cc
    All-get k v (x ∷ m) e h = elim (Bool-cases (is_eq (cmp k x.0))) [
      | inl here ↦ let same : x.1 ≡ v = ground arith in subst P same h.0
      | inr missed ↦ All-get k v m (ground arith) h.1
    ]

  -- What is found after a write. Two keys are the same where they compare equal.
  module _ (lawful : IsLawful cmp) where
    pub get-insert :
        (j k : K) (v : V) (m : Map K V)
        → get j (insert k v m) ≡ (if is_eq (cmp j k) then some v else get j m)
    unfolding insert
    get-insert j k v [] = refl
    get-insert j k v (e ∷ m) = ground (
      arith,
      get-insert j k v m,
      lawful.congruent k e.0 j,
      lawful.congruent j k e.0,
      lawful.swapped j k,
      lawful.swapped j e.0,
    )

    pub get-adjust :
        (j k : K) (v old : V) (m : Map K V)
        → get k m ≡ some old
        → get j (adjust k v m) ≡ (if is_eq (cmp j k) then some v else get j m)
    unfolding adjust
    get-adjust j k v old [] h = cc
    get-adjust j k v old (e ∷ m) h = ground (
      arith,
      get-adjust j k v old m,
      lawful.congruent k e.0 j,
      lawful.congruent j k e.0,
      lawful.swapped j k,
      lawful.swapped j e.0,
    )

    pub get-remove :
        (j k : K) (m : Map K V) → get j (remove k m) ≡ (if is_eq (cmp j k) then none else get j m)
    unfolding remove
    get-remove j k [] = ground arith
    get-remove j k (e ∷ m) = ground (
      arith,
      get-remove j k m,
      lawful.congruent k e.0 j,
      lawful.congruent j k e.0,
      lawful.swapped j k,
      lawful.swapped j e.0,
    )

pub count_of_any {ℓ} : {A : Type ℓ} (p : A → Bool) (xs : List A) → any p xs ≡ false → count p xs ≡ 0
count_of_any p [] h = refl
count_of_any p (x ∷ xs) h = ground (arith, count_of_any p xs)

pub length-filter-count {ℓ} :
    {A : Type ℓ} (p : A → Bool) (xs : List A) → length (filter p xs) ≡ count p xs
length-filter-count p [] = refl
length-filter-count p (x ∷ xs) = ground (arith, length-filter-count p xs)

pub count_mono {ℓ} :
    {A : Type ℓ} (p q : A → Bool)
    → ((x : A) → p x ≡ true → q x ≡ true)
    → (xs : List A) → count p xs ≤ count q xs
count_mono p q h [] = omega arith
count_mono p q h (x ∷ xs) = ground (arith, h x, count_mono p q h xs)
