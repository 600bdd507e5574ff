-- ===== src/Base/Sort.antt =====
-- `slice::sort_by` and `sort_by_key`: the stable sort of the standard library, as the insertion
-- sort that has the same result on every comparison that is a total preorder.
use Prim.Native.Nat.{Ordering}
use mathlib.Core.Path.{◌≡◌, refl, ap, ◌∙◌, subst}
use mathlib.Core.Logic.{◌≢◌, inl, inr}
use mathlib.Core.List.{List, [], ◌∷◌, Permᴰ}
use mathlib.Core.List.Permᴰ as Perm
use native.Mathlib.Omega.{arith}
use audio_down_core.Base.Tests.{if◌then◌else◌, Bool-cases}
use audio_down_core.Base.Lists.{filter, length, All, All-map}
use audio_down_core.Base.Order.{is_gt, is_eq, IsLawful, le_trans}

module _ {ℓ} {A : Type ℓ} (cmp : A → A → Ordering) where
  unfoldable pub insert_by : A → List A → List A
  insert_by x [] = x ∷ []
  insert_by x (y ∷ ys) =
      let rest = insert_by x ys in if is_gt (cmp x y) then y ∷ rest else x ∷ y ∷ ys

  unfoldable pub sort_by : List A → List A
  unfolding insert_by
  sort_by [] = []
  sort_by (x ∷ xs) = insert_by x (sort_by xs)

  -- Every element is in order with all that come after it.
  abbrev pub IsSorted : List A → Type ℓ
  IsSorted [] = Unit
  IsSorted (x ∷ xs) = All (λ y. cmp x y ≢ Ordering.gt) xs × IsSorted xs

  -- No two elements compare equal.
  abbrev pub IsDistinct : List A → Type ℓ
  IsDistinct [] = Unit
  IsDistinct (x ∷ xs) = All (λ y. cmp x y ≢ Ordering.eq) xs × IsDistinct xs

  pub insert_by-perm : (x : A) (l : List A) → Permᴰ (insert_by x l) (x ∷ l)
  unfolding insert_by
  insert_by-perm x [] = Perm.refl (x ∷ [])
  insert_by-perm x (y ∷ ys) = elim (Bool-cases (is_gt (cmp x y))) [
    | inl after ↦
        rw after (Permᴰ.trans (Permᴰ.cons refl (insert_by-perm x ys)) (Permᴰ.swap refl refl))
    | inr before ↦ rw before (Perm.refl (x ∷ y ∷ ys))
  ]

  pub sort_by-perm : (l : List A) → Permᴰ (sort_by l) l
  unfolding sort_by
  sort_by-perm [] = Permᴰ.nil
  sort_by-perm (x ∷ xs) =
      Permᴰ.trans (insert_by-perm x (sort_by xs)) (Permᴰ.cons refl (sort_by-perm xs))

pub length-perm {ℓ} : {A : Type ℓ} {l m : List A} → Permᴰ l m → length l ≡ length m
length-perm Permᴰ.nil = refl
length-perm (Permᴰ.cons e d) = ground (arith, length-perm d)
length-perm (Permᴰ.swap e f) = refl
length-perm (Permᴰ.trans d e) = length-perm d ∙ length-perm e

module _ {ℓ κ} {A : Type ℓ} (P : A → Type κ) where
  pub All-perm : {l m : List A} → Permᴰ l m → All P l → All P m
  All-perm Permᴰ.nil h = h
  All-perm (Permᴰ.cons e d) h = (subst P e h.0, All-perm d h.1)
  All-perm (Permᴰ.swap e f) h = (subst P f h.1.0, (subst P e h.0, h.1.1))
  All-perm (Permᴰ.trans d e) h = All-perm e (All-perm d h)

  pub All-insert_by :
      (cmp : A → A → Ordering) (x : A) (l : List A) → P x → All P l → All P (insert_by cmp x l)
  unfolding insert_by
  All-insert_by cmp x [] p h = (p, tt)
  All-insert_by cmp x (y ∷ ys) p h = ground (arith, All-insert_by cmp x ys p h.1)

module _ {ℓ} {A : Type ℓ} {cmp : A → A → Ordering} (lawful : IsLawful cmp) where
  insert_by-IsSorted : (x : A) (l : List A) → IsSorted cmp l → IsSorted cmp (insert_by cmp x l)
  unfolding insert_by
  insert_by-IsSorted x [] h = (tt, tt)
  insert_by-IsSorted x (y ∷ ys) h = elim (Bool-cases (is_gt (cmp x y))) [
    | inl after ↦ rw after (
      All-insert_by (λ z. cmp y z ≢ Ordering.gt) cmp x ys (ground (arith, lawful.swapped x y)) h.0,
      insert_by-IsSorted x ys h.1,
    )
    | inr before ↦
        let first : cmp x y ≢ Ordering.gt = ground arith in
        rw before ((first, All-map (λ z later. le_trans lawful x y z first later) ys h.0), h)
  ]

  pub sort_by-IsSorted : (l : List A) → IsSorted cmp (sort_by cmp l)
  unfolding sort_by
  sort_by-IsSorted [] = tt
  sort_by-IsSorted (x ∷ xs) = insert_by-IsSorted x (sort_by cmp xs) (sort_by-IsSorted xs)

  insert_by_comm :
      (x y : A) (l : List A)
      → cmp x y ≢ Ordering.eq
      → insert_by cmp x (insert_by cmp y l) ≡ insert_by cmp y (insert_by cmp x l)
  unfolding insert_by
  insert_by_comm x y [] h = ground (arith, lawful.swapped x y)
  insert_by_comm x y (z ∷ zs) h = ground (
    arith,
    insert_by_comm x y zs h,
    lawful.swapped x y,
    lawful.swapped x z,
    lawful.swapped y z,
    le_trans lawful x y z,
    le_trans lawful y x z,
  )

  IsDistinct-perm : {l m : List A} → Permᴰ l m → IsDistinct cmp l → IsDistinct cmp m
  IsDistinct-perm Permᴰ.nil h = h
  IsDistinct-perm (Permᴰ.cons {a} {b} {l₁} {l₂} e d) h =
      (All-perm (λ y. cmp b y ≢ Ordering.eq) d (rw e at h.0), IsDistinct-perm d h.1)
  IsDistinct-perm (Permᴰ.swap {a} {b} {a'} {b'} {l} e f) h =
      let flipped : cmp b a ≢ Ordering.eq = ground (arith, lawful.swapped a b) in
      (
        (
          subst (λ y. cmp a' y ≢ Ordering.eq) e (subst (λ y. cmp y a ≢ Ordering.eq) f flipped),
          subst (λ x. All (λ y. cmp x y ≢ Ordering.eq) l) f h.1.0,
        ),
        (subst (λ x. All (λ y. cmp x y ≢ Ordering.eq) l) e h.0.1, h.1.1),
      )
  IsDistinct-perm (Permᴰ.trans d e) h = IsDistinct-perm e (IsDistinct-perm d h)

  -- The result does not depend on the order of the input where no two keys are equal.
  pub sort_by-eq_of_perm :
      {l m : List A} → Permᴰ l m → IsDistinct cmp l → sort_by cmp l ≡ sort_by cmp m
  unfolding sort_by
  sort_by-eq_of_perm Permᴰ.nil h = refl
  sort_by-eq_of_perm (Permᴰ.cons e d) h = cc (e, sort_by-eq_of_perm d h.1)
  sort_by-eq_of_perm (Permᴰ.swap {a} {b} {a'} {b'} {l} e f) h =
      cc (e, f, insert_by_comm a b (sort_by cmp l) h.0.0)
  sort_by-eq_of_perm (Permᴰ.trans d e) h =
      sort_by-eq_of_perm d h ∙ sort_by-eq_of_perm e (IsDistinct-perm d h)

  filter-insert_by :
      (a x : A) (l : List A)
      → filter (λ y. is_eq (cmp a y)) (insert_by cmp x l) ≡ filter (λ y. is_eq (cmp a y)) (x ∷ l)
  unfolding insert_by
  filter-insert_by a x [] = refl
  filter-insert_by a x (y ∷ ys) = ground (arith, filter-insert_by a x ys, lawful.congruent a x y)

  -- Stability: what compares equal to one value keeps its order.
  pub sort_by_stable :
      (a : A) (l : List A)
      → filter (λ y. is_eq (cmp a y)) (sort_by cmp l) ≡ filter (λ y. is_eq (cmp a y)) l
  unfolding sort_by
  sort_by_stable a [] = refl
  sort_by_stable a (x ∷ xs) =
      filter-insert_by a x (sort_by cmp xs)
      ∙ ap (λ rest. if is_eq (cmp a x) then x ∷ rest else rest) (sort_by_stable a xs)

module _ {ℓ} {A : Type ℓ} (cmp : A → A → Ordering) where
  pub sort_by_of_IsSorted : (l : List A) → IsSorted cmp l → sort_by cmp l ≡ l
  unfolding sort_by
  sort_by_of_IsSorted [] h = refl
  sort_by_of_IsSorted (x ∷ []) h = refl
  sort_by_of_IsSorted (x ∷ y ∷ ys) h = rw (sort_by_of_IsSorted (y ∷ ys) h.1) (ground (arith, h.0.0))
