-- ===== src/Content/Service/Schedule.antt =====
-- The order in which the platforms answer, in crates/audiodown-content/src/router.rs, which numbers the
-- calls and sorts their results.
use Prim.Native.Nat.{Ordering}
use mathlib.Core.List.{Permᴰ}
use mathlib.Core.List.Permᴰ as Perm
use audio_down_core.Base.{
  ℕ, suc, ◌<◌, ◌≡◌, refl, sym, ap, fun_ext, ◌∙◌, List, [], ◌∷◌, map, All, All-map, arith,
}
use audio_down_core.Base.Order.{IsLawful, nat_cmp-IsLawful, key-IsLawful}
use audio_down_core.Base.Sort.{IsSorted, IsDistinct, sort_by_of_IsSorted, sort_by-eq_of_perm}
use audio_down_core.Content.Platform.{PlatformResult}
use audio_down_core.Content.Dedup.{SourcedContentItem}
use audio_down_core.Content.Service.{
  Backend, SearchAggregationInput, enumerate, index_cmp, gather, search, search_with,
}

module _ {ℓ} {A : Type ℓ} where
  -- Every call finishes once: the results come as a rearrangement of the numbered ones.
  abbrev pub IsSchedule : (List (ℕ × A) → List (ℕ × A)) → Type ℓ
  IsSchedule complete = (numbered : List (ℕ × A)) → Permᴰ (complete numbered) numbered

  index_cmp-IsLawful : IsLawful (index_cmp {A = A})
  index_cmp-IsLawful = key-IsLawful (λ (a : ℕ × A). a.0) nat_cmp-IsLawful

  enumerate-above :
      (low n : ℕ) (x : A) (xs : List A)
      → low < n
      → All (λ y. index_cmp (low, x) y ≡ Ordering.lt) (enumerate n xs)
  enumerate-above low n x [] h = tt
  enumerate-above low n x (y ∷ ys) h =
      (ground arith, enumerate-above low (suc n) x ys (omega arith))

  enumerate-IsSorted : (n : ℕ) (xs : List A) → IsSorted index_cmp (enumerate n xs)
  enumerate-IsSorted n [] = tt
  enumerate-IsSorted n (x ∷ xs) = (
    All-map (λ y (h : index_cmp (n, x) y ≡ Ordering.lt). ground arith) (enumerate (suc n) xs)
        (enumerate-above n (suc n) x xs (omega arith)),
    enumerate-IsSorted (suc n) xs,
  )

  enumerate-IsDistinct : (n : ℕ) (xs : List A) → IsDistinct index_cmp (enumerate n xs)
  enumerate-IsDistinct n [] = tt
  enumerate-IsDistinct n (x ∷ xs) = (
    All-map (λ y (h : index_cmp (n, x) y ≡ Ordering.lt). ground arith) (enumerate (suc n) xs)
        (enumerate-above n (suc n) x xs (omega arith)),
    enumerate-IsDistinct (suc n) xs,
  )

  map-enumerate : (n : ℕ) (xs : List A) → map (λ y. y.1) (enumerate n xs) ≡ xs
  map-enumerate n [] = refl
  map-enumerate n (x ∷ xs) = ap (λ l. x ∷ l) (map-enumerate (suc n) xs)

  pub gather-eq :
      (complete : List (ℕ × A) → List (ℕ × A)) → IsSchedule complete → gather complete ≡ λ rs. rs
  unfolding gather
  gather-eq complete schedule = fun_ext λ rs.
      ap (map (λ y. y.1)) (
        sym (
          sort_by-eq_of_perm index_cmp-IsLawful (Perm.symm (schedule (enumerate 0 rs)))
            (enumerate-IsDistinct 0 rs))
        ∙ sort_by_of_IsSorted index_cmp (enumerate 0 rs) (enumerate-IsSorted 0 rs))
      ∙ map-enumerate 0 rs

module _ {Value : Type 0} (backend : Backend Value) where
  -- Whatever the order in which the platforms answer, the result or the error of a search is the one
  -- that calling the platforms one after the other gives.
  pub search-eq-search_with :
      (complete : List (ℕ × PlatformResult SourcedContentItem)
        → List (ℕ × PlatformResult SourcedContentItem))
      (input : SearchAggregationInput)
      → IsSchedule complete
      → search backend complete input ≡ search_with backend (λ results. results) input
  unfolding search
  search-eq-search_with complete input schedule =
      ap (λ g. search_with backend g input) (gather-eq complete schedule)
