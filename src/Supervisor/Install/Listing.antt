-- ===== src/Supervisor/Install/Listing.antt =====
-- What `list` returns of the operations in memory.
use audio_down_core.Base.{
  ℕ, suc, zero, ◌≤◌, List, [], ◌∷◌, ◌≡◌, refl, sym, ap, subst, map, filter, length, arith,
}
use mathlib.Core.List.{Permᴰ}
use audio_down_core.Base.Map.{values, length-filter-count, count_mono}
use audio_down_core.Base.Order.{key-IsLawful, nat_cmp-IsLawful}
use audio_down_core.Base.Sort.{sort_by-perm, sort_by-IsSorted, IsSorted, length-perm}
use audio_down_core.Base.Text.{text_eq}
use audio_down_core.Supervisor.Protocol.{max_operation_list_items, summary, truncate, new}
use audio_down_core.Supervisor.Install.State.{StoredOperation, World, Host}
use audio_down_core.Supervisor.Install.Sections.{
  is_unacknowledged, listed, list, by_sequence, is_listed,
}
use audio_down_core.Supervisor.Install.Bounds.{IsSound}

pub truncate-short {ℓ} : {A : Type ℓ} (n : ℕ) (xs : List A) → length xs ≤ n → truncate n xs ≡ xs
unfolding truncate
truncate-short zero [] h = refl
truncate-short zero (x ∷ xs) h = absurd (omega arith)
truncate-short (suc n) [] h = refl
truncate-short (suc n) (x ∷ xs) h = ap (λ ys. x ∷ ys) (truncate-short n xs (omega arith))

length-map {ℓ} : {A B : Type ℓ} (f : A → B) (xs : List A) → length (map f xs) ≡ length xs
length-map f [] = refl
length-map f (x ∷ xs) = ap suc (length-map f xs)

module _ (host : Host) where
  length-listed : (w : World) → IsSound w.memory → length (listed host w) ≤ max_operation_list_items
  unfolding listed
  length-listed w h = ground (
    arith,
    length-perm (sort_by-perm by_sequence (filter (is_listed host) (values w.memory.operations))),
    length-filter-count (is_listed host) (values w.memory.operations),
    count_mono (is_listed host) is_unacknowledged (λ stored k. ground arith)
        (values w.memory.operations),
    h.1,
  )

  -- While the bounds hold, the list is never cut off: it has every unacknowledged operation of this
  -- installation, in the order of their sequence numbers.
  pub list-IsComplete :
      (w : World)
      → IsSound w.memory
      → ((list host w).operations
          ≡ map (λ (stored : StoredOperation). summary stored.operation) (listed host w))
        × Permᴰ (listed host w) (filter (is_listed host) (values w.memory.operations))
        × IsSorted by_sequence (listed host w)
  unfolding list listed new
  list-IsComplete w h = (
    truncate-short max_operation_list_items _ (
        subst (λ n. n ≤ max_operation_list_items) (sym (length-map _ (listed host w)))
          (length-listed w h)),
    sort_by-perm by_sequence (filter (is_listed host) (values w.memory.operations)),
    sort_by-IsSorted (key-IsLawful (λ (stored : StoredOperation). stored.sequence) nat_cmp-IsLawful)
        (filter (is_listed host) (values w.memory.operations)),
  )
