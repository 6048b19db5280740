-- ===== src/Set.antt =====
-- `set` of include/ycetl/set.hpp. The state is the sequence that `_data` holds; an iterator is its
-- index, and the index past the last is `end()`. `insert` of `_data` is `insert_at`, which
-- `dynamic_array` implements.
pub mod Laws
use ycetl.Base.{
  ℕ, Bool, true, false, not, List, [], Option, none, some, ◌==◌, ltb, leb, if◌then◌else◌, ◌>>=◌,
  length, get_elem?,
}
use ycetl.Flat.{partition_point, hit, erase_at}
use ycetl.Order.{Order, less}
use ycetl.Sequence.{insert_at}

abbrev pub Set : Type 0 → Type 0
Set K = List K

unfoldable pub clear : {K : Type 0} → Set K → Set K
clear xs = []

module _ {K : Type 0} ⦃o : Order K⦄ where
  unfoldable pub lower_bound_index : K → Set K → Option ℕ
  lower_bound_index k xs = partition_point (λ x. less x k) xs

  unfoldable pub find : K → Set K → Option ℕ
  unfolding lower_bound_index
  find k xs = do
    i ← lower_bound_index k xs
    found ← hit (λ x. less k x) i xs
    some (if found then i else length xs)

  unfoldable pub contains : K → Set K → Option Bool
  unfolding find
  contains k xs = do i ← find k xs; some (not (i == length xs))

  -- The set, the iterator and whether the key was inserted.
  unfoldable pub insert : K → Set K → Option (Set K × ℕ × Bool)
  unfolding lower_bound_index
  insert k xs = do
    i ← lower_bound_index k xs
    found ← hit (λ x. less k x) i xs
    some (if found then (xs, i, false) else (insert_at i k xs, i, true))

  -- The set and the number of keys removed.
  unfoldable pub erase : K → Set K → Option (Set K × ℕ)
  unfolding lower_bound_index
  erase k xs = do
    i ← lower_bound_index k xs
    found ← hit (λ x. less k x) i xs
    elim found [ false ↦ some (xs, 0) | true ↦ erase_at i xs >>= (λ ys. some (ys, 1)) ]
