-- ===== src/Multiset.antt =====
-- `multiset` of include/ycetl/multiset.hpp. The state is the sequence that `_data` holds; an
-- iterator is its index, and the index past the last is `end()`. `insert` of `_data` is `insert_at`,
-- which `dynamic_array` implements.
pub mod Laws
use ycetl.Base.{
  ℕ, ◌-◌, Bool, true, false, not, List, [], Option, none, some, ◌==◌, ltb, if◌then◌else◌, ◌>>=◌,
  length,
}
use ycetl.Flat.{partition_point, hit, erase_run}
use ycetl.Order.{Order, less}
use ycetl.Sequence.{insert_at}

abbrev pub Multiset : Type 0 → Type 0
Multiset K = List K

unfoldable pub clear : {K : Type 0} → Multiset K → Multiset K
clear xs = []

module _ {K : Type 0} ⦃o : Order K⦄ where
  unfoldable pub lower_bound_index : K → Multiset K → Option ℕ
  lower_bound_index k xs = partition_point (λ x. less x k) xs

  unfoldable pub upper_bound_index : K → Multiset K → Option ℕ
  upper_bound_index k xs = partition_point (λ x. not (less k x)) xs

  unfoldable pub find : K → Multiset K → Option ℕ
  unfolding lower_bound_index
  find k xs = do
    i ← lower_bound_index k xs
    found ← hit (λ x. less k x) i xs
    some (if found then i else length xs)

  unfoldable pub contains : K → Multiset K → Option Bool
  unfolding find
  contains k xs = do i ← find k xs; some (not (i == length xs))

  unfoldable pub count : K → Multiset K → Option ℕ
  unfolding lower_bound_index upper_bound_index
  count k xs = do hi ← upper_bound_index k xs; lo ← lower_bound_index k xs; some (hi - lo)

  unfoldable pub equal_range : K → Multiset K → Option (ℕ × ℕ)
  unfolding lower_bound_index upper_bound_index
  equal_range k xs = do lo ← lower_bound_index k xs; hi ← upper_bound_index k xs; some (lo, hi)

  -- The multiset and the iterator to the new element.
  unfoldable pub insert : K → Multiset K → Option (Multiset K × ℕ)
  unfolding upper_bound_index
  insert k xs = do i ← upper_bound_index k xs; some (insert_at i k xs, i)

  -- The multiset and the number of elements removed.
  unfoldable pub erase : K → Multiset K → Option (Multiset K × ℕ)
  unfolding lower_bound_index upper_bound_index
  erase k xs = do lo ← lower_bound_index k xs; hi ← upper_bound_index k xs; erase_run lo hi xs
