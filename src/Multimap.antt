-- ===== src/Multimap.antt =====
-- `multimap` of include/ycetl/multimap.hpp. The state is the sequence of pairs that `_data` holds; an
-- iterator is its index, and the index past the last is `end()`. `insert` of `_data` is `insert_at`,
-- which `dynamic_array` implements.
pub mod Laws
use ycetl.Base.{
  ℕ, ◌-◌, Bool, true, false, not, List, [], Option, none, some, ◌==◌, ltb, if◌then◌else◌, ◌>>=◌,
  length,
}
use ycetl.Flat.{partition_point, hit, erase_run}
use ycetl.Order.{Order, less}
use ycetl.Sequence.{insert_at}

abbrev pub Multimap : Type 0 → Type 0 → Type 0
Multimap K V = List (K × V)

unfoldable pub clear : {K V : Type 0} → Multimap K V → Multimap K V
clear xs = []

module _ {K V : Type 0} ⦃o : Order K⦄ where
  unfoldable pub lower_bound_index : K → Multimap K V → Option ℕ
  lower_bound_index k xs = partition_point (λ e. less e.0 k) xs

  unfoldable pub upper_bound_index : K → Multimap K V → Option ℕ
  upper_bound_index k xs = partition_point (λ e. not (less k e.0)) xs

  unfoldable pub find : K → Multimap K V → Option ℕ
  unfolding lower_bound_index
  find k xs = do
    i ← lower_bound_index k xs
    found ← hit (λ e. less k e.0) i xs
    some (if found then i else length xs)

  unfoldable pub contains : K → Multimap K V → Option Bool
  unfolding find
  contains k xs = do i ← find k xs; some (not (i == length xs))

  unfoldable pub count : K → Multimap K V → Option ℕ
  unfolding lower_bound_index upper_bound_index
  count k xs = do hi ← upper_bound_index k xs; lo ← lower_bound_index k xs; some (hi - lo)

  unfoldable pub equal_range : K → Multimap K V → Option (ℕ × ℕ)
  unfolding lower_bound_index upper_bound_index
  equal_range k xs = do lo ← lower_bound_index k xs; hi ← upper_bound_index k xs; some (lo, hi)

  -- The multimap and the iterator to the new pair.
  unfoldable pub insert : K → V → Multimap K V → Option (Multimap K V × ℕ)
  unfolding upper_bound_index
  insert k v xs = do i ← upper_bound_index k xs; some (insert_at i (k, v) xs, i)

  -- The multimap and the number of pairs removed.
  unfoldable pub erase : K → Multimap K V → Option (Multimap K V × ℕ)
  unfolding lower_bound_index upper_bound_index
  erase k xs = do lo ← lower_bound_index k xs; hi ← upper_bound_index k xs; erase_run lo hi xs
