-- ===== src/Map.antt =====
-- `map` of include/ycetl/map.hpp. The state is the sequence of pairs that `_data` holds; an iterator
-- is its index, and the index past the last is `end()`. `insert` of `_data` is `insert_at`, which
-- `dynamic_array` implements.
pub mod Laws
pub mod Erasing
use ycetl.Base.{
  ℕ, Bool, true, false, not, List, [], Option, none, some, ◌==◌, if◌then◌else◌, ◌>>=◌, length,
  get_elem?, write,
}
use ycetl.Flat.{partition_point, hit, erase_at}
use ycetl.Order.{Order, less}
use ycetl.Sequence.{insert_at}

abbrev pub Map : Type 0 → Type 0 → Type 0
Map K V = List (K × V)

unfoldable pub clear : {K V : Type 0} → Map K V → Map K V
clear xs = []

module _ {K V : Type 0} ⦃o : Order K⦄ where
  unfoldable pub lower_bound_index : K → Map K V → Option ℕ
  lower_bound_index k xs = partition_point (λ e. less e.0 k) xs

  -- The test of each operation after the search: `i < _data.size() && !_cmp(k, _data[i].first)`.
  unfoldable pub found_at : K → ℕ → Map K V → Option Bool
  found_at k i xs = hit (λ e. less k e.0) i xs

  unfoldable pub find : K → Map K V → Option ℕ
  unfolding lower_bound_index found_at
  find k xs = do
    i ← lower_bound_index k xs
    found ← found_at k i xs
    some (if found then i else length xs)

  unfoldable pub contains : K → Map K V → Option Bool
  unfolding find
  contains k xs = do i ← find k xs; some (not (i == length xs))

  -- The map, the iterator and whether the pair was inserted.
  unfoldable pub insert : K → V → Map K V → Option (Map K V × ℕ × Bool)
  unfolding lower_bound_index found_at
  insert k v xs = do
    i ← lower_bound_index k xs
    found ← found_at k i xs
    some (if found then (xs, i, false) else (insert_at i (k, v) xs, i, true))

  -- `_data[i].second = v`
  unfoldable pub assign_second : ℕ → V → Map K V → Option (Map K V)
  assign_second i v xs = do e ← get_elem? xs i; write xs i (e.0, v)

  unfoldable pub insert_or_assign : K → V → Map K V → Option (Map K V × ℕ × Bool)
  unfolding lower_bound_index found_at assign_second
  insert_or_assign k v xs = do
    i ← lower_bound_index k xs
    found ← found_at k i xs
    elim found [
      | true ↦ assign_second i v xs >>= (λ ys. some (ys, i, false))
      | false ↦ some (insert_at i (k, v) xs, i, true)
    ]

  -- `operator[]`, which inserts `T{}`, the argument `blank`, under a new key; with the value read.
  unfoldable pub subscript : V → K → Map K V → Option (Map K V × V)
  unfolding lower_bound_index found_at
  subscript blank k xs = do
    i ← lower_bound_index k xs
    found ← found_at k i xs
    let ys = if found then xs else insert_at i (k, blank) xs
    e ← get_elem? ys i
    some (ys, e.1)

  -- `at`, which does not look at the key that it finds.
  unfoldable pub at : K → Map K V → Option V
  unfolding lower_bound_index
  at k xs = do i ← lower_bound_index k xs; e ← get_elem? xs i; some e.1

  -- The map and the number of pairs removed.
  unfoldable pub erase : K → Map K V → Option (Map K V × ℕ)
  unfolding lower_bound_index found_at
  erase k xs = do
    i ← lower_bound_index k xs
    found ← found_at k i xs
    elim found [ false ↦ some (xs, 0) | true ↦ erase_at i xs >>= (λ ys. some (ys, 1)) ]
