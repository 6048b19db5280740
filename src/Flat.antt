-- ===== src/Flat.antt =====
-- What the flat sorted containers share: the binary search and the order-preserving erase that
-- include/ycetl/set.hpp, map.hpp, multiset.hpp and multimap.hpp each write out. The storage is the
-- sequence that the underlying `dynamic_array` holds.
pub mod Runs
pub mod Groups
pub mod Shift
pub mod Search
pub mod Gap
pub mod Lookup
pub mod Place
pub mod Writes
use ycetl.Base.{
  ℕ, zero, suc, ◌+◌, ◌-◌, ◌/◌, Bool, true, false, not, List, Option, none, some, ◌==◌, ltb,
  if◌then◌else◌, ◌>>=◌, length, get_elem?, write, take,
}

module _ {A : Type 0} where
  -- `while (lo < hi)` with `_cmp` at the middle element as the test `p`; the fuel bounds the rounds.
  -- `hi - lo` and `mid + 1` stay within the size, so nothing wraps.
  unfoldable pub search : (A → Bool) → List A → (fuel lo hi : ℕ) → Option ℕ
  search p xs zero lo hi = if ltb lo hi then none else some lo
  search p xs (suc fuel) lo hi =
      let mid : ℕ = lo + (hi - lo) / 2 in
      let round = get_elem? xs mid >>= (λ x. elim (p x) [
        | true ↦ search p xs fuel (mid + 1) hi
        | false ↦ search p xs fuel lo mid
      ]) in
      if ltb lo hi then round else some lo

  unfoldable pub partition_point : (A → Bool) → List A → Option ℕ
  unfolding search
  partition_point p xs = search p xs (length xs) 0 (length xs)

  -- `i < _data.size() && !_cmp(k, _data[i])`, with `after` for the comparison
  unfoldable pub hit : (A → Bool) → ℕ → List A → Option Bool
  hit after i xs =
      if ltb i (length xs) then get_elem? xs i >>= (λ x. some (not (after x))) else some false

  -- `for (j = i; j + 1 < n; ++j) _data[j] = std::move(_data[j + 1])`, by the rounds left
  unfoldable pub shift_left : (rounds j : ℕ) → List A → Option (List A)
  shift_left zero j xs = some xs
  shift_left (suc rounds) j xs = do
    x ← get_elem? xs (j + 1)
    xs' ← write xs j x
    shift_left rounds (j + 1) xs'

  -- `_data.pop_back()`
  unfoldable pub drop_last : List A → Option (List A)
  drop_last xs = if length xs == 0 then none else some (take (length xs - 1) xs)

  unfoldable pub erase_at : ℕ → List A → Option (List A)
  unfolding shift_left drop_last
  erase_at i xs = shift_left (length xs - 1 - i) i xs >>= drop_last

  -- `for (j = lo; j + removed < n; ++j) _data[j] = std::move(_data[j + removed])`
  unfoldable pub shift_down : (removed rounds j : ℕ) → List A → Option (List A)
  shift_down removed zero j xs = some xs
  shift_down removed (suc rounds) j xs = do
    x ← get_elem? xs (j + removed)
    xs' ← write xs j x
    shift_down removed rounds (j + 1) xs'

  -- `for (j = 0; j < removed; ++j) _data.pop_back()`
  unfoldable pub pop_times : ℕ → List A → Option (List A)
  unfolding drop_last
  pop_times zero xs = some xs
  pop_times (suc removed) xs = drop_last xs >>= (λ ys. pop_times removed ys)

  -- The end of `erase` of the containers with repeated keys, from `lo == hi` on; with the number of
  -- elements removed.
  unfoldable pub erase_run : (lo hi : ℕ) → List A → Option (List A × ℕ)
  unfolding shift_down pop_times
  erase_run lo hi xs =
      let removed : ℕ = hi - lo in
      let rest =
        shift_down removed (length xs - removed - lo) lo xs
        >>= (λ ys. pop_times removed ys)
        >>= (λ zs. some (zs, removed)) in
      if lo == hi then some (xs, 0) else rest
