-- ===== src/DynamicArray/Slots.antt =====
-- A block of slots that the memory handed out, and the life of the objects in them. The object
-- functions are those of `<memory>`, `construct_at` and `destroy_at`, as include/ycetl/memory.hpp
-- calls them, and the loops are those of include/ycetl/dynamic_array.hpp. An access out of the
-- block, a read of a slot that holds no value and the destruction of no object are faults.
use ycetl.Base.{ℕ, zero, suc, ◌+◌, ◌-◌, Option, none, some, ◌==◌, ltb, if◌then◌else◌, ◌>>=◌}

-- `moved` is an object whose value was moved from: alive, to be assigned or destroyed only.
pub data Cell (A : Type 0) : Type 0 where
  raw : Cell A
  live : A → Cell A
  moved : Cell A

pub record Block (A : Type 0) : Type 0 where
  pub len : ℕ
  pub cell : ℕ → Cell A

module _ {A : Type 0} where
  abbrev pub put : ℕ → Cell A → Block A → Block A
  put i c b = record b { cell = λ j. if i == j then c else b.cell j }

  abbrev pub value : Cell A → Option A
  value (live v) = some v
  value raw = none
  value moved = none

  abbrev pub is_object : Cell A → Option (Unit {0})
  is_object raw = none
  is_object (live v) = some tt
  is_object moved = some tt

  abbrev pub in_block : ℕ → Block A → Option (Unit {0})
  in_block i b = if ltb i b.len then some tt else none

  -- `allocate(n)`: the slots hold no objects yet; the null pointer for no slots.
  unfoldable pub allocate : ℕ → Block A
  allocate n = record { len = n; cell = λ _. raw }

  unfoldable pub read : Block A → ℕ → Option A
  read b i = do _ ← in_block i b; value (b.cell i)

  unfoldable pub construct_at : ℕ → A → Block A → Option (Block A)
  construct_at i v b = do _ ← in_block i b; some (put i (live v) b)

  unfoldable pub destroy_at : ℕ → Block A → Option (Block A)
  destroy_at i b = do _ ← in_block i b; _ ← is_object (b.cell i); some (put i raw b)

  -- `std::move(_data[i])`, read by the operation that it is handed to
  unfoldable pub move_from : ℕ → Block A → Option (A × Block A)
  unfolding read
  move_from i b = do v ← read b i; some (v, put i moved b)

  -- `_data[i] = std::move(_data[j])`
  unfoldable pub assign_move : ℕ → ℕ → Block A → Option (Block A)
  unfolding move_from
  assign_move i j b = do
    (v, b') ← move_from j b
    _ ← in_block i b'
    _ ← is_object (b'.cell i)
    some (put i (live v) b')

  -- `construct_at(_data + i, std::move(_data[j]))`. An object cannot be built from itself: its
  -- storage is reused before the constructor reads it.
  unfoldable pub construct_move : ℕ → ℕ → Block A → Option (Block A)
  unfolding move_from construct_at
  construct_move i j b = if i == j then none else do (v, b') ← move_from j b; construct_at i v b'

  -- `construct_n(_data + i, n, v)`
  unfoldable pub construct_n : ℕ → ℕ → A → Block A → Option (Block A)
  unfolding construct_at
  construct_n zero i v b = some b
  construct_n (suc n) i v b = construct_at i v b >>= construct_n n (i + 1) v

  -- `copy_construct_n(src, n, dest)` from index `i` on
  unfoldable pub copy_loop : ℕ → ℕ → Block A → Block A → Option (Block A)
  unfolding read construct_at
  copy_loop zero i src dest = some dest
  copy_loop (suc n) i src dest = do
    v ← read src i
    dest' ← construct_at i v dest
    copy_loop n (i + 1) src dest'

  -- `destroy_range(i, i + n)`
  unfoldable pub destroy_loop : ℕ → ℕ → Block A → Option (Block A)
  unfolding destroy_at
  destroy_loop zero i b = some b
  destroy_loop (suc n) i b = destroy_at i b >>= destroy_loop n (i + 1)

  -- The loop of `reserve`, from index `i` on.
  unfoldable pub move_loop : ℕ → ℕ → Block A → Block A → Option (Block A × Block A)
  unfolding move_from construct_at
  move_loop zero i old fresh = some (old, fresh)
  move_loop (suc n) i old fresh = do
    (v, old') ← move_from i old
    fresh' ← construct_at i v fresh
    move_loop n (i + 1) old' fresh'

  -- The loop of `insert`: `n` rounds for `i` from `idx + n` down to `idx + 1`.
  unfoldable pub shift_up : ℕ → ℕ → ℕ → Block A → Option (Block A)
  unfolding assign_move construct_move
  shift_up zero idx size b = some b
  shift_up (suc n) idx size b = do
    let i = idx + suc n
    b' ← if ltb i size then assign_move i (i - 1) b else construct_move i (i - 1) b
    shift_up n idx size b'

  -- The loops of `erase`: `n` rounds from `i` on, each over a distance of `d`.
  unfoldable pub shift_down : ℕ → ℕ → ℕ → Block A → Option (Block A)
  unfolding construct_move
  shift_down zero i d b = some b
  shift_down (suc n) i d b = construct_move i (i + d) b >>= shift_down n (i + 1) d
