-- ===== src/Hive.antt =====
-- `hive` of include/ycetl/hive.hpp: slots that are filled or empty, and a stack of the indices of the
-- empty ones. `blank` is the value-initialised `T{}` of a new slot; an iterator is the index of its
-- slot.
pub mod Laws
pub mod Vacating
use ycetl.Base.{
  ℕ, zero, suc, ◌+◌, ◌-◌, Bool, true, false, List, [], ◌∷◌, ◌++◌, Option, none, some, ◌==◌, ltb,
  if◌then◌else◌, ◌>>=◌, length, get_elem?, write, replicate, take,
}
use ycetl.Flat.{drop_last}
use ycetl.Size.{add_size, sub_size}

pub data SlotState : Type 0 where
  empty : SlotState
  filled : SlotState

pub record Slot (A : Type 0) : Type 0 where
  pub state : SlotState
  pub value : A

pub record Hive (A : Type 0) : Type 0 where
  pub slots : List (Slot A)
  pub free : List ℕ
  pub size : ℕ

abbrev pub is_filled : SlotState → Bool
is_filled empty = false
is_filled filled = true

-- `for (i = old; i < n; ++i) _free.push_back(i)`, by the rounds left
unfoldable pub push_free : (rounds i : ℕ) → List ℕ → List ℕ
push_free zero i free = free
push_free (suc rounds) i free = push_free rounds (i + 1) (free ++ i ∷ [])

module _ {A : Type 0} where
  abbrev pub new : Hive A
  new = record { slots = []; free = []; size = 0 }

  unfoldable pub reserve : A → ℕ → Hive A → Hive A
  unfolding push_free
  reserve blank n h =
      let old = length h.slots in
      let grown : Hive A = record {
        slots = h.slots ++ replicate (n - old) (record { state = empty; value = blank });
        free = push_free (n - old) old h.free;
        size = h.size;
      } in
      if ltb old n then grown else h

  unfoldable pub clear : Hive A → Hive A
  clear h = new

  -- `while (_i < _slots.size() && _slots[_i].state != filled) ++_i;`, by the slots left
  unfoldable pub advance_to_filled : (rounds i : ℕ) → List (Slot A) → Option ℕ
  advance_to_filled zero i slots = some i
  advance_to_filled (suc rounds) i slots = do
    s ← get_elem? slots i
    elim (is_filled s.state) [ true ↦ some i | false ↦ advance_to_filled rounds (i + 1) slots ]

  -- `basic_iter(h, i)`
  unfoldable pub iterator : ℕ → Hive A → Option ℕ
  unfolding advance_to_filled
  iterator i h = advance_to_filled (length h.slots - i) i h.slots

  unfoldable pub begin : Hive A → Option ℕ
  unfolding iterator
  begin h = iterator 0 h

  unfoldable pub increment : ℕ → Hive A → Option ℕ
  unfolding iterator
  increment i h = iterator (i + 1) h

  -- The part of `insert` that takes a slot off the stack.
  unfoldable pub recycle : A → Hive A → Option (Hive A × ℕ)
  unfolding drop_last
  recycle v h = do
    idx ← get_elem? h.free (length h.free - 1)
    free ← drop_last h.free
    slots ← write h.slots idx (record { state = filled; value = v })
    let h' : Hive A = record { slots = slots; free = free; size = add_size h.size 1 }
    some (h', idx)

  -- With the index of the new element.
  unfoldable pub insert : A → Hive A → Option (Hive A × ℕ)
  unfolding recycle iterator
  insert v h =
      let appended : Hive A = record {
        slots = h.slots ++ record { state = filled; value = v } ∷ [];
        free = h.free;
        size = add_size h.size 1;
      } in
      let placed = if ltb 0 (length h.free) then recycle v h else some (appended, length h.slots) in
      placed >>= (λ r. iterator r.1 r.0 >>= (λ i. some (r.0, i)))

  -- With the iterator to the next element.
  unfoldable pub erase : ℕ → Hive A → Option (Hive A × ℕ)
  unfolding iterator
  erase idx h = do
    s ← get_elem? h.slots idx
    slots ← write h.slots idx (record { state = empty; value = s.value })
    let h' : Hive A = record { slots = slots; free = h.free ++ idx ∷ []; size = sub_size h.size 1 }
    i ← iterator (idx + 1) h'
    some (h', i)
