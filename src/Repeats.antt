-- ===== src/Repeats.antt =====
-- What include/ycetl/unordered_multiset.hpp and unordered_multimap.hpp share: the tables of Probe in
-- which keys repeat. `rehash` and `maybe_grow` are those of Probe, written out again in the source.
-- An iterator is the index of its slot, and `end()` the number of slots; the iterators of
-- include/ycetl/unordered_set.hpp are the same.
pub mod Erasing
pub mod Iterating
pub mod Lookup
pub mod Rehash
pub mod Inserting
use ycetl.Rounds.{modulo}
use ycetl.Size.{add_size, sub_size}
use ycetl.Base.{
  ℕ, zero, suc, ◌+◌, ◌-◌, Bool, true, false, List, map, Option, none, some, ◌==◌, if◌then◌else◌,
  ◌>>=◌, length, get_elem?, write,
}
use ycetl.Probe.{
  Hashed, Slot, Table, empty, filled, tombstone, is_filled, is_empty, matches, fill, maybe_grow,
}

module _ {E : Type 0} where
  -- `advance_to_filled`, by the slots left.
  unfoldable pub advance_to_filled : (rounds i : ℕ) → List (Slot E) → Option ℕ
  advance_to_filled zero i slots = some i
  advance_to_filled (suc rounds) i slots = do
    s ← get_elem? slots i
    elim (is_filled s.state) [ true ↦ some i | false ↦ advance_to_filled rounds (i + 1) slots ]

  -- `basic_iter(this, i)`
  unfoldable pub iterator : ℕ → Table E → Option ℕ
  unfolding advance_to_filled
  iterator i t = advance_to_filled (length t.slots - i) i t.slots

  unfoldable pub increment : ℕ → Table E → Option ℕ
  unfolding iterator
  increment i t = iterator (i + 1) t

  unfoldable pub clear : Table E → Table E
  clear t = record { slots = map (λ (s : Slot E). record s { state = empty }) t.slots; size = 0 }

module _ {K E : Type 0} ⦃o : Hashed K⦄ (key : E → K) where
  -- The loop of `find`, from probe `p` on; `contains` runs the same loop.
  unfoldable pub find_loop : K → List (Slot E) → (h rounds p : ℕ) → Option ℕ
  find_loop k slots h zero p = some (length slots)
  find_loop k slots h (suc rounds) p = do
    i ← modulo (add_size h p) (length slots)
    s ← get_elem? slots i
    elim (is_empty s.state) [
      | true ↦ some (length slots)
      | false ↦ elim (matches key k s) [
        | true ↦ some i
        | false ↦ find_loop k slots h rounds (p + 1)
      ]
    ]

  unfoldable pub find : K → Table E → Option ℕ
  unfolding find_loop iterator
  find k t =
      if length t.slots == 0
      then some (length t.slots)
      else modulo (o.hash k) (length t.slots)
        >>= (λ h. find_loop k t.slots h (length t.slots) 0)
        >>= (λ i. iterator i t)

  unfoldable pub contains_loop : K → List (Slot E) → (h rounds p : ℕ) → Option Bool
  contains_loop k slots h zero p = some false
  contains_loop k slots h (suc rounds) p = do
    i ← modulo (add_size h p) (length slots)
    s ← get_elem? slots i
    elim (is_empty s.state) [
      | true ↦ some false
      | false ↦ elim (matches key k s) [
        | true ↦ some true
        | false ↦ contains_loop k slots h rounds (p + 1)
      ]
    ]

  unfoldable pub contains : K → Table E → Option Bool
  unfolding contains_loop
  contains k t =
      if length t.slots == 0
      then some false
      else modulo (o.hash k) (length t.slots)
        >>= (λ h. contains_loop k t.slots h (length t.slots) 0)

  unfoldable pub count_loop : K → List (Slot E) → (h rounds p c : ℕ) → Option ℕ
  count_loop k slots h zero p c = some c
  count_loop k slots h (suc rounds) p c = do
    i ← modulo (add_size h p) (length slots)
    s ← get_elem? slots i
    elim (is_empty s.state) [
      | true ↦ some c
      | false ↦ count_loop k slots h rounds (p + 1) (if matches key k s then add_size c 1 else c)
    ]

  unfoldable pub count : K → Table E → Option ℕ
  unfolding count_loop
  count k t =
      if length t.slots == 0
      then some 0
      else modulo (o.hash k) (length t.slots) >>= (λ h. count_loop k t.slots h (length t.slots) 0 0)

  -- The loop of `insert_impl`: the first slot that is not filled, or `end()` after the loop.
  unfoldable pub free_loop : List (Slot E) → (h rounds p : ℕ) → Option ℕ
  free_loop slots h zero p = some (length slots)
  free_loop slots h (suc rounds) p = do
    i ← modulo (add_size h p) (length slots)
    s ← get_elem? slots i
    elim (is_filled s.state) [ false ↦ some i | true ↦ free_loop slots h rounds (p + 1) ]

  -- With the iterator; `blank` is the entry of a new slot.
  unfoldable pub insert : E → E → Table E → Option (Table E × ℕ)
  insert blank e t = do
    t' ← maybe_grow key blank t
    h ← modulo (o.hash (key e)) (length t'.slots)
    i ← free_loop t'.slots h (length t'.slots) 0
    elim (i == length t'.slots) [
      | true ↦ some (t', length t'.slots)
      | false ↦ do t'' ← fill key i e t'; j ← iterator i t''; some (t'', j)
    ]

  -- With the variable `removed`.
  unfoldable pub erase_loop :
      K → List (Slot E) → (h rounds p removed : ℕ) → Option (List (Slot E) × ℕ)
  erase_loop k slots h zero p removed = some (slots, removed)
  erase_loop k slots h (suc rounds) p removed = do
    i ← modulo (add_size h p) (length slots)
    s ← get_elem? slots i
    elim (is_empty s.state) [
      | true ↦ some (slots, removed)
      | false ↦ elim (matches key k s) [
        | true ↦
            write slots i (record s { state = tombstone })
            >>= (λ slots'. erase_loop k slots' h rounds (p + 1) (add_size removed 1))
        | false ↦ erase_loop k slots h rounds (p + 1) removed
      ]
    ]

  unfoldable pub erase : K → Table E → Option (Table E × ℕ)
  unfolding erase_loop
  erase k t = if length t.slots == 0 then some (t, 0) else do
    h ← modulo (o.hash k) (length t.slots)
    (slots, removed) ← erase_loop k t.slots h (length t.slots) 0 0
    some (record { slots = slots; size = sub_size t.size removed }, removed)
