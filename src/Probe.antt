-- ===== src/Probe.antt =====
-- What include/ycetl/unordered_map.hpp and unordered_set.hpp share: open addressing with linear
-- probes and tombstones. An entry is a pair in a map and a key in a set; `key` takes its key.
pub mod Scan
pub mod Valid
pub mod Seek
pub mod Change
pub mod Laws
pub mod Inserting
pub mod Erasing
pub mod Reassign
pub mod Place
pub mod Replace
pub mod Rehash
pub mod Growth
use ycetl.Rounds.{modulo}
use ycetl.Size.{add_size, sub_size, mul_size, npos}
use ycetl.Base.{
  ℕ, zero, suc, ◌+◌, ◌%◌, Bool, true, false, ◌&&◌, ◌≡◌, List, [], ◌∷◌, Option, none, some, ◌==◌,
  ltb, if◌then◌else◌, ◌>>=◌, length, get_elem?, write, replicate,
}

-- The template parameters `Hash` and `KeyEqual`, with what a table asks of them.
pub record Hashed (K : Type 0) : Type 0 where
  pub hash : K → ℕ
  pub equal : K → K → Bool
  pub equal_refl : (a : K) → equal a a ≡ true
  pub equal_symm : (a b : K) → equal a b ≡ true → equal b a ≡ true
  pub equal_trans : (a b c : K) → equal a b ≡ true → equal b c ≡ true → equal a c ≡ true
  pub hash_equal : (a b : K) → equal a b ≡ true → hash a ≡ hash b

pub data SlotState : Type 0 where
  empty : SlotState
  filled : SlotState
  tombstone : SlotState

pub record Slot (E : Type 0) : Type 0 where
  pub state : SlotState
  pub entry : E

-- The members `_slots` and `_size`.
pub record Table (E : Type 0) : Type 0 where
  pub slots : List (Slot E)
  pub size : ℕ

abbrev pub is_filled : SlotState → Bool
is_filled empty = false
is_filled filled = true
is_filled tombstone = false

abbrev pub is_empty : SlotState → Bool
is_empty empty = true
is_empty filled = false
is_empty tombstone = false

-- Where a probe for a key to insert ends: at the key, at a slot to fill, or nowhere.
pub data Stop : Type 0 where
  at_key : ℕ → Stop
  at_slot : ℕ → Stop
  nowhere : Stop

abbrev pub initial_capacity : ℕ
initial_capacity = 8

abbrev pub max_load_pct : ℕ
max_load_pct = 70

module _ {K E : Type 0} ⦃o : Hashed K⦄ (key : E → K) where
  -- `_eq(s.kv.first, k)` at a filled slot
  abbrev pub matches : K → Slot E → Bool
  matches k s = is_filled s.state && o.equal (key s.entry) k

  -- The loop of `find_slot`, from `probe` on.
  unfoldable pub find_loop : K → List (Slot E) → (h rounds probe : ℕ) → Option ℕ
  find_loop k slots h zero probe = some npos
  find_loop k slots h (suc rounds) probe = do
    i ← modulo (add_size h probe) (length slots)
    s ← get_elem? slots i
    elim (is_empty s.state) [
      | true ↦ some npos
      | false ↦ elim (matches k s) [
        | true ↦ some i
        | false ↦ find_loop k slots h rounds (probe + 1)
      ]
    ]

  unfoldable pub find_slot : K → Table E → Option ℕ
  unfolding find_loop
  find_slot k t =
      if length t.slots == 0
      then some npos
      else modulo (o.hash k) (length t.slots) >>= (λ h. find_loop k t.slots h (length t.slots) 0)

  -- The loop that `insert_slot` and `insert_or_assign` share, from `probe` on, with the variable
  -- `first_tombstone`.
  unfoldable pub seek : K → List (Slot E) → (h first rounds probe : ℕ) → Option Stop
  seek k slots h first zero probe = some nowhere
  seek k slots h first (suc rounds) probe = do
    i ← modulo (add_size h probe) (length slots)
    s ← get_elem? slots i
    let first' = if first == npos then i else first
    elim s.state [
      | empty ↦ some (at_slot first')
      | tombstone ↦ seek k slots h first' rounds (probe + 1)
      | filled ↦ elim (o.equal (key s.entry) k) [
        | true ↦ some (at_key i)
        | false ↦ seek k slots h first rounds (probe + 1)
      ]
    ]

  -- The loop with its start, the home of the key.
  unfoldable pub seek_key : K → Table E → Option Stop
  unfolding seek
  seek_key k t = do h ← modulo (o.hash k) (length t.slots); seek k t.slots h npos (length t.slots) 0

  -- `_slots[i].kv = v`, `_slots[i].state = filled` and `++_size`
  unfoldable pub fill : ℕ → E → Table E → Option (Table E)
  fill i e t = do
    slots ← write t.slots i (record { state = filled; entry = e })
    some (record { slots = slots; size = add_size t.size 1 })

  -- The table, the index and whether the entry was inserted.
  unfoldable pub insert_slot : E → Table E → Option (Table E × ℕ × Bool)
  unfolding seek_key fill
  insert_slot e t = do
    stop ← seek_key (key e) t
    elim stop [
      | at_key i ↦ some (t, i, false)
      | at_slot i ↦ fill i e t >>= (λ t'. some (t', i, true))
      | nowhere ↦ some (t, npos, false)
    ]

  -- The inner loop of `rehash`: the first empty slot from `probe` on is filled, if there is one.
  unfoldable pub place : E → List (Slot E) → (h rounds probe : ℕ) → Option (List (Slot E))
  place e slots h zero probe = some slots
  place e slots h (suc rounds) probe = do
    j ← modulo (add_size h probe) (length slots)
    s ← get_elem? slots j
    elim (is_empty s.state) [
      | true ↦ write slots j (record { state = filled; entry = e })
      | false ↦ place e slots h rounds (probe + 1)
    ]

  -- The outer loop of `rehash`, over the old slots from first to last.
  unfoldable pub replace_all : List (Slot E) → List (Slot E) → Option (List (Slot E))
  unfolding place
  replace_all [] slots = some slots
  replace_all (s ∷ old) slots = do
    slots' ←
        if is_filled s.state
        then modulo (o.hash (key s.entry)) (length slots)
          >>= (λ h. place s.entry slots h (length slots) 0)
        else some slots
    replace_all old slots'

  -- `blank` is the value-initialised entry of a new slot.
  unfoldable pub fresh : E → ℕ → List (Slot E)
  fresh blank n = replicate n (record { state = empty; entry = blank })

  unfoldable pub rehash : E → ℕ → Table E → Option (Table E)
  unfolding replace_all fresh
  rehash blank new_cap t = do
    slots ← replace_all t.slots (fresh blank new_cap)
    some (record t { slots = slots })

  unfoldable pub maybe_grow : E → Table E → Option (Table E)
  unfolding rehash fresh
  maybe_grow blank t =
      let cap = length t.slots in
      if cap == 0
      then some (record t { slots = fresh blank initial_capacity })
      else if ltb (mul_size cap max_load_pct) (mul_size (add_size t.size 1) 100)
      then rehash blank (mul_size cap 2) t
      else some t

  unfoldable pub insert : E → E → Table E → Option (Table E × ℕ × Bool)
  unfolding maybe_grow insert_slot
  insert blank e t = do t' ← maybe_grow blank t; insert_slot e t'

  unfoldable pub contains : K → Table E → Option Bool
  unfolding find_slot
  contains k t = do i ← find_slot k t; some (if i == npos then false else true)

  -- `_slots[i].state = tombstone` and `--_size`; with the number of keys removed.
  unfoldable pub erase : K → Table E → Option (Table E × ℕ)
  unfolding find_slot
  erase k t = do
    i ← find_slot k t
    elim (i == npos) [
      | true ↦ some (t, 0)
      | false ↦ do
        s ← get_elem? t.slots i
        slots ← write t.slots i (record s { state = tombstone })
        some (record { slots = slots; size = sub_size t.size 1 }, 1)
    ]
