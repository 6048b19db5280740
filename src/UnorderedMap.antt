-- ===== src/UnorderedMap.antt =====
-- `unordered_map` of include/ycetl/unordered_map.hpp: the tables of Probe with pairs as entries.
pub mod Laws
pub mod Assign
use ycetl.Base.{
  ℕ, zero, suc, ◌+◌, ◌-◌, Bool, true, false, List, map, Option, none, some, ◌>>=◌, length,
  get_elem?, write,
}
use ycetl.Probe.{
  Hashed, Slot, Table, at_key, at_slot, nowhere, empty, is_filled, seek_key, fill, maybe_grow,
}
use ycetl.Probe

abbrev pub UnorderedMap : Type 0 → Type 0 → Type 0
UnorderedMap K V = Table (K × V)

abbrev pub key_of : {K V : Type 0} → K × V → K
key_of e = e.0

-- `_slots[i].kv.second = v`
unfoldable pub assign_second : {K V : Type 0} → ℕ → V → UnorderedMap K V → Option (UnorderedMap K V)
assign_second i v t = do
  s ← get_elem? t.slots i
  slots ← write t.slots i (record s { entry = (s.entry.0, v) })
  some (record t { slots = slots })

-- `_slots[i].state = slot_state::empty`
abbrev pub vacate : {E : Type 0} → Slot E → Slot E
vacate s = record s { state = empty }

unfoldable pub clear : {K V : Type 0} → UnorderedMap K V → UnorderedMap K V
clear t = record { slots = map vacate t.slots; size = 0 }

-- `advance_to_filled` of the iterator, from index `i` on: the first filled slot, or `end()`.
unfoldable pub advance_to_filled : {K V : Type 0} → (rounds i : ℕ) → UnorderedMap K V → Option ℕ
advance_to_filled zero i t = some i
advance_to_filled (suc rounds) i t = do
  s ← get_elem? t.slots i
  elim (is_filled s.state) [ true ↦ some i | false ↦ advance_to_filled rounds (i + 1) t ]

-- `begin()`
unfoldable pub begin : {K V : Type 0} → UnorderedMap K V → Option ℕ
unfolding advance_to_filled
begin t = advance_to_filled (length t.slots) 0 t

-- `++_i; advance_to_filled();`
unfoldable pub increment : {K V : Type 0} → ℕ → UnorderedMap K V → Option ℕ
unfolding advance_to_filled
increment i t = advance_to_filled (length t.slots - (i + 1)) (i + 1) t

module _ {K V : Type 0} ⦃o : Hashed K⦄ (blank : K × V) where
  -- The map, the index and whether the pair was inserted.
  unfoldable pub insert : K → V → UnorderedMap K V → Option (UnorderedMap K V × ℕ × Bool)
  insert k v t = Probe.insert key_of blank (k, v) t

  unfoldable pub insert_or_assign : K → V → UnorderedMap K V → Option (UnorderedMap K V × ℕ × Bool)
  unfolding assign_second
  insert_or_assign k v t = do
    t' ← maybe_grow key_of blank t
    stop ← seek_key key_of k t'
    elim stop [
      | at_key i ↦ assign_second i v t' >>= (λ t''. some (t'', i, false))
      | at_slot i ↦ fill key_of i (k, v) t' >>= (λ t''. some (t'', i, true))
      | nowhere ↦ some (t', length t'.slots, false)
    ]

  -- `operator[]`, with the value read; `blank` has `T{}`.
  unfoldable pub subscript : K → UnorderedMap K V → Option (UnorderedMap K V × V)
  unfolding insert
  subscript k t = do (t', i, _) ← insert k blank.1 t; s ← get_elem? t'.slots i; some (t', s.entry.1)
