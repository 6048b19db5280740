-- ===== src/Repeats/Iterating.antt =====
-- The iterators of include/ycetl/unordered_multiset.hpp and of the other tables: what a loop from
-- `begin()` to `end()` sees.
use ycetl.Base.{
  ℕ, zero, suc, ◌+◌, ◌-◌, ◌≤◌, ◌≡◌, refl, ◌∙◌, ap, true, false, List, [], ◌∷◌, Option, none, some,
  arith, ◌==◌, if◌then◌else◌, ◌>>=◌, Returns, get_elem?, length, Bool-cases, inl, inr,
}
use ycetl.Probe.{Slot, Table, is_filled}
use ycetl.Repeats.{advance_to_filled, iterator, increment}

module _ {E : Type 0} where
  -- `for (auto it = ...; it != end(); ++it)`, with the entries that `*it` gives; more rounds than
  -- the number says are a fault.
  unfoldable pub walk : (rounds i : ℕ) → Table E → Option (List E)
  walk zero i t = none
  walk (suc rounds) i t = elim (i == length t.slots) [
    | true ↦ some []
    | false ↦ do
      s ← get_elem? t.slots i
      j ← increment i t
      rest ← walk rounds j t
      some (s.entry ∷ rest)
  ]

  -- The entries of the filled slots, from the first slot to the last.
  unfoldable pub entries : List (Slot E) → List E
  entries [] = []
  entries (s ∷ slots) = if is_filled s.state then s.entry ∷ entries slots else entries slots

  walk-step :
      (t : Table E) (s : Slot E) (outs : List E) (rounds i j : ℕ)
      → (i == length t.slots) ≡ false
      → get_elem? t.slots i ≡ some s
      → increment i t ≡ some j
      → walk rounds j t ≡ some outs
      → walk (suc rounds) i t ≡ some (s.entry ∷ outs)
  unfolding walk
  walk-step t s outs rounds i j more here step rest = rw (walk, more, here, ◌>>=◌, step, rest) refl

  -- From an index on, where the slots left are `rest`.
  walk-rest :
      (t : Table E) (rest : List (Slot E)) (rounds i : ℕ)
      → i + length rest ≡ length t.slots
      → ((j : ℕ) → get_elem? t.slots (i + j) ≡ get_elem? rest j)
      → length rest ≤ rounds
      → Returns
          (advance_to_filled (length rest) i t.slots)
          (λ j. walk (suc rounds) j t ≡ some (entries rest))
  unfolding walk entries advance_to_filled increment iterator
  walk-rest t [] rounds i end at le =
      let last : (i == length t.slots) ≡ true = ground arith in (i, refl, rw (walk, last) refl)
  walk-rest t (s ∷ rest) zero i end at le = absurd (omega arith)
  walk-rest t (s ∷ rest) (suc rounds) i end at le =
      let here : get_elem? t.slots i ≡ some s = ap (get_elem? t.slots) (omega arith) ∙ at 0 in
      let next : (j : ℕ) → get_elem? t.slots (i + 1 + j) ≡ get_elem? rest j =
        λ j. ap (get_elem? t.slots) (omega arith) ∙ at (suc j) in
      elim (Bool-cases (is_filled s.state)) [
        | inl full ↦
            let (j, step, outs) =
              walk-rest t rest rounds (i + 1) (omega arith) next (omega arith) in
            let left : length t.slots - (i + 1) ≡ length rest = omega arith in
            let more : (i == length t.slots) ≡ false = ground arith in
            (
              i,
              rw (here, ◌>>=◌, full) refl,
              walk-step t s (entries rest) (suc rounds) i j more here
                    (ap (λ n. advance_to_filled n (i + 1) t.slots) left ∙ step) outs
                  ∙ rw full refl,
            )
        | inr other ↦
            rw (here, ◌>>=◌, other)
              (walk-rest t rest (suc rounds) (i + 1) (omega arith) next (omega arith))
      ]

  -- On any table, a loop with `++` from `begin()` on meets `end()` after as many steps as there are
  -- filled slots, at most as many as there are slots, and does not fault; it sees the entries of
  -- the filled slots, each once and in their order.
  pub walk-entries :
      (t : Table E)
      → Returns (iterator 0 t) (λ i. walk (suc (length t.slots)) i t ≡ some (entries t.slots))
  unfolding iterator
  walk-entries t =
      let all : length t.slots - 0 ≡ length t.slots = omega arith in
      rw all (
        walk-rest t t.slots (length t.slots) 0 (omega arith)
          (λ j. ap (get_elem? t.slots) (omega arith)) (omega arith))
