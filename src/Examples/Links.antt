-- ===== src/Examples/Links.antt =====
-- Runs of include/ycetl/list.hpp on a list of two nodes.
use ycetl.Base.{
  ℕ, zero, suc, ◌+◌, ◌<◌, ◌≡◌, ◌≢◌, refl, [], ◌∷◌, none, some, arith, ◌>>=◌, Returns, get_elem?,
}
use ycetl.Sequence.{insert_at, remove_range}
use ycetl.LinkedList.{
  LinkedList, Memory, node, insert, erase, copy, copy_assign, from_list, emplace_back, forward,
  value_at, pop_front,
}
use ycetl.LinkedList.Cells.{Cells, same_cell, at, before, Holds}
use ycetl.LinkedList.Middle.{insert-Holds}
use ycetl.LinkedList.Ends.{erase-Holds}
use ycetl.LinkedList.Copying.{values, copy-values}
use ycetl.LinkedList.RoundTrip.{erase-insert}

abbrev cells : Cells ℕ
cells = (0, 7) ∷ (1, 8) ∷ []

abbrev nodes : Memory ℕ
nodes zero = some (node none (some 1) 7)
nodes (suc zero) = some (node (some 0) none 8)
nodes (suc (suc a)) = none

abbrev pair : LinkedList ℕ
pair = record { memory = nodes; used = 2; head = some 0; tail = some 1; size = 2 }

nodes-cells :
    (i a : ℕ) (v : ℕ)
    → get_elem? cells i ≡ some (a, v)
    → nodes a ≡ some (node (before cells i) (at cells (i + 1)) v)
unfolding at before
nodes-cells zero a v e = let (here, value) = same_cell 0 a 7 v e in rw (← here, ← value) refl
nodes-cells (suc zero) a v e = let (here, value) = same_cell 1 a 8 v e in rw (← here, ← value) refl
nodes-cells (suc (suc i)) a v e = absurd (cc e)

pair-Holds : Holds cells pair
unfolding at before
pair-Holds = record {
  nodes = nodes-cells;
  head = refl;
  tail = refl;
  size = refl;
  distinct = distinct;
  owned = owned;
  below = below;
}
  where
    distinct :
        (i j a : ℕ) (v w : ℕ)
        → get_elem? cells i ≡ some (a, v)
        → get_elem? cells j ≡ some (a, w)
        → i ≡ j
    distinct zero zero a v w e f = refl
    distinct zero (suc zero) a v w e f =
        absurd (omega (arith, (same_cell 0 a 7 v e).0, (same_cell 1 a 8 w f).0))
    distinct zero (suc (suc j)) a v w e f = absurd (cc f)
    distinct (suc zero) zero a v w e f =
        absurd (omega (arith, (same_cell 1 a 8 v e).0, (same_cell 0 a 7 w f).0))
    distinct (suc zero) (suc zero) a v w e f = refl
    distinct (suc zero) (suc (suc j)) a v w e f = absurd (cc f)
    distinct (suc (suc i)) j a v w e f = absurd (cc e)

    owned : (a : ℕ) → nodes a ≢ none → (i : ℕ) × (v : ℕ) × (get_elem? cells i ≡ some (a, v))
    owned zero live = (0, 7, refl)
    owned (suc zero) live = (1, 8, refl)
    owned (suc (suc a)) live = absurd (live refl)

    below : (i a : ℕ) (v : ℕ) → get_elem? cells i ≡ some (a, v) → a < 2
    below zero a v e = omega (arith, (same_cell 0 a 7 v e).0)
    below (suc zero) a v e = omega (arith, (same_cell 1 a 8 v e).0)
    below (suc (suc i)) a v e = absurd (cc e)

insert-Holds_example :
    Returns
      (insert (at cells 1) 9 pair)
      λ r. Holds (insert_at 1 (2, 9) cells) r.0 × (at (insert_at 1 (2, 9) cells) 1 ≡ r.1)
insert-Holds_example = insert-Holds cells 1 9 pair pair-Holds (omega arith) (omega arith)

erase-Holds_example :
    Returns
      (erase (at cells 0) pair)
      λ r. Holds (remove_range 0 (0 + 1) cells) r.0 × (r.1 ≡ at (remove_range 0 (0 + 1) cells) 0)
erase-Holds_example = erase-Holds cells pair pair-Holds (omega arith) 0 (omega arith)

copy-values_example :
    Returns (copy pair) (λ m. (es : Cells ℕ) × Holds es m × (values es ≡ 7 ∷ 8 ∷ []))
    × Returns (copy_assign pair pair) (λ m. (es : Cells ℕ) × Holds es m × (values es ≡ 7 ∷ 8 ∷ []))
copy-values_example = copy-values cells cells pair pair pair-Holds pair-Holds (omega arith)

erase-insert_example :
    Returns
      (insert (at cells 1) 9 pair >>= (λ r. erase r.1 r.0))
      (λ r. Holds cells r.0 × (r.1 ≡ at cells 1))
erase-insert_example = erase-insert cells 1 9 pair pair-Holds (omega arith) (omega arith)

-- The constructor from three values, and the second of them in front after a `pop_front`.
second :
    from_list (4 ∷ 5 ∷ 6 ∷ []) >>= pop_front >>= (λ (l : LinkedList ℕ). value_at l.head l) ≡ some 5
unfolding from_list emplace_back forward pop_front value_at
second = refl
