-- ===== src/Multiset/Laws.antt =====
-- The sorted storage of include/ycetl/multiset.hpp keeps for each key the sequence of its elements.
use ycetl.Base.{
  ℕ, ◌-◌, ◌≡◌, refl, ◌∙◌, sym, ap, true, false, ◌⊎◌, inl, inr, List, [], ◌∷◌, some, arith, ◌>>=◌,
  Returns, length, get_elem?, lt_of_get_elem?,
}
use ycetl.Order.{Order}
use ycetl.Sequence.{insert_at, get_elem?-insert_at, remove_range}
use ycetl.Flat.Shift.{erase_run-eq}
use ycetl.Flat.Runs
use ycetl.Flat.Runs.{run}
use ycetl.Flat.Groups
use ycetl.Flat.Groups.{insert_at-Appends, remove_range-Clears, matching-run, bounds, hit_cases}
use ycetl.Multiset.{Multiset, find, contains, count, equal_range, insert, erase}

module _ {K : Type 0} ⦃o : Order K⦄ where
  abbrev pub key : K → K
  key k = k

  abbrev pub IsOrdered : Multiset K → Type 0
  IsOrdered xs = Runs.IsOrdered key xs

  -- The reference definition of the elements under a key: a scan for equivalent keys.
  unfoldable pub matching : K → Multiset K → List K
  matching q xs = Runs.matching key q xs

  -- `insert` of an element: the keys stay in order, the element comes last under its key, the other keys
  -- have the elements they had, and the iterator points at the new element.
  pub record Appends (k : K) (xs : Multiset K) (r : Multiset K × ℕ) : Type 0 where
    pub grouped : Groups.Appends key k xs r.0
    pub iterator : get_elem? r.0 r.1 ≡ some k

  -- `erase` of a key: the keys stay in order, the key has no element, the other keys have the elements
  -- they had, and the result is the number of elements that the key had.
  pub record Clears (k : K) (xs : Multiset K) (r : Multiset K × ℕ) : Type 0 where
    pub grouped : Groups.Clears key k xs r.0
    pub removed : r.1 ≡ length (matching k xs)

  -- On keys in order, `insert` returns; the keys stay in order, the new element comes last among
  -- the elements under its key, the other keys keep theirs, and the iterator points at the element.
  pub insert-Appends :
      (k : K) (xs : Multiset K) → IsOrdered xs → Returns (insert k xs) (Appends k xs)
  unfolding insert
  insert-Appends k xs ordered =
      let (lo, hi, b) = bounds key k xs ordered in
      (
        (insert_at hi k xs, hi),
        rw b.upper refl,
        record {
          grouped = insert_at-Appends key xs ordered hi k b.up;
          iterator = get_elem?-insert_at hi k xs hi b.up.bound ∙ ground arith;
        },
      )

  -- On keys in order, `erase` returns; the keys stay in order, no element is left under the key,
  -- the other keys keep theirs, and the result is the number of elements that a scan finds.
  pub erase-Clears : (k : K) (xs : Multiset K) → IsOrdered xs → Returns (erase k xs) (Clears k xs)
  unfolding erase matching
  erase-Clears k xs ordered =
      let (lo, hi, b) = bounds key k xs ordered in
      (
        (remove_range lo hi xs, hi - lo),
        rw (b.lower, b.upper, ◌>>=◌) (erase_run-eq lo hi xs b.le b.up.bound),
        record {
          grouped = remove_range-Clears key xs ordered k lo hi b.low b.up;
          removed = omega (arith, b.size);
        },
      )

  -- On keys in order, `find` returns an iterator to the first of the elements under the key, or
  -- `end()` when a scan finds none; `contains` says which.
  pub find-matching :
      (k : K) (xs : Multiset K)
      → IsOrdered xs
      → Returns (find k xs) λ i.
        ((e : K) × (rest : List K) × (matching k xs ≡ e ∷ rest)
          × (get_elem? xs i ≡ some e)
          × (contains k xs ≡ some true))
        ⊎ ((matching k xs ≡ []) × (i ≡ length xs) × (contains k xs ≡ some false))
  unfolding find contains matching
  find-matching k xs ordered =
      let (lo, hi, b) = bounds key k xs ordered in
      elim (hit_cases key k xs ordered lo hi b) [
        | inl (e, rest, is, at, found) ↦ (
          lo,
          rw (b.lower, ◌>>=◌, found),
          inl (
            e,
            rest,
            is,
            at,
            rw (b.lower, ◌>>=◌, found) (ground (arith, lt_of_get_elem? xs lo at)),
          ),
        )
        | inr (none_there, missed) ↦ (
          length xs,
          rw (b.lower, ◌>>=◌, missed),
          inr (none_there, refl, rw (b.lower, ◌>>=◌, missed) (ground arith)),
        )
      ]

  -- On keys in order, the range that `equal_range` returns holds exactly the elements that a scan
  -- finds under the key, in their order, and `count` returns their number.
  pub equal_range-matching :
      (k : K) (xs : Multiset K)
      → IsOrdered xs
      → Returns
          (equal_range k xs)
          λ r. (run r.0 r.1 xs ≡ matching k xs) × (count k xs ≡ some (length (matching k xs)))
  unfolding equal_range count matching
  equal_range-matching k xs ordered =
      let (lo, hi, b) = bounds key k xs ordered in
      let many : hi - lo ≡ length (Runs.matching key k xs) = omega (arith, b.size) in
      (
        (lo, hi),
        rw (b.lower, b.upper) refl,
        (
          sym (matching-run key xs ordered k lo hi b.low b.up),
          rw (b.lower, b.upper) (ap some many),
        ),
      )
