-- ===== src/Multimap/Laws.antt =====
-- The sorted storage of include/ycetl/multimap.hpp is a map from keys to sequences of pairs.
use ycetl.Base.{
  ℕ, ◌-◌, ◌≡◌, refl, ◌∙◌, sym, ap, true, false, ◌⊎◌, inl, inr, List, [], ◌∷◌, some, arith, ◌>>=◌,
  Returns, length, get_elem?, lt_of_get_elem?,
}
use ycetl.Order.{Order}
use ycetl.Sequence.{insert_at, get_elem?-insert_at, remove_range}
use ycetl.Flat.Shift.{erase_run-eq}
use ycetl.Flat.Runs
use ycetl.Flat.Runs.{run}
use ycetl.Flat.Groups
use ycetl.Flat.Groups.{insert_at-Appends, remove_range-Clears, matching-run, bounds, hit_cases}
use ycetl.Multimap.{Multimap, find, contains, count, equal_range, insert, erase}

module _ {K V : Type 0} ⦃o : Order K⦄ where
  abbrev pub key : K × V → K
  key e = e.0

  abbrev pub IsOrdered : Multimap K V → Type 0
  IsOrdered xs = Runs.IsOrdered key xs

  -- The reference definition of the pairs under a key: a scan for equivalent keys.
  unfoldable pub matching : K → Multimap K V → List (K × V)
  matching q xs = Runs.matching key q xs

  -- `insert` of a pair: the keys stay in order, the pair comes last under its key, the other keys
  -- have the pairs they had, and the iterator points at the new pair.
  pub record Appends (k : K) (v : V) (xs : Multimap K V) (r : Multimap K V × ℕ) : Type 0 where
    pub grouped : Groups.Appends key (k, v) xs r.0
    pub iterator : get_elem? r.0 r.1 ≡ some (k, v)

  -- `erase` of a key: the keys stay in order, the key has no pair, the other keys have the pairs
  -- they had, and the result is the number of pairs that the key had.
  pub record Clears (k : K) (xs : Multimap K V) (r : Multimap K V × ℕ) : Type 0 where
    pub grouped : Groups.Clears key k xs r.0
    pub removed : r.1 ≡ length (matching k xs)

  -- On keys in order, `insert` returns; the keys stay in order, the new pair comes last among the
  -- pairs under its key, the other keys keep theirs in their order, and the iterator points at the
  -- pair.
  pub insert-Appends :
      (k : K) (v : V) (xs : Multimap K V) → IsOrdered xs → Returns (insert k v xs) (Appends k v xs)
  unfolding insert
  insert-Appends k v xs ordered =
      let (lo, hi, b) = bounds key k xs ordered in
      (
        (insert_at hi (k, v) xs, hi),
        rw b.upper refl,
        record {
          grouped = insert_at-Appends key xs ordered hi (k, v) b.up;
          iterator = get_elem?-insert_at hi (k, v) xs hi b.up.bound ∙ ground arith;
        },
      )

  -- On keys in order, `erase` returns; the keys stay in order, no pair is left under the key, the
  -- other keys keep theirs in their order, and the result is the number of pairs that a scan finds.
  pub erase-Clears : (k : K) (xs : Multimap K V) → IsOrdered xs → Returns (erase k xs) (Clears k xs)
  unfolding erase matching
  erase-Clears k xs ordered =
      let (lo, hi, b) = bounds key k xs ordered in
      (
        (remove_range lo hi xs, hi - lo),
        rw (b.lower, b.upper, ◌>>=◌) (erase_run-eq lo hi xs b.le b.up.bound),
        record {
          grouped = remove_range-Clears key xs ordered k lo hi b.low b.up;
          removed = omega (arith, b.size);
        },
      )

  -- On keys in order, `find` returns an iterator to the first of the pairs under the key, or
  -- `end()` when a scan finds none; `contains` says which.
  pub find-matching :
      (k : K) (xs : Multimap K V)
      → IsOrdered xs
      → Returns (find k xs) λ i.
        ((e : K × V) × (rest : List (K × V)) × (matching k xs ≡ e ∷ rest)
          × (get_elem? xs i ≡ some e)
          × (contains k xs ≡ some true))
        ⊎ ((matching k xs ≡ []) × (i ≡ length xs) × (contains k xs ≡ some false))
  unfolding find contains matching
  find-matching k xs ordered =
      let (lo, hi, b) = bounds key k xs ordered in
      elim (hit_cases key k xs ordered lo hi b) [
        | inl (e, rest, is, at, found) ↦ (
          lo,
          rw (b.lower, ◌>>=◌, found),
          inl (
            e,
            rest,
            is,
            at,
            rw (b.lower, ◌>>=◌, found) (ground (arith, lt_of_get_elem? xs lo at)),
          ),
        )
        | inr (none_there, missed) ↦ (
          length xs,
          rw (b.lower, ◌>>=◌, missed),
          inr (none_there, refl, rw (b.lower, ◌>>=◌, missed) (ground arith)),
        )
      ]

  -- On keys in order, the range that `equal_range` returns holds exactly the pairs under the key,
  -- in their order, and `count` returns their number.
  pub equal_range-matching :
      (k : K) (xs : Multimap K V)
      → IsOrdered xs
      → Returns
          (equal_range k xs)
          λ r. (run r.0 r.1 xs ≡ matching k xs) × (count k xs ≡ some (length (matching k xs)))
  unfolding equal_range count matching
  equal_range-matching k xs ordered =
      let (lo, hi, b) = bounds key k xs ordered in
      let many : hi - lo ≡ length (Runs.matching key k xs) = omega (arith, b.size) in
      (
        (lo, hi),
        rw (b.lower, b.upper) refl,
        (
          sym (matching-run key xs ordered k lo hi b.low b.up),
          rw (b.lower, b.upper) (ap some many),
        ),
      )
