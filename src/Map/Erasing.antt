-- ===== src/Map/Erasing.antt =====
-- `erase` of include/ycetl/map.hpp.
use ycetl.Base.{
  ℕ, ◌+◌, ◌≡◌, inl, inr, none, arith, if◌then◌else◌, ◌>>=◌, Returns, length, is_some,
  lt_of_get_elem?,
}
use ycetl.Order.{Order, equivalent}
use ycetl.Sequence.{remove_range, length-remove_range}
use ycetl.Flat.Gap.{erase_at-eq}
use ycetl.Flat.Lookup.{lookup-none, lookup_of_get}
use ycetl.Flat.Writes.{remove-IsSorted, lookup-remove}
use ycetl.Flat.Place.{locate}
use ycetl.Map.{Map, at, erase}
use ycetl.Map.Laws.{IsSorted, key, value_of, value_congr}

module _ {K V : Type 0} ⦃o : Order K⦄ where
  -- `erase` removes the pair under the key and no other, and returns how many it removed.
  pub record Forgets (k : K) (xs : Map K V) (r : Map K V × ℕ) : Type 0 where
    pub kept : IsSorted r.0
    pub values : (q : K) → value_of q r.0 ≡ (if equivalent k q then none else value_of q xs)
    pub removed : r.1 ≡ (if is_some (value_of k xs) then 1 else 0)
    pub size : length r.0 + r.1 ≡ length xs

  -- On sorted pairs, `erase` returns; the pairs stay sorted, the key has no value any more and
  -- every other key the value that it had, and the result is the number of pairs removed.
  pub erase-Forgets : (k : K) (xs : Map K V) → IsSorted xs → Returns (erase k xs) (Forgets k xs)
  unfolding erase value_of
  erase-Forgets k xs sorted =
      let (n, run, place, outcome) = locate key k xs sorted in
      elim outcome [
        | inl (e, at, eq, found) ↦
            let lt = lt_of_get_elem? xs n at in
            (
              (remove_range n (n + 1) xs, 1),
              rw (run, ◌>>=◌, found, erase_at-eq n xs lt),
              record {
                kept = remove-IsSorted key xs sorted n lt;
                values = λ q. rw (lookup-remove key xs sorted n e k q at eq) (ground arith);
                removed = rw (lookup_of_get key k xs n e sorted at eq);
                size = omega (arith, length-remove_range n (n + 1) xs (omega arith) (omega arith));
              },
            )
        | inr (absent, found) ↦ (
          (xs, 0),
          rw (run, ◌>>=◌, found),
          record {
            kept = sorted;
            values = λ q. ground (arith, value_congr k q xs, lookup-none key k xs absent);
            removed = rw (lookup-none key k xs absent);
            size = omega arith;
          },
        )
      ]
