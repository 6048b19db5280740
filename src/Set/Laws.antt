-- ===== src/Set/Laws.antt =====
-- The sorted storage of include/ycetl/set.hpp behaves as a mathematical set of keys.
use ycetl.Base.{
  ℕ, ◌+◌, ◌≡◌, refl, ◌∙◌, ap, ◌⊎◌, inl, inr, Bool, true, false, not, ◌&&◌, ◌||◌, some, arith,
  if◌then◌else◌, ◌>>=◌, Returns, length, is_some, get_elem?, lt_of_get_elem?,
}
use ycetl.Order.{Order, equivalent, equivalent_refl}
use ycetl.Sequence.{
  insert_at, length-insert_at, get_elem?-insert_at, remove_range, length-remove_range,
}
use ycetl.Flat.Gap.{erase_at-eq}
use ycetl.Flat.Lookup
use ycetl.Flat.Lookup.{
  lookup, lookup_congr, Absent, Absent-of_lookup, lookup-none, lookup_of_get, hit-equivalent,
  miss-Absent, IsSorted-IsPartitioned, IsPlace,
}
use ycetl.Flat.Writes.{insert_at-IsSorted, lookup-insert_at, remove-IsSorted, lookup-remove}
use ycetl.Flat.Place.{locate}
use ycetl.Set.{Set, find, contains, insert, erase}

module _ {K : Type 0} ⦃o : Order K⦄ where
  abbrev pub key : K → K
  key k = k

  abbrev pub IsSorted : Set K → Type 0
  IsSorted xs = Lookup.IsSorted key xs

  -- The reference definition of membership: a scan for an equivalent key.
  unfoldable pub member : K → Set K → Bool
  member q xs = is_some (lookup key q xs)

  -- `insert` of `k` into `xs`: the keys stay sorted; `k` is added and no other, unless an equivalent
  -- key is there; the result says whether it was added, and its iterator points at the key.
  pub record Inserts (k : K) (xs : Set K) (r : Set K × ℕ × Bool) : Type 0 where
    pub kept : IsSorted r.0
    pub members : (q : K) → member q r.0 ≡ (equivalent k q || member q xs)
    pub added : r.2 ≡ not (member k xs)
    pub size : length r.0 ≡ (if member k xs then length xs else length xs + 1)
    pub iterator : (x : K) × (get_elem? r.0 r.1 ≡ some x) × (equivalent x k ≡ true)

  -- `erase` of `k` from `xs`: the keys stay sorted, `k` is gone and no other key, and the result is
  -- the number of keys removed.
  pub record Erases (k : K) (xs : Set K) (r : Set K × ℕ) : Type 0 where
    pub kept : IsSorted r.0
    pub members : (q : K) → member q r.0 ≡ (member q xs && not (equivalent k q))
    pub removed : r.1 ≡ (if member k xs then 1 else 0)
    pub size : length r.0 + r.1 ≡ length xs

  member-hit :
      (k : K) (xs : Set K) (n : ℕ) (x : K)
      → IsSorted xs
      → get_elem? xs n ≡ some x
      → equivalent x k ≡ true
      → member k xs ≡ true
  unfolding member
  member-hit k xs n x sorted at eq = rw (lookup_of_get key k xs n x sorted at eq)

  member-miss : (k : K) (xs : Set K) → Absent key k xs → member k xs ≡ false
  unfolding member
  member-miss k xs absent = rw (lookup-none key k xs absent)

  -- Equivalent keys are members alike.
  member_congr : (k q : K) (xs : Set K) → equivalent k q ≡ true → member k xs ≡ member q xs
  unfolding member
  member_congr k q xs eq = ap is_some (lookup_congr key k q xs eq)

  member-insert_at :
      (k q : K) (xs : Set K)
      → IsSorted xs
      → (n : ℕ) → IsPlace key k xs n
      → Absent key k xs
      → member q (insert_at n k xs) ≡ (equivalent k q || member q xs)
  unfolding member
  member-insert_at k q xs sorted n place absent =
      rw (lookup-insert_at key xs sorted n k q place absent) (ground arith)

  member-remove :
      (k q : K) (xs : Set K)
      → IsSorted xs
      → (n : ℕ) (x : K) → get_elem? xs n ≡ some x
      → equivalent x k ≡ true
      → member q (remove_range n (n + 1) xs) ≡ (member q xs && not (equivalent k q))
  unfolding member
  member-remove k q xs sorted n x at eq =
      rw (lookup-remove key xs sorted n x k q at eq) (ground arith)

  -- On sorted keys, `find` returns an iterator to an equivalent key if a scan finds one, and
  -- `end()` if it finds none.
  pub find-member :
      (k : K) (xs : Set K)
      → IsSorted xs
      → Returns (find k xs) λ i.
        ((member k xs ≡ true) × ((x : K) × (get_elem? xs i ≡ some x) × (equivalent x k ≡ true)))
        ⊎ ((member k xs ≡ false) × (i ≡ length xs))
  unfolding find
  find-member k xs sorted =
      let (n, run, place, outcome) = locate key k xs sorted in
      elim outcome [
        | inl (x, at, eq, found) ↦
            (n, rw (run, ◌>>=◌, found), inl (member-hit k xs n x sorted at eq, (x, at, eq)))
        | inr (absent, found) ↦
            (length xs, rw (run, ◌>>=◌, found), inr (member-miss k xs absent, refl))
      ]

  -- `contains` does not fault, and agrees with the scan.
  pub contains-member : (k : K) (xs : Set K) → IsSorted xs → contains k xs ≡ some (member k xs)
  unfolding contains
  contains-member k xs sorted =
      let (i, run, outcome) = find-member k xs sorted in
      elim outcome [
        | inl (t, (x, at, eq)) ↦ rw (run, t) (ground (arith, lt_of_get_elem? xs i at))
        | inr (t, e) ↦ rw (run, t) (ground arith)
      ]

  -- On sorted keys, `insert` returns; the keys stay sorted, the key becomes a member and no other
  -- key does, the flag and the size say whether it was new, and the iterator points at an
  -- equivalent key.
  pub insert-Inserts : (k : K) (xs : Set K) → IsSorted xs → Returns (insert k xs) (Inserts k xs)
  unfolding insert
  insert-Inserts k xs sorted =
      let (n, run, place, outcome) = locate key k xs sorted in
      elim outcome [
        | inl (x, at, eq, found) ↦
            let there = member-hit k xs n x sorted at eq in
            (
              (xs, n, false),
              rw (run, ◌>>=◌, found),
              record {
                kept = sorted;
                members = λ q. ground (arith, member_congr k q xs);
                added = rw there;
                size = rw there;
                iterator = (x, at, eq);
              },
            )
        | inr (absent, found) ↦
            let gone = member-miss k xs absent in
            (
              (insert_at n k xs, n, true),
              rw (run, ◌>>=◌, found),
              record {
                kept = insert_at-IsSorted key xs sorted n k place absent;
                members = λ q. member-insert_at k q xs sorted n place absent;
                added = rw gone;
                size = rw gone (length-insert_at n k xs place.bound);
                iterator =
                    (k, get_elem?-insert_at n k xs n place.bound ∙ ground arith, equivalent_refl k);
              },
            )
      ]

  -- On sorted keys, `erase` returns; the keys stay sorted, the key is no member any more and every
  -- other key is one as before, and the result is the number of keys removed.
  pub erase-Erases : (k : K) (xs : Set K) → IsSorted xs → Returns (erase k xs) (Erases k xs)
  unfolding erase
  erase-Erases k xs sorted =
      let (n, run, place, outcome) = locate key k xs sorted in
      elim outcome [
        | inl (x, at, eq, found) ↦
            let there = member-hit k xs n x sorted at eq in
            let lt = lt_of_get_elem? xs n at in
            (
              (remove_range n (n + 1) xs, 1),
              rw (run, ◌>>=◌, found, erase_at-eq n xs lt),
              record {
                kept = remove-IsSorted key xs sorted n lt;
                members = λ q. member-remove k q xs sorted n x at eq;
                removed = rw there;
                size = omega (arith, length-remove_range n (n + 1) xs (omega arith) (omega arith));
              },
            )
        | inr (absent, found) ↦
            let gone = member-miss k xs absent in
            (
              (xs, 0),
              rw (run, ◌>>=◌, found),
              record {
                kept = sorted;
                members = λ q. ground (arith, member_congr k q xs);
                removed = rw gone;
                size = omega arith;
              },
            )
      ]
