-- ===== src/Map/Laws.antt =====
-- The sorted pairs of include/ycetl/map.hpp behave as a finite function from keys to values.
use ycetl.Base.{
  ℕ, ◌+◌, ◌≡◌, refl, ◌∙◌, sym, ap, ◌⊎◌, inl, inr, true, false, not, Option, none, some, arith,
  if◌then◌else◌, ◌>>=◌, Returns, length, is_some, set, get_elem?, lt_of_get_elem?, length-set,
  Option-cases, lt→ltb,
}
use ycetl.Order.{Order, less, equivalent, equivalent_trans}
use ycetl.Sequence.{insert_at, length-insert_at, get_elem?-insert_at}
use ycetl.Flat.Lookup
use ycetl.Flat.Lookup.{lookup, lookup_congr, Absent, lookup-none, lookup_of_get, IsPlace}
use ycetl.Flat.Writes.{insert_at-IsSorted, lookup-insert_at, lookup-set}
use ycetl.Flat.Place.{locate}
use ycetl.Map.{Map, find, contains, insert, insert_or_assign, subscript, at}

module _ {K V : Type 0} ⦃o : Order K⦄ where
  abbrev pub key : K × V → K
  key e = e.0

  abbrev pub IsSorted : Map K V → Type 0
  IsSorted xs = Lookup.IsSorted key xs

  abbrev pub second : Option (K × V) → Option V
  second none = none
  second (some e) = some e.1

  -- The reference definition of a lookup: a scan for an equivalent key.
  unfoldable pub value_of : K → Map K V → Option V
  unfolding lookup
  value_of q xs = second (lookup key q xs)

  -- A write of `v` under `k`: the keys stay sorted, `k` has the value `v`, and every other key the
  -- value that it had; a pair is added exactly if the key is new.
  pub record Writes (k : K) (v : V) (xs ys : Map K V) : Type 0 where
    pub kept : IsSorted ys
    pub values : (q : K) → value_of q ys ≡ (if equivalent k q then some v else value_of q xs)
    pub size : length ys ≡ (if is_some (value_of k xs) then length xs else length xs + 1)

  value-hit :
      (k : K) (xs : Map K V) (n : ℕ) (e : K × V)
      → IsSorted xs
      → get_elem? xs n ≡ some e
      → equivalent e.0 k ≡ true
      → value_of k xs ≡ some e.1
  unfolding value_of
  value-hit k xs n e sorted at eq = rw (lookup_of_get key k xs n e sorted at eq)

  value-miss : (k : K) (xs : Map K V) → Absent key k xs → value_of k xs ≡ none
  unfolding value_of
  value-miss k xs absent = rw (lookup-none key k xs absent)

  pub value_congr : (k q : K) (xs : Map K V) → equivalent k q ≡ true → value_of k xs ≡ value_of q xs
  unfolding value_of
  value_congr k q xs eq = ap second (lookup_congr key k q xs eq)

  insert_at-Writes :
      (k : K) (v : V) (xs : Map K V)
      → IsSorted xs
      → (n : ℕ) → IsPlace key k xs n
      → Absent key k xs
      → Writes k v xs (insert_at n (k, v) xs)
  unfolding value_of
  insert_at-Writes k v xs sorted n place absent = record {
    kept = insert_at-IsSorted key xs sorted n (k, v) place absent;
    values = λ q. rw (lookup-insert_at key xs sorted n (k, v) q place absent) (ground arith);
    size = rw (lookup-none key k xs absent) (length-insert_at n (k, v) xs place.bound);
  }

  assign-Writes :
      (k : K) (v : V) (xs : Map K V)
      → IsSorted xs
      → (n : ℕ) (e : K × V) → get_elem? xs n ≡ some e
      → equivalent e.0 k ≡ true
      → Writes k v xs (set xs n (e.0, v))
  unfolding value_of
  assign-Writes k v xs sorted n e at eq = record {
    kept = (lookup-set key xs sorted n e (e.0, v) k at refl).0;
    values = λ q.
        rw ((lookup-set key xs sorted n e (e.0, v) q at refl).1, equivalent_trans e.0 k q eq)
          (ground arith);
    size = rw (lookup_of_get key k xs n e sorted at eq) (length-set xs n (e.0, v));
  }

  -- On sorted pairs, `find` returns an iterator to the pair that a scan for an equivalent key
  -- finds, or `end()` if the scan finds none.
  pub find-value :
      (k : K) (xs : Map K V)
      → IsSorted xs
      → Returns (find k xs) λ i.
        ((e : K × V) × (get_elem? xs i ≡ some e)
          × (equivalent e.0 k ≡ true)
          × (value_of k xs ≡ some e.1))
        ⊎ ((value_of k xs ≡ none) × (i ≡ length xs))
  unfolding find
  find-value k xs sorted =
      let (n, run, place, outcome) = locate key k xs sorted in
      elim outcome [
        | inl (x, at, eq, found) ↦
            (n, rw (run, ◌>>=◌, found), inl (x, at, eq, value-hit k xs n x sorted at eq))
        | inr (absent, found) ↦
            (length xs, rw (run, ◌>>=◌, found), inr (value-miss k xs absent, refl))
      ]

  -- `contains` does not fault, and agrees with the scan.
  pub contains-value :
      (k : K) (xs : Map K V) → IsSorted xs → contains k xs ≡ some (is_some (value_of k xs))
  unfolding contains
  contains-value k xs sorted =
      let (i, run, outcome) = find-value k xs sorted in
      elim outcome [
        | inl (e, at, eq, t) ↦ rw (run, t) (ground (arith, lt_of_get_elem? xs i at))
        | inr (t, e) ↦ rw (run, t) (ground arith)
      ]

  -- On sorted pairs, `insert` returns; it writes a key that is not there and returns an iterator to
  -- the pair and `true`; under a key that is there it changes nothing and returns `false`.
  pub insert-Writes :
      (k : K) (v : V) (xs : Map K V)
      → IsSorted xs
      → Returns (insert k v xs) λ r.
        ((value_of k xs ≡ none)
          × Writes k v xs r.0
          × (r.2 ≡ true)
          × (get_elem? r.0 r.1 ≡ some (k, v)))
        ⊎ ((w : V) × (value_of k xs ≡ some w) × (r.0 ≡ xs) × (r.2 ≡ false))
  unfolding insert
  insert-Writes k v xs sorted =
      let (n, run, place, outcome) = locate key k xs sorted in
      elim outcome [
        | inl (e, at, eq, found) ↦ (
          (xs, n, false),
          rw (run, ◌>>=◌, found),
          inr (e.1, value-hit k xs n e sorted at eq, refl, refl),
        )
        | inr (absent, found) ↦ (
          (insert_at n (k, v) xs, n, true),
          rw (run, ◌>>=◌, found),
          inl (
            value-miss k xs absent,
            insert_at-Writes k v xs sorted n place absent,
            refl,
            get_elem?-insert_at n (k, v) xs n place.bound ∙ ground arith,
          ),
        )
      ]

  -- On sorted pairs, `insert_or_assign` returns; the pairs stay sorted, the key has the new value
  -- and every other key the value that it had, a pair is added exactly if the key was new, and the
  -- flag says whether it was.
  pub insert_or_assign-Writes :
      (k : K) (v : V) (xs : Map K V)
      → IsSorted xs
      → Returns
          (insert_or_assign k v xs)
          λ r. Writes k v xs r.0 × (r.2 ≡ not (is_some (value_of k xs)))
  unfolding insert_or_assign
  insert_or_assign-Writes k v xs sorted =
      let (n, run, place, outcome) = locate key k xs sorted in
      elim outcome [
        | inl (e, at, eq, found) ↦ (
          (set xs n (e.0, v), n, false),
          rw (run, ◌>>=◌, found, at, lt→ltb n (length xs) (lt_of_get_elem? xs n at)),
          (assign-Writes k v xs sorted n e at eq, rw (value-hit k xs n e sorted at eq)),
        )
        | inr (absent, found) ↦ (
          (insert_at n (k, v) xs, n, true),
          rw (run, ◌>>=◌, found),
          (insert_at-Writes k v xs sorted n place absent, rw (value-miss k xs absent)),
        )
      ]

  -- On sorted pairs, `operator[]` returns the value of a key that is there and leaves the map
  -- alone; a key that is not there it writes with the blank value, which it returns.
  pub subscript-Writes :
      (blank : V) (k : K) (xs : Map K V)
      → IsSorted xs
      → Returns (subscript blank k xs) λ r.
        ((value_of k xs ≡ some r.1) × (r.0 ≡ xs))
        ⊎ ((value_of k xs ≡ none) × (r.1 ≡ blank) × Writes k blank xs r.0)
  unfolding subscript
  subscript-Writes blank k xs sorted =
      let (n, run, place, outcome) = locate key k xs sorted in
      elim outcome [
        | inl (e, at, eq, found) ↦
            ((xs, e.1), rw (run, ◌>>=◌, found, at), inl (value-hit k xs n e sorted at eq, refl))
        | inr (absent, found) ↦
            let at : get_elem? (insert_at n (k, blank) xs) n ≡ some (k, blank) =
              get_elem?-insert_at n (k, blank) xs n place.bound ∙ ground arith in
            (
              (insert_at n (k, blank) xs, blank),
              rw (run, ◌>>=◌, found, at),
              inr (value-miss k xs absent, refl, insert_at-Writes k blank xs sorted n place absent),
            )
      ]

  -- On sorted pairs, `at` of a key that has a value returns that value.
  pub at-value :
      (k : K) (xs : Map K V) {v : V} → IsSorted xs → value_of k xs ≡ some v → at k xs ≡ some v
  unfolding at
  at-value k xs sorted h =
      let (n, run, place, outcome) = locate key k xs sorted in
      elim outcome [
        | inl (e, at, eq, found) ↦ rw (run, ◌>>=◌, at) (sym (value-hit k xs n e sorted at eq) ∙ h)
        | inr (absent, found) ↦ absurd (cc (value-miss k xs absent))
      ]

  -- On sorted pairs, `at` of a key that has no value returns the value of some key after it, or
  -- reads past the end.
  pub at-missing :
      (k : K) (xs : Map K V)
      → IsSorted xs
      → value_of k xs ≡ none
      → ((n : ℕ) × (e : K × V) × (get_elem? xs n ≡ some e)
          × (less k e.0 ≡ true)
          × (at k xs ≡ some e.1))
        ⊎ (at k xs ≡ none)
  unfolding at
  at-missing k xs sorted h =
      let (n, run, place, outcome) = locate key k xs sorted in
      elim outcome [
        | inl (e, at, eq, found) ↦ absurd (cc (value-hit k xs n e sorted at eq))
        | inr (absent, found) ↦ elim (Option-cases (get_elem? xs n)) [
          | inl stop ↦ inr (rw (run, ◌>>=◌, stop))
          | inr (e, at) ↦ inl (
            n,
            e,
            at,
            ground (arith, place.above n e (omega arith) at, absent n e at),
            rw (run, ◌>>=◌, at),
          )
        ]
      ]
