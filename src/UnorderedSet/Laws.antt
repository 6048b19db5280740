-- ===== src/UnorderedSet/Laws.antt =====
-- The operations of include/ycetl/unordered_set.hpp on a set of keys.
use ycetl.Base.{
  ◌^◌, ◌<◌, ◌≡◌, refl, ◌∙◌, ap, inl, inr, Bool, true, false, not, ◌&&◌, ◌||◌, Option, none, some,
  arith, ◌==◌, if◌then◌else◌, ◌>>=◌, Returns, length, is_some, lt_of_get_elem?,
}
use ycetl.Size.{npos}
use ycetl.Probe.{Hashed, Slot, Table}
use ycetl.Probe
use ycetl.Probe.Erasing.{erase-Drops, stored_congr}
use ycetl.Probe.Growth.{insert-Stores, IsUnderLoad}
use ycetl.Probe.Inserting.{HasEmpty}
use ycetl.Probe.Laws.{find_slot-stored}
use ycetl.Probe.Valid.{IsTable, stored}
use ycetl.UnorderedSet.{UnorderedSet, itself, contains, insert, erase}

module _ {K : Type 0} ⦃o : Hashed K⦄ where
  -- Membership: a scan of all the slots.
  abbrev pub has : K → UnorderedSet K → Bool
  has q s = is_some (stored itself q s)

  -- The keys after an insertion.
  with_key :
      (b : Bool) (old other : Option (Slot K)) (f : Slot K)
      → (b ≡ true → other ≡ old)
      → is_some (if b && not (is_some old) then some f else other) ≡ (b || is_some other)
  with_key false old other f same = refl
  with_key true none other f same = refl
  with_key true (some w) other f same = ap is_some (same refl)

  -- On a set, `contains` returns, and agrees with a scan of all the slots.
  pub contains-has : (k : K) (s : UnorderedSet K) → IsTable itself s → contains k s ≡ some (has k s)
  unfolding contains Probe.contains
  contains-has k s table =
      let (i, run, outcome) = find_slot-stored itself k s table.valid in
      elim outcome [
        | inl (c, at, m, there) ↦
            let lt = lt_of_get_elem? s.slots i at in
            let inside : (i == npos) ≡ false = ground (arith, table.valid.bound) in
            rw (run, ◌>>=◌, inside, there)
        | inr (e, gone) ↦
            let outside : (i == npos) ≡ true = ground arith in rw (run, ◌>>=◌, outside, gone)
      ]

  -- On a set of fewer than 2 ^ 57 slots which, if it has slots and is under the load limit, has an
  -- empty one, `insert` returns: the result is a set again, its keys are the old ones and the new
  -- one, and the flag says whether it was new.
  pub insert-has :
      (blank k : K) (s : UnorderedSet K)
      → IsTable itself s
      → length s.slots < 2 ^ 57
      → (0 < length s.slots → IsUnderLoad itself s → HasEmpty itself s)
      → Returns (insert blank k s) λ r.
        IsTable itself r.0
        × ((q : K) → has q r.0 ≡ (o.equal k q || has q s))
        × (r.2 ≡ not (has k s))
  unfolding insert
  insert-has blank k s table small spare =
      let (r, run, st) = insert-Stores itself blank k s table small spare in
      (
        r,
        run,
        (
          st.kept,
          λ q. ap is_some (st.values q) ∙ with_key (o.equal k q) _ _ _ (stored_congr itself k q s),
          st.added,
        ),
      )

  -- On a set, `erase` returns: the result is a set again, its keys are the old ones without the one
  -- erased, and the result is the number of keys removed.
  pub erase-has :
      (k : K) (s : UnorderedSet K)
      → IsTable itself s
      → Returns (erase k s) λ r.
        IsTable itself r.0
        × ((q : K) → has q r.0 ≡ (has q s && not (o.equal k q)))
        × (r.1 ≡ (if has k s then 1 else 0))
  unfolding erase
  erase-has k s table =
      let (r, run, d) = erase-Drops itself k s table in
      (r, run, (d.kept, λ q. rw (d.values q) (ground arith), d.removed))

  -- On a set of fewer than 2 ^ 57 slots which, if it has slots and is under the load limit, has an
  -- empty one, `contains`, `insert` and `erase` return; `contains` agrees with a scan of all the
  -- slots, `insert` adds the key and no other and says whether it was new, `erase` takes out the
  -- key and no other and says how many it took, and both leave a set.
  pub operations-has :
      (blank k : K) (s : UnorderedSet K)
      → IsTable itself s
      → length s.slots < 2 ^ 57
      → (0 < length s.slots → IsUnderLoad itself s → HasEmpty itself s)
      → (contains k s ≡ some (has k s))
        × Returns (insert blank k s) (λ r.
          IsTable itself r.0
          × ((q : K) → has q r.0 ≡ (o.equal k q || has q s))
          × (r.2 ≡ not (has k s)))
        × Returns (erase k s) (λ r.
          IsTable itself r.0
          × ((q : K) → has q r.0 ≡ (has q s && not (o.equal k q)))
          × (r.1 ≡ (if has k s then 1 else 0)))
  operations-has blank k s table small spare =
      (contains-has k s table, insert-has blank k s table small spare, erase-has k s table)
