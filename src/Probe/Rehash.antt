-- ===== src/Probe/Rehash.antt =====
-- `rehash` of include/ycetl/unordered_map.hpp and unordered_set.hpp.
use ycetl.Base.{
  ℕ, ◌^◌, ◌<◌, ◌≡◌, refl, ◌∙◌, sym, true, false, Option, none, some, arith, if◌then◌else◌, ◌>>=◌,
  Returns, length, get_elem?, is_some, replicate, length-replicate, get_elem?-replicate,
}
use ycetl.Probe.{
  Hashed, Slot, SlotState, tombstone, Table, empty, filled, is_filled, is_empty, matches, fresh,
  rehash,
}
use ycetl.Probe.Scan.{Lacks, first-Lacks, count-Lacks}
use ycetl.Probe.Replace.{replace_all-Replaced}
use ycetl.Probe.Place.{NoTombstones}
use ycetl.Probe.Valid.{IsValid, IsTable, stored}

module _ {K E : Type 0} ⦃o : Hashed K⦄ (key : E → K) where
  -- The new slots: all empty.
  pub fresh-IsValid : (blank : E) (n : ℕ) → n < 2 ^ 62 → IsValid key (fresh key blank n)
  unfolding fresh
  fresh-IsValid blank n small =
      let x : Slot E = record { state = empty; entry = blank } in
      let no_filled : (i : ℕ) (s : Slot E)
          → get_elem? (replicate n x) i ≡ some s
          → is_filled s.state ≡ false =
        λ i s at. ground (arith, get_elem?-replicate n x i) in
      record {
        bound = omega (arith, length-replicate n x);
        reach = λ d p s s' lt before at full at'. absurd (cc (no_filled _ s at));
        unique = λ i j s s' at at' full full' eq. absurd (cc (no_filled i s at));
      }

  pub fresh-slot :
      (blank : E) (n i : ℕ) (s : Slot E)
      → get_elem? (fresh key blank n) i ≡ some s
      → is_empty s.state ≡ true
  unfolding fresh
  fresh-slot blank n i s at =
      let x : Slot E = record { state = empty; entry = blank } in
      ground (arith, get_elem?-replicate n x i)

  empty_cases : (x : SlotState) → is_empty x ≡ true → is_filled x ≡ false
  empty_cases empty e = refl
  empty_cases filled e = absurd (cc e)
  empty_cases tombstone e = refl

  or_else : (a b : Option (Slot E)) → b ≡ none → (if is_some a then a else b) ≡ a
  or_else none b e = e
  or_else (some a) b e = refl

  pub not_filled : (s : Slot E) → is_empty s.state ≡ true → is_filled s.state ≡ false
  not_filled s e = empty_cases s.state e

  -- What `rehash` makes of a table.
  pub record Rehashed (n : ℕ) (t t' : Table E) : Type 0 where
    pub kept : IsTable key t'
    pub clean : NoTombstones key t'.slots
    pub capacity : length t'.slots ≡ n
    pub size : t'.size ≡ t.size
    pub values : (q : K) → stored key q t' ≡ stored key q t

  -- On a table, `rehash` to more slots than it has entries, but fewer than 2 ^ 62, returns a table
  -- of that many slots and the same size, without tombstones, in which a scan for any key finds
  -- what it found before.
  pub rehash-Rehashed :
      (blank : E) (n : ℕ) (t : Table E)
      → IsTable key t
      → t.size < n
      → n < 2 ^ 62
      → Returns (rehash key blank n t) (Rehashed n t)
  unfolding rehash stored fresh
  rehash-Rehashed blank n t table room small =
      let blank_slot : Slot E = record { state = empty; entry = blank } in
      let new = fresh key blank n in
      let len : length new ≡ n = length-replicate n blank_slot in
      let lacks : (q : K) → Lacks (matches key q) new =
        λ q i s at. rw (not_filled s (fresh-slot blank n i s at)) in
      let zero =
        count-Lacks (λ s. is_filled s.state) new
          (λ i s at. not_filled s (fresh-slot blank n i s at)) in
      let (out, run, r) =
        replace_all-Replaced key t.slots new (fresh-IsValid blank n small)
          (λ i s at.
            fresh-slot blank n i s at ∙ sym (rw (not_filled s (fresh-slot blank n i s at))))
          (omega (arith, zero, table.size, len)) table.valid.unique
          (λ i s at full. lacks (key s.entry)) in
      (
        record t { slots = out },
        rw (run, ◌>>=◌),
        record {
          kept = record { valid = r.valid; size = omega (arith, table.size, r.filled, zero) };
          clean = r.clean;
          capacity = r.size ∙ len;
          size = refl;
          values = λ q. r.values q ∙ or_else _ _ (first-Lacks (matches key q) new (lacks q));
        },
      )
