-- ===== src/Probe/Laws.antt =====
-- The operations of the tables of include/ycetl/unordered_map.hpp and unordered_set.hpp.
use native.Mathlib.Decide.{dec_lt}
use ycetl.Base.{
  ℕ, ◌<◌, ◌≡◌, refl, ◌⊎◌, inl, inr, true, false, List, none, some, arith, ◌==◌, ◌>>=◌, Returns,
  length, get_elem?, lt_of_get_elem?,
}
use ycetl.Size.{npos}
use ycetl.Rounds.{modulo}
use ycetl.Probe.{Hashed, Slot, Table, matches, find_slot}
use ycetl.Probe.Scan.{first-Lacks, first_unique}
use ycetl.Probe.Seek.{find_loop-Ends}
use ycetl.Probe.Valid.{
  IsValid-IsReached, IsValid, stored, Passed-Lacks, home, home-lt, matches-split,
}

module _ {K E : Type 0} ⦃o : Hashed K⦄ (key : E → K) where
  pub modulo-home : (k : K) (n : ℕ) → 0 < n → modulo (o.hash k) n ≡ some (home key k n)
  unfolding modulo
  modulo-home k n pos = ground arith

  -- Two slots that match one key are one.
  pub one-match :
      (k : K) {slots : List (Slot E)} (i j : ℕ) (s s' : Slot E)
      → IsValid key slots
      → get_elem? slots i ≡ some s
      → get_elem? slots j ≡ some s'
      → matches key k s ≡ true
      → matches key k s' ≡ true
      → i ≡ j
  one-match k i j s s' valid at at' t t' =
      let (full, same) = matches-split key k s t in
      let (full', same') = matches-split key k s' t' in
      valid.unique i j s s' at at' full full' (o.equal_trans _ _ _ same (o.equal_symm _ _ same'))

  pub stored-match :
      (k : K) (t : Table E) (i : ℕ) (s : Slot E)
      → IsValid key t.slots
      → get_elem? t.slots i ≡ some s
      → matches key k s ≡ true
      → stored key k t ≡ some s
  unfolding stored
  stored-match k t i s valid at m =
      first_unique (matches key k) t.slots i s at m
        (λ j s' at' m'. one-match k j i s' s valid at' at m' m)

  -- On a valid table, `find_slot` returns the index of the slot that a scan of all the slots for
  -- the key finds, and `npos` if the scan finds none.
  pub find_slot-stored :
      (k : K) (t : Table E)
      → IsValid key t.slots
      → Returns (find_slot key k t) λ i.
        ((s : Slot E) × (get_elem? t.slots i ≡ some s)
          × (matches key k s ≡ true)
          × (stored key k t ≡ some s))
        ⊎ ((i ≡ npos) × (stored key k t ≡ none))
  unfolding find_slot stored
  find_slot-stored k t valid = elim (dec_lt 0 (length t.slots)) [
    | no none_there ↦
        let e : (length t.slots == 0) ≡ true = ground arith in
        (
          npos,
          rw e,
          inr (
            refl,
            first-Lacks (matches key k) t.slots
                (λ i s at. absurd (omega (arith, lt_of_get_elem? t.slots i at))),
          ),
        )
    | yes pos ↦
        let n = length t.slots in
        let e : (n == 0) ≡ false = ground arith in
        let (i, run, outcome) =
          find_loop-Ends key k t.slots (home key k n) n 0 valid.bound (home-lt key k n pos)
            (omega arith) (λ q s lt. absurd (omega arith)) in
        (
          i,
          rw (e, modulo-home k n pos, ◌>>=◌) run,
          elim outcome [
            | inl (s, at, m) ↦ inl (s, at, m, stored-match k t i s valid at m)
            | inr (e', (d, passed, ends)) ↦ inr (
              e',
              first-Lacks (matches key k) t.slots
                  (Passed-Lacks key k d (IsValid-IsReached key valid) pos passed ends),
            )
          ],
        )
  ]
