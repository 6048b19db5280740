-- ===== src/Repeats/Lookup.antt =====
-- `count`, `contains` and `find` of include/ycetl/unordered_multiset.hpp and
-- unordered_multimap.hpp against a scan of all the slots.
use ycetl.Base.{
  ℕ, zero, suc, ◌+◌, ◌-◌, ◌^◌, ◌≤◌, ◌<◌, ◌≡◌, ◌≢◌, refl, ◌∙◌, ap, ◌⊎◌, inl, inr, true, false, List,
  some, arith, ◌==◌, ltb, ◌>>=◌, Returns, length, get_elem?, set, length-set, get_elem?-set,
  Bool-cases, lt_of_get_elem?, lt→ltb,
}
use native.Mathlib.Decide.{dec_lt}
use ycetl.Size.{add_size}
use ycetl.Rounds.{modulo, round, modulo-round}
use ycetl.Probe.{Hashed, Slot, Table, tombstone, is_filled, is_empty, matches}
use ycetl.Probe.Scan.{count-Lacks, count-le-length, count-pos}
use ycetl.Probe.Change.{round-injective}
use ycetl.Probe.Laws.{modulo-home}
use ycetl.Probe.Seek.{probe-slot, pass}
use ycetl.Probe.Valid.{Passed, Ends, Passed-Lacks, home, home-lt}
use ycetl.Repeats.{
  find_loop, find, contains_loop, contains, count_loop, count, erase_loop, iterator,
  advance_to_filled,
}
use ycetl.Repeats.Erasing.{IsBag, occurrences, erase_loop-Erased}

module _ {K E : Type 0} ⦃o : Hashed K⦄ (key : E → K) where
  -- The slots that a probe has still to see are the same.
  abbrev Ahead : (slots slots' : List (Slot E)) (h p : ℕ) → Type 0
  Ahead slots slots' h p =
      (q : ℕ)
      → p ≤ q
      → q < length slots
      → get_elem? slots' (round h q (length slots)) ≡ get_elem? slots (round h q (length slots))

  Ahead-set :
      (slots slots' : List (Slot E)) (h p : ℕ) (x : Slot E)
      → h < length slots
      → p < length slots
      → Ahead slots slots' h p
      → Ahead slots (set slots' (round h p (length slots)) x) h (p + 1)
  Ahead-set slots slots' h p x lt below ahead q le lt' =
      let n = length slots in
      let apart : round h p n ≢ round h q n =
        λ e. absurd (omega (arith, round-injective h p q n lt below lt' e)) in
      let there : get_elem? (set slots' (round h p n) x) (round h q n)
          ≡ get_elem? slots' (round h q n) =
        ground (arith, get_elem?-set slots' (round h p n) (round h q n) x) in
      there ∙ ahead q (omega arith) lt'

  -- The loop of `count` counts what the loop of `erase` would take out.
  count_loop-erase_loop :
      (k : K) (slots slots' : List (Slot E)) (h rounds p c : ℕ)
      → length slots' ≡ length slots
      → length slots < 2 ^ 62
      → h < length slots
      → p + rounds ≡ length slots
      → Ahead slots slots' h p
      → count_loop key k slots h rounds p c
        ≡ (erase_loop key k slots' h rounds p c >>= (λ r. some r.1))
  unfolding count_loop erase_loop
  count_loop-erase_loop k slots slots' h zero p c len bound lt end ahead = refl
  count_loop-erase_loop k slots slots' h (suc rounds) p c len bound lt end ahead =
      let n = length slots in
      let below : p < n = omega arith in
      let (s, at) = probe-slot key slots h p lt below in
      let i = round h p n in
      let inside : i < length slots' = omega (arith, lt_of_get_elem? slots i at) in
      let at' : get_elem? slots' i ≡ some s = ahead p (omega arith) below ∙ at in
      let index = modulo-round h p n lt (omega arith) bound in
      elim (Bool-cases (is_empty s.state)) [
        | inl t ↦ rw (len, index, ◌>>=◌, at, at', t) refl
        | inr t ↦ elim (Bool-cases (matches key k s)) [
          | inr u ↦
              rw (len, index, ◌>>=◌, at, at', t, u)
                (count_loop-erase_loop k slots slots' h rounds (p + 1) c len bound lt (omega arith)
                  (λ q le. ahead q (omega arith)))
          | inl u ↦
              let x : Slot E = record s { state = tombstone } in
              let in_range = lt→ltb i (length slots') inside in
              rw (len, index, ◌>>=◌, at, at', t, u, in_range)
                (count_loop-erase_loop k slots (set slots' i x) h rounds (p + 1) (add_size c 1)
                  (length-set slots' i x ∙ len) bound lt (omega arith)
                  (Ahead-set slots slots' h p x lt below ahead))
        ]
      ]

  -- Where the loops of `find` and `contains` end.
  find_loop-Ends :
      (k : K) (slots : List (Slot E)) (h rounds p : ℕ)
      → length slots < 2 ^ 62
      → h < length slots
      → p + rounds ≡ length slots
      → Passed key k slots h p
      → Returns (find_loop key k slots h rounds p) λ i.
        ((s : Slot E) × (get_elem? slots i ≡ some s)
          × (matches key k s ≡ true)
          × (contains_loop key k slots h rounds p ≡ some true))
        ⊎ ((d : ℕ) × (i ≡ length slots)
            × Passed key k slots h d
            × Ends key slots h d
            × (contains_loop key k slots h rounds p ≡ some false))
  unfolding find_loop contains_loop
  find_loop-Ends k slots h zero p bound lt end passed =
      (length slots, refl, inr (p, refl, passed, inl (omega arith), refl))
  find_loop-Ends k slots h (suc rounds) p bound lt end passed =
      let below : p < length slots = omega arith in
      let (s, at) = probe-slot key slots h p lt below in
      let index = modulo-round h p (length slots) lt (omega arith) bound in
      elim (Bool-cases (is_empty s.state)) [
        | inl t ↦ (
          length slots,
          rw (index, ◌>>=◌, at, t) refl,
          inr (p, refl, passed, inr (s, below, at, t), rw (index, ◌>>=◌, at, t) refl),
        )
        | inr t ↦ elim (Bool-cases (matches key k s)) [
          | inl u ↦ (
            round h p (length slots),
            rw (index, ◌>>=◌, at, t, u) refl,
            inl (s, at, u, rw (index, ◌>>=◌, at, t, u) refl),
          )
          | inr u ↦
              let (i, run, outcome) =
                find_loop-Ends k slots h rounds (p + 1) bound lt (omega arith)
                  (pass key k slots h p s passed at t u) in
              rw (index, ◌>>=◌, at, t, u) (i, run, outcome)
        ]
      ]

  -- What the lookups of a key say of a table.
  pub record Finds (k : K) (t : Table E) (i : ℕ) : Type 0 where
    pub found :
        0 < occurrences key k t
        → (s : Slot E) × (get_elem? t.slots i ≡ some s) × (matches key k s ≡ true)
    pub missing : occurrences key k t ≡ 0 → i ≡ length t.slots
    pub contained : contains key k t ≡ some (ltb 0 (occurrences key k t))
    pub counted : count key k t ≡ some (occurrences key k t)

  -- The iterator at a filled slot stays there, and so does `end()`.
  pub iterator-here :
      (t : Table E) (i : ℕ) (s : Slot E)
      → get_elem? t.slots i ≡ some s
      → is_filled s.state ≡ true
      → iterator i t ≡ some i
  unfolding iterator advance_to_filled
  iterator-here t i s at full =
      let lt = lt_of_get_elem? t.slots i at in
      let more : length t.slots - i ≡ suc (length t.slots - i - 1) = omega arith in
      rw (more, at, ◌>>=◌, full) refl

  iterator-end : (t : Table E) → iterator (length t.slots) t ≡ some (length t.slots)
  unfolding iterator advance_to_filled
  iterator-end t =
      let none_left : length t.slots - length t.slots ≡ 0 = omega arith in rw none_left refl

  Finds-empty : (k : K) (t : Table E) → length t.slots ≡ 0 → Returns (find key k t) (Finds k t)
  unfolding find contains count occurrences
  Finds-empty k t nil =
      let zero =
        count-Lacks (matches key k) t.slots
          (λ i s at. absurd (omega (arith, lt_of_get_elem? t.slots i at))) in
      let test : (length t.slots == 0) ≡ true = ground arith in
      (
        length t.slots,
        rw test refl,
        record {
          found = λ pos. absurd (omega arith);
          missing = λ none_there. refl;
          contained = rw (test, zero) refl;
          counted = rw (test, zero) refl;
        },
      )

  find-run :
      (k : K) (t : Table E) (h i j : ℕ)
      → (length t.slots == 0) ≡ false
      → modulo (o.hash k) (length t.slots) ≡ some h
      → find_loop key k t.slots h (length t.slots) 0 ≡ some i
      → iterator i t ≡ some j
      → find key k t ≡ some j
  unfolding find
  find-run k t h i j test start found stay = rw (test, start, ◌>>=◌, found) stay

  -- On a table in which keys may repeat, the lookups agree with a scan of all the slots: `count`
  -- returns how many entries are under the key, `contains` whether there is one, and `find` does
  -- not fault; it returns the index of a slot with an entry under the key if there is one, and else
  -- `end()`.
  pub find-Finds : (k : K) (t : Table E) → IsBag key t → Returns (find key k t) (Finds k t)
  unfolding find contains count occurrences
  find-Finds k t bag = elim (dec_lt 0 (length t.slots)) [
    | no nil ↦ Finds-empty k t (omega arith)
    | yes pos ↦
        let n = length t.slots in
        let h = home key k n in
        let lt = home-lt key k n pos in
        let bound = bag.reached.bound in
        let start = modulo-home key k n pos in
        let test : (n == 0) ≡ false = ground arith in
        let most = count-le-length (matches key k) t.slots in
        let (r, run, e) =
          erase_loop-Erased key k t.slots h n 0 0 refl bag.reached pos (omega arith)
            (λ q s lt. absurd (omega arith)) (omega (arith, most)) in
        let counted : count_loop key k t.slots h n 0 0 ≡ some (occurrences key k t) =
          count_loop-erase_loop k t.slots t.slots h n 0 0 refl bound lt (omega arith)
            (λ q le below. refl)
          ∙ rw run (ap some (e.taken ∙ omega arith)) in
        let (i, found, outcome) =
          find_loop-Ends k t.slots h n 0 bound lt (omega arith) (λ q s lt. absurd (omega arith)) in
        let count_run : count key k t ≡ some (occurrences key k t) =
          rw (test, start, ◌>>=◌) counted in
        elim outcome [
          | inl (s, at, m, contained) ↦
              let some_there : 0 < occurrences key k t =
                count-pos (matches key k) t.slots i s at m in
              let stay = iterator-here t i s at (ground arith) in
              (
                i,
                find-run k t h i i test start found stay,
                record {
                  found = λ pos'. (s, at, m);
                  missing = λ zero. absurd (omega arith);
                  contained = rw (test, start, ◌>>=◌) (contained ∙ ap some (ground arith));
                  counted = count_run;
                },
              )
          | inr (d, e', passed, ends, contained) ↦
              let zero : occurrences key k t ≡ 0 =
                count-Lacks (matches key k) t.slots
                  (Passed-Lacks key k d bag.reached pos passed ends) in
              (
                n,
                find-run k t h i n test start found (ap (λ c. iterator c t) e' ∙ iterator-end t),
                record {
                  found = λ pos'. absurd (omega arith);
                  missing = λ none_there. refl;
                  contained = rw (test, start, ◌>>=◌) (contained ∙ ap some (ground arith));
                  counted = count_run;
                },
              )
        ]
  ]
