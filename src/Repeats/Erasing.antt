-- ===== src/Repeats/Erasing.antt =====
-- `erase` of include/ycetl/unordered_multiset.hpp and unordered_multimap.hpp: the one loop that
-- takes out every entry under a key.
use ycetl.Base.{
  ℕ, zero, suc, ◌+◌, ◌<◌, ◌≡◌, ◌≢◌, refl, ◌∙◌, sym, ap, inl, inr, Bool, true, false, not, ◌&&◌,
  List, some, arith, ◌==◌, ◌>>=◌, Returns, length, get_elem?, set, length-set, Bool-cases,
  lt_of_get_elem?, lt→ltb,
}
use ycetl.Size.{size_mod, add_size, sub_size}
use ycetl.Rounds.{round, modulo-round}
use ycetl.Probe.{Hashed, Slot, Table, tombstone, is_filled, is_empty, matches}
use ycetl.Probe.Scan.{
  count, Lacks, count-Lacks, count-set, count-congr, count-split, count-le-length,
}
use ycetl.Probe.Change.{change-IsReached, set-cases}
use ycetl.Probe.Laws.{modulo-home}
use ycetl.Probe.Seek.{probe-slot, pass}
use ycetl.Probe.Valid.{IsReached, Passed, Ends, Passed-Lacks, home, home-lt}
use ycetl.Repeats.{erase_loop, erase}

module _ {K E : Type 0} ⦃o : Hashed K⦄ (key : E → K) where
  -- A table in which keys may repeat, and whose size counts its entries.
  pub record IsBag (t : Table E) : Type 0 where
    pub reached : IsReached key t.slots
    pub size : t.size ≡ count (λ s. is_filled s.state) t.slots

  -- How many entries are under a key, by a scan of all the slots.
  unfoldable pub occurrences : K → Table E → ℕ
  occurrences k t = count (matches key k) t.slots

  -- What the loop makes of the slots, with the number of entries that it took out.
  pub record Erased (k : K) (slots : List (Slot E)) (removed : ℕ) (r : List (Slot E) × ℕ)
      : Type 0 where
    pub reached : IsReached key r.0
    pub lacks : Lacks (matches key k) r.0
    pub length : length r.0 ≡ length slots
    pub taken : r.1 ≡ removed + count (matches key k) slots
    pub counts :
        (q : Slot E → Bool)
        → ((s : Slot E) → q s ≡ true → is_filled s.state ≡ true)
        → count q r.0 ≡ count (λ s. q s && not (matches key k s)) slots

  -- The loop ends where no slot has the key any more.
  Erased-end :
      (k : K) (slots : List (Slot E)) (h d removed : ℕ)
      → h ≡ home key k (length slots)
      → IsReached key slots
      → 0 < length slots
      → Passed key k slots h d
      → Ends key slots h d
      → Erased k slots removed (slots, removed)
  Erased-end k slots h d removed start reached pos passed ends =
      let lacks = Passed-Lacks key k d reached pos (rw start at passed) (rw start at ends) in
      record {
        reached = reached;
        lacks = lacks;
        length = refl;
        taken = omega (arith, count-Lacks (matches key k) slots lacks);
        counts = λ q sub.
            count-congr q (λ s. q s && not (matches key k s)) slots
              (λ i s at. ground (arith, lacks i s at));
      }

  module _ (k : K) (slots : List (Slot E)) (i : ℕ) (s : Slot E) (at : get_elem? slots i ≡ some s)
      (same : matches key k s ≡ true) where
    abbrev buried : List (Slot E)
    buried = set slots i (record s { state = tombstone })

    buried-IsReached : IsReached key slots → IsReached key buried
    buried-IsReached reached =
        change-IsReached key slots i _ reached refl (λ full. absurd (cc full))

    buried-count : count (matches key k) slots ≡ count (matches key k) buried + 1
    buried-count =
        ground (arith, count-set (matches key k) slots i s (record s { state = tombstone }) at)

    buried_counts :
        (q : Slot E → Bool)
        → ((s : Slot E) → q s ≡ true → is_filled s.state ≡ true)
        → count (λ s. q s && not (matches key k s)) buried
          ≡ count (λ s. q s && not (matches key k s)) slots
    buried_counts q sub =
        let x : Slot E = record s { state = tombstone } in
        let gone : q x ≡ false = elim (Bool-cases (q x)) [
          | inl t ↦ absurd (cc (sub x t))
          | inr f ↦ f
        ] in
        ground (arith, count-set (λ s. q s && not (matches key k s)) slots i s x at)

    buried-Passed :
        (h p : ℕ)
        → h < length slots
        → p < length slots
        → i ≡ round h p (length slots)
        → Passed key k slots h p
        → Passed key k buried h (p + 1)
    buried-Passed h p lt below index passed q s' before at' =
        let x : Slot E = record s { state = tombstone } in
        let at'' : get_elem? buried (round h q (length slots)) ≡ some s' =
          rw (length-set slots i x) at at' in
        elim (set-cases slots i (round h q (length slots)) x s' at'') [
          | inl (here, e) ↦ rw e (refl, refl)
          | inr (away, old) ↦
              let ne : q ≢ p = λ e. away (ap (λ c. round h c (length slots)) e ∙ sym index) in
              passed q s' (omega arith) old
        ]

    -- What the loop makes of the slots without one entry.
    buried-Erased :
        (removed : ℕ) (r : List (Slot E) × ℕ)
        → removed + count (matches key k) slots < size_mod
        → Erased k buried (add_size removed 1) r
        → Erased k slots removed r
    buried-Erased removed r small e = record {
      reached = e.reached;
      lacks = e.lacks;
      length = e.length ∙ length-set slots i (record s { state = tombstone });
      taken = omega (arith, e.taken, buried-count);
      counts = λ q sub. e.counts q sub ∙ buried_counts q sub;
    }

  pub erase_loop-Erased :
      (k : K) (slots : List (Slot E)) (h rounds p removed : ℕ)
      → h ≡ home key k (length slots)
      → IsReached key slots
      → 0 < length slots
      → p + rounds ≡ length slots
      → Passed key k slots h p
      → removed + count (matches key k) slots < size_mod
      → Returns (erase_loop key k slots h rounds p removed) (Erased k slots removed)
  unfolding erase_loop
  erase_loop-Erased k slots h zero p removed start reached pos end passed small =
      (_, refl, Erased-end k slots h p removed start reached pos passed (inl (omega arith)))
  erase_loop-Erased k slots h (suc rounds) p removed start reached pos end passed small =
      let n = length slots in
      let below : p < n = omega arith in
      let lt : h < n = omega (arith, home-lt key k n pos) in
      let (s, at) = probe-slot key slots h p lt below in
      let i = round h p n in
      let inside = lt_of_get_elem? slots i at in
      let index = modulo-round h p n lt (omega arith) reached.bound in
      elim (Bool-cases (is_empty s.state)) [
        | inl t ↦ (
          _,
          rw (index, ◌>>=◌, at, t) refl,
          Erased-end k slots h p removed start reached pos passed (inr (s, below, at, t)),
        )
        | inr t ↦ elim (Bool-cases (matches key k s)) [
          | inr u ↦
              let (r, run, e) =
                erase_loop-Erased k slots h rounds (p + 1) removed start reached pos (omega arith)
                  (pass key k slots h p s passed at t u) small in
              (r, rw (index, ◌>>=◌, at, t, u) run, e)
          | inl u ↦
              let len = length-set slots i (record s { state = tombstone }) in
              let (r, run, e) =
                erase_loop-Erased k (buried k slots i s at u) h rounds (p + 1) (add_size removed 1)
                  (start ∙ ap (home key k) (sym len)) (buried-IsReached k slots i s at u reached)
                  (omega (arith, len)) (omega (arith, len))
                  (buried-Passed k slots i s at u h p lt below refl passed)
                  (omega (arith, buried-count k slots i s at u)) in
              (
                r,
                rw (index, ◌>>=◌, at, t, u, lt→ltb i n inside) run,
                buried-Erased k slots i s at u removed r small e,
              )
        ]
      ]

  -- What `erase` makes of a table, with its result.
  pub record TakesAll (k : K) (t : Table E) (r : Table E × ℕ) : Type 0 where
    pub kept : IsBag r.0
    pub result : r.1 ≡ occurrences k t
    pub gone : occurrences k r.0 ≡ 0
    pub others : (q : K) → o.equal k q ≡ false → occurrences q r.0 ≡ occurrences q t
    pub size : r.0.size + r.1 ≡ t.size

  -- An entry is under one key only.
  matches_apart :
      (k q : K) (s : Slot E)
      → o.equal k q ≡ false
      → matches key q s ≡ (matches key q s && not (matches key k s))
  matches_apart k q s apart =
      ground (arith, o.equal_trans k (key s.entry) q, o.equal_symm (key s.entry) k)

  Erased-TakesAll :
      (k : K) (t : Table E) (r : List (Slot E) × ℕ)
      → IsBag t
      → Erased k t.slots 0 r
      → TakesAll k t (record { slots = r.0; size = sub_size t.size r.1 }, r.1)
  unfolding occurrences
  Erased-TakesAll k t r bag e =
      let full : Slot E → Bool = λ s. is_filled s.state in
      let split = count-split full (matches key k) t.slots (λ s m. ground arith) in
      let rest = e.counts full (λ s f. f) in
      let most = count-le-length full t.slots in
      record {
        kept = record {
          reached = e.reached;
          size = omega (arith, split, rest, most, e.taken, bag.size, bag.reached.bound);
        };
        result = omega (arith, e.taken);
        gone = count-Lacks (matches key k) r.0 e.lacks;
        others = λ q apart.
            e.counts (matches key q) (λ s m. ground arith)
            ∙ sym (
                count-congr (matches key q) (λ s. matches key q s && not (matches key k s)) t.slots
                  (λ i s at. matches_apart k q s apart));
        size = omega (arith, split, rest, most, e.taken, bag.size, bag.reached.bound);
      }

  -- On a table in which keys may repeat, `erase` does not fault: it returns such a table and how
  -- many entries were under the key; none is left under it, every key that is not equal to it has
  -- as many as before, and the size shrinks by the number returned.
  pub erase-TakesAll : (k : K) (t : Table E) → IsBag t → Returns (erase key k t) (TakesAll k t)
  unfolding erase occurrences
  erase-TakesAll k t bag = elim (Bool-cases (length t.slots == 0)) [
    | inl nil ↦
        let lacks : (p : Slot E → Bool) → Lacks p t.slots =
          λ p i s at. absurd (ground (arith, lt_of_get_elem? t.slots i at)) in
        let zero = count-Lacks (matches key k) t.slots (lacks (matches key k)) in
        (
          (t, 0),
          rw nil refl,
          record {
            kept = bag;
            result = sym zero;
            gone = zero;
            others = λ q apart. refl;
            size = omega arith;
          },
        )
    | inr more ↦
        let pos : 0 < length t.slots = ground arith in
        let (r, run, e) =
          erase_loop-Erased k t.slots (home key k (length t.slots)) (length t.slots) 0 0 refl
            bag.reached pos (omega arith) (λ q s lt. absurd (omega arith))
            (omega (arith, count-le-length (matches key k) t.slots, bag.reached.bound)) in
        (
          _,
          rw (more, modulo-home key k (length t.slots) pos, ◌>>=◌, run) refl,
          Erased-TakesAll k t r bag e,
        )
  ]
