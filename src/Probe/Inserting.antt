-- ===== src/Probe/Inserting.antt =====
-- `insert_slot` of include/ycetl/unordered_map.hpp and unordered_set.hpp.
use ycetl.Base.{
  ℕ, ◌+◌, ◌<◌, ◌≡◌, refl, ◌∙◌, inl, inr, Bool, true, false, not, ◌&&◌, List, none, some, arith,
  if◌then◌else◌, ◌>>=◌, Returns, length, get_elem?, set, get_elem?-set, Bool-cases, lt_of_get_elem?,
  is_some, lt→ltb,
}
use ycetl.Size.{npos, add_size}
use ycetl.Rounds.{unround}
use ycetl.Probe.{
  Hashed, Slot, Table, at_key, at_slot, nowhere, filled, is_filled, is_empty, matches, seek_key,
  fill, insert_slot,
}
use ycetl.Probe.Scan.{Lacks, first-Lacks, first-set, count-set, count-le-length}
use ycetl.Probe.Seek.{seek-Outcome, Outcome, IsTarget}
use ycetl.Probe.Change.{change-IsValid}
use ycetl.Probe.Laws.{modulo-home, stored-match}
use ycetl.Probe.Valid.{
  IsValid-IsReached, IsValid, IsTable, stored, Passed, Ends, Passed-Lacks, home, home-lt,
}

module _ {K E : Type 0} ⦃o : Hashed K⦄ (key : E → K) where
  abbrev pub full_slot : E → Slot E
  full_slot e = record { state = filled; entry = e }

  -- A slot that a probe for an entry with room would take.
  abbrev pub HasEmpty : Table E → Type 0
  HasEmpty t = (j : ℕ) × (s : Slot E) × (get_elem? t.slots j ≡ some s) × (is_empty s.state ≡ true)

  -- What `insert_slot` of `e` makes of a table.
  pub record Stores (e : E) (t : Table E) (r : Table E × ℕ × Bool) : Type 0 where
    pub kept : IsTable key r.0
    pub values :
        (q : K)
        → stored key q r.0 ≡ (
            if o.equal (key e) q && not (is_some (stored key (key e) t))
            then some (full_slot e)
            else stored key q t)
    pub added : r.2 ≡ not (is_some (stored key (key e) t))
    pub index :
        (s : Slot E) × (get_elem? r.0.slots r.1 ≡ some s) × (stored key (key e) r.0 ≡ some s)

  abbrev pub filled_table : ℕ → E → Table E → Table E
  filled_table i e t = record { slots = set t.slots i (full_slot e); size = t.size + 1 }

  pub seek_key-Outcome :
      (k : K) (t : Table E)
      → IsValid key t.slots
      → 0 < length t.slots
      → Returns (seek_key key k t) (Outcome key k t.slots (home key k (length t.slots)))
  unfolding seek_key
  seek_key-Outcome k t valid pos =
      let n = length t.slots in
      let (stop, run, outcome) =
        seek-Outcome key k t.slots (home key k n) npos n 0 valid.bound (home-lt key k n pos)
          (omega arith) (inl refl) (λ q s lt. absurd (omega arith)) in
      (stop, rw (modulo-home key k n pos, ◌>>=◌) run, outcome)

  pub write_reads :
      (xs : List (Slot E)) (i : ℕ) (x y : Slot E)
      → get_elem? xs i ≡ some y
      → get_elem? (set xs i x) i ≡ some x
  write_reads xs i x y at = ground (arith, get_elem?-set xs i i x, lt_of_get_elem? xs i at)

  stored-Lacks :
      (e : E) (t : Table E) → Lacks (matches key (key e)) t.slots → stored key (key e) t ≡ none
  unfolding stored
  stored-Lacks e t lacks = first-Lacks (matches key (key e)) t.slots lacks

  pub stored-filled :
      (q : K) (e : E) (t : Table E) (i : ℕ) (s : Slot E)
      → IsValid key (set t.slots i (full_slot e))
      → get_elem? t.slots i ≡ some s
      → is_filled s.state ≡ false
      → stored key q (filled_table i e t)
        ≡ (if o.equal (key e) q then some (full_slot e) else stored key q t)
  unfolding stored
  stored-filled q e t i s valid at free = elim (Bool-cases (o.equal (key e) q)) [
    | inl u ↦ rw u (
        stored-match key q (filled_table i e t) i (full_slot e) valid
          (write_reads t.slots i (full_slot e) s at) (rw u))
    | inr u ↦
        let old : matches key q s ≡ false = rw free in
        rw u (first-set (matches key q) t.slots i s (full_slot e) at old (rw u))
  ]

  pub fill-Stores :
      (e : E) (t : Table E) (i d : ℕ)
      → IsTable key t
      → 0 < length t.slots
      → IsTarget key t.slots (home key (key e) (length t.slots)) d i
      → Passed key (key e) t.slots (home key (key e) (length t.slots)) d
      → Ends key t.slots (home key (key e) (length t.slots)) d
      → Returns (fill key i e t) λ t'. (t' ≡ filled_table i e t) × Stores e t (t', i, true)
  unfolding fill
  fill-Stores e t i d table pos target passed ends =
      let lacks = Passed-Lacks key (key e) d (IsValid-IsReached key table.valid) pos passed ends in
      let s = target.slot in
      let gone : stored key (key e) t ≡ none = stored-Lacks e t lacks in
      let at = write_reads t.slots i (full_slot e) s target.here in
      let lt = lt_of_get_elem? t.slots i target.here in
      let counted = count-set (λ s. is_filled s.state) t.slots i s (full_slot e) target.here in
      let most = count-le-length (λ s. is_filled s.state) t.slots in
      let free : ◌≡◌ {A = ℕ} (if is_filled s.state then 1 else 0) 0 = rw target.free in
      let more : add_size t.size 1 ≡ t.size + 1 =
        omega (arith, table.size, table.valid.bound, most) in
      let valid = change-IsValid key t.slots i (full_slot e) table.valid refl (λ _. (
        lacks,
        (
          target.place,
          target.inside,
          target.index,
          λ q s' before. passed q s' (omega (arith, target.near)),
        ),
      )) in
      (
        filled_table i e t,
        rw (lt→ltb i (length t.slots) lt, ◌>>=◌, more),
        (
          refl,
          record {
            kept = record { valid = valid; size = omega (arith, table.size, counted, free) };
            values =
                λ q. rw gone (stored-filled q e t i s valid target.here target.free ∙ ground arith);
            added = rw gone;
            index = (
              full_slot e,
              at,
              stored-match key (key e) (filled_table i e t) i (full_slot e) valid at
                  (o.equal_refl (key e)),
            );
          },
        ),
      )

  -- On a table with an empty slot, `insert_slot` stores the entry, if its key is new.
  pub insert_slot-Stores :
      (e : E) (t : Table E)
      → IsTable key t
      → HasEmpty t
      → Returns (insert_slot key e t) (Stores e t)
  unfolding insert_slot Outcome
  insert_slot-Stores e t table (j, s, at, free) =
      let lt = lt_of_get_elem? t.slots j at in
      let (stop, run, outcome) = seek_key-Outcome (key e) t table.valid (omega arith) in
      elim stop
          as (λ x.
            seek_key key (key e) t ≡ some x
            → Outcome key (key e) t.slots (home key (key e) (length t.slots)) x
            → Returns (insert_slot key e t) (Stores e t)) [
              | at_key i ↦ λ run (s', at', m).
                  let there = stored-match key (key e) t i s' table.valid at' m in
                  (
                    (t, i, false),
                    rw (run, ◌>>=◌),
                    record {
                      kept = table;
                      values = λ q. rw there (ground arith);
                      added = rw there;
                      index = (s', at', there);
                    },
                  )
              | at_slot i ↦ λ run (d, s', target, passed, inside, stopped, free').
                  let (t', run', (same, result)) =
                    fill-Stores e t i d table (omega arith) target passed
                      (inr (s', inside, stopped, free')) in
                  ((t', i, true), rw (run, ◌>>=◌, run'), result)
              | nowhere ↦ λ run passed.
                  let h = home key (key e) (length t.slots) in
                  let (d, below, e') =
                    unround h j (length t.slots)
                      (home-lt key (key e) (length t.slots) (omega arith)) lt in
                  absurd (cc (passed d s below (rw e' at)).0)
            ]
        run outcome

  -- On a table with no empty slot, `insert_slot` of a new key stores nothing.
  pub insert_slot-lost :
      (e : E) (t : Table E)
      → IsTable key t
      → 0 < length t.slots
      → ((j : ℕ) (s : Slot E) → get_elem? t.slots j ≡ some s → is_empty s.state ≡ false)
      → stored key (key e) t ≡ none
      → insert_slot key e t ≡ some (t, npos, false)
  unfolding insert_slot Outcome
  insert_slot-lost e t table pos used gone =
      let (stop, run, outcome) = seek_key-Outcome (key e) t table.valid pos in
      elim stop
          as (λ x.
            seek_key key (key e) t ≡ some x
            → Outcome key (key e) t.slots (home key (key e) (length t.slots)) x
            → insert_slot key e t ≡ some (t, npos, false)) [
              | at_key i ↦
                  λ run (s, at, m). absurd (cc (stored-match key (key e) t i s table.valid at m))
              | at_slot i ↦ λ run (d, s, target, passed, inside, stopped, free).
                  absurd (cc (used _ s stopped))
              | nowhere ↦ λ run passed. rw (run, ◌>>=◌)
            ]
        run outcome
