-- ===== src/Probe/Erasing.antt =====
-- `erase` of include/ycetl/unordered_map.hpp and unordered_set.hpp.
use ycetl.Base.{
  ℕ, ◌+◌, ◌-◌, ◌≡◌, refl, ◌∙◌, ap, inl, inr, Bool, true, false, none, some, arith, ◌==◌,
  if◌then◌else◌, ◌>>=◌, Returns, length, get_elem?, set, Bool-cases, lt_of_get_elem?, is_some,
  lt→ltb,
}
use ycetl.Size.{npos, sub_size}
use ycetl.Probe.{Hashed, Slot, Table, tombstone, is_filled, matches, erase}
use ycetl.Probe.Scan.{first, Lacks, first-Lacks, first-set, count-set, count-le-length}
use ycetl.Probe.Change.{change-IsValid, set-cases}
use ycetl.Probe.Laws.{one-match, find_slot-stored}
use ycetl.Probe.Valid.{IsValid, IsTable, stored, matches-split}

module _ {K E : Type 0} ⦃o : Hashed K⦄ (key : E → K) where
  abbrev bury : Slot E → Slot E
  bury s = record s { state = tombstone }

  -- What `erase` of `k` makes of a table.
  pub record Drops (k : K) (t : Table E) (r : Table E × ℕ) : Type 0 where
    pub kept : IsTable key r.0
    pub values : (q : K) → stored key q r.0 ≡ (if o.equal k q then none else stored key q t)
    pub removed : r.1 ≡ (if is_some (stored key k t) then 1 else 0)
    pub size : r.0.size + r.1 ≡ t.size

  -- Keys that are equal match alike.
  match_congr : (k q : K) (s : Slot E) → o.equal k q ≡ true → matches key q s ≡ matches key k s
  match_congr k q s eq = ground (
    arith,
    eq,
    o.equal_symm k q eq,
    o.equal_trans (key s.entry) k q,
    o.equal_trans (key s.entry) q k,
  )

  -- Equal keys are stored alike.
  pub stored_congr : (k q : K) (t : Table E) → o.equal k q ≡ true → stored key q t ≡ stored key k t
  unfolding stored
  stored_congr k q t eq =
      ap (λ (p : Slot E → Bool). first p t.slots) (λ i s. match_congr k q s eq i)

  buried-values :
      (k q : K) (t : Table E) (i : ℕ) (s : Slot E) (n : ℕ)
      → IsValid key t.slots
      → get_elem? t.slots i ≡ some s
      → matches key k s ≡ true
      → stored key q (record { slots = set t.slots i (bury s); size = n })
        ≡ (if o.equal k q then none else stored key q t)
  unfolding stored
  buried-values k q t i s n valid at m = elim (Bool-cases (o.equal k q)) [
    | inl t' ↦ rw t' (first-Lacks (matches key q) (set t.slots i (bury s)) (gone t'))
    | inr f ↦
        let other : matches key q s ≡ false =
          ground (arith, o.equal_symm (key s.entry) k, o.equal_trans k (key s.entry) q) in
        rw f (first-set (matches key q) t.slots i s (bury s) at other refl)
  ]
    where
      gone : o.equal k q ≡ true → Lacks (matches key q) (set t.slots i (bury s))
      gone eq j s' at' = elim (set-cases t.slots i j (bury s) s' at') [
        | inl (here, same) ↦ rw same refl
        | inr (away, old) ↦ elim (Bool-cases (matches key q s')) [
          | inr f ↦ f
          | inl u ↦
              absurd (away (one-match key q j i s' s valid old at u (match_congr k q s eq ∙ m)))
        ]
      ]

  -- On a table, `erase` returns: the result is a table again, the key is not found any more and
  -- every other key is found as before, and the result counts the entry removed, if there was one,
  -- as does the size.
  pub erase-Drops : (k : K) (t : Table E) → IsTable key t → Returns (erase key k t) (Drops k t)
  unfolding erase
  erase-Drops k t table =
      let (i, run, outcome) = find_slot-stored key k t table.valid in
      elim outcome [
        | inl (s, at, m, there) ↦
            let lt = lt_of_get_elem? t.slots i at in
            let (full, same) = matches-split key k s m in
            let inside : (i == npos) ≡ false = ground (arith, table.valid.bound) in
            let counted = count-set (λ s. is_filled s.state) t.slots i s (bury s) at in
            let most = count-le-length (λ s. is_filled s.state) t.slots in
            let one : ◌≡◌ {A = ℕ} (if is_filled s.state then 1 else 0) 1 = rw full in
            let less : sub_size t.size 1 ≡ t.size - 1 =
              omega (arith, table.size, table.valid.bound, counted, one, most) in
            (
              (record { slots = set t.slots i (bury s); size = t.size - 1 }, 1),
              rw (run, ◌>>=◌, inside, at, lt→ltb i (length t.slots) lt, less),
              record {
                kept = record {
                  valid =
                      change-IsValid key t.slots i (bury s) table.valid refl (λ e. absurd (cc e));
                  size = omega (arith, table.size, counted, one);
                };
                values = λ q. buried-values k q t i s (t.size - 1) table.valid at m;
                removed = rw there;
                size = omega (arith, table.size, counted, one);
              },
            )
        | inr (e, gone) ↦
            let outside : (i == npos) ≡ true = ground arith in
            (
              (t, 0),
              rw (run, ◌>>=◌, outside),
              record {
                kept = table;
                values = λ q. ground (arith, stored_congr k q t);
                removed = rw gone;
                size = omega arith;
              },
            )
      ]
