-- ===== src/Probe/Reassign.antt =====
-- Writing over an entry of include/ycetl/unordered_map.hpp without changing its key, as
-- `insert_or_assign` does.
use ycetl.Base.{
  ℕ, ◌<◌, ◌≡◌, refl, ◌∙◌, sym, ap, inl, inr, true, false, List, some, arith, if◌then◌else◌, length,
  get_elem?, set, length-set, Bool-cases,
}
use ycetl.Rounds.{round}
use ycetl.Probe.{Hashed, Slot, Table, is_filled, is_empty, matches}
use ycetl.Probe.Scan.{count-set, first-set}
use ycetl.Probe.Change.{set-cases}
use ycetl.Probe.Inserting.{write_reads}
use ycetl.Probe.Laws.{stored-match}
use ycetl.Probe.Valid.{IsValid, IsTable, stored, home}

module _ {K E : Type 0} ⦃o : Hashed K⦄ (key : E → K) where
  -- A slot of the changed slots stands for one of the old: same state, same key.
  before :
      (slots : List (Slot E)) (i j : ℕ) (x s y : Slot E)
      → get_elem? slots i ≡ some s
      → x.state ≡ s.state
      → key x.entry ≡ key s.entry
      → get_elem? (set slots i x) j ≡ some y
      → (z : Slot E) × (get_elem? slots j ≡ some z)
        × (y.state ≡ z.state)
        × (key y.entry ≡ key z.entry)
  before slots i j x s y at st ky at' = elim (set-cases slots i j x y at') [
    | inl (here, same) ↦ (
      s,
      rw here at,
      ap (λ (c : Slot E). c.state) same ∙ st,
      ap (λ (c : Slot E). key c.entry) same ∙ ky,
    )
    | inr (away, old) ↦ (y, old, refl, refl)
  ]

  pub reassign-IsValid :
      (slots : List (Slot E)) (i : ℕ) (x s : Slot E)
      → IsValid key slots
      → get_elem? slots i ≡ some s
      → x.state ≡ s.state
      → key x.entry ≡ key s.entry
      → IsValid key (set slots i x)
  reassign-IsValid slots i x s valid at st ky = record {
    bound = omega (arith, valid.bound, length-set slots i x);
    reach = λ d p y y' lt before_d at' full at''.
        let len = length-set slots i x in
        reach d p y y' (omega (arith, len)) before_d (rw len at at') full (rw len at at'');
    unique = λ j j' y y' at' at'' full full' eq.
        let (z, old, e, k) = before slots i j x s y at st ky at' in
        let (z', old', e', k') = before slots i j' x s y' at st ky at'' in
        valid.unique j j' z z' old old' (ap is_filled (sym e) ∙ full)
          (ap is_filled (sym e') ∙ full') (rw (k, k') at eq);
  }
    where
      reach :
          (d p : ℕ) (y y' : Slot E)
          → d < length slots
          → p < d
          → get_elem?
              (set slots i x)
              (round (home key (key y.entry) (length slots)) d (length slots))
            ≡ some y
          → is_filled y.state ≡ true
          → get_elem?
              (set slots i x)
              (round (home key (key y.entry) (length slots)) p (length slots))
            ≡ some y'
          → is_empty y'.state ≡ false
      reach d p y y' lt before_d at' full at'' =
          let (z, old, e, k) = before slots i _ x s y at st ky at' in
          let (z', old', e', k') = before slots i _ x s y' at st ky at'' in
          ap is_empty e'
          ∙ valid.reach d p z z' lt before_d (rw k at old) (ap is_filled (sym e) ∙ full)
              (rw k at old')

  -- The table after the write: the key has the new entry, and nothing else changes.
  pub reassign-IsTable :
      (t : Table E) (i : ℕ) (x s : Slot E)
      → IsTable key t
      → get_elem? t.slots i ≡ some s
      → x.state ≡ s.state
      → key x.entry ≡ key s.entry
      → IsTable key (record t { slots = set t.slots i x })
  reassign-IsTable t i x s table at st ky = record {
    valid = reassign-IsValid t.slots i x s table.valid at st ky;
    size =
        let counted = count-set (λ c. is_filled c.state) t.slots i s x at in
        let same : ◌≡◌ {A = ℕ} (if is_filled x.state then 1 else 0)
            (if is_filled s.state then 1 else 0) =
          rw st in
        omega (arith, table.size, counted, same);
  }

  pub reassign-values :
      (k q : K) (t : Table E) (i : ℕ) (x s : Slot E)
      → IsTable key t
      → get_elem? t.slots i ≡ some s
      → x.state ≡ s.state
      → key x.entry ≡ key s.entry
      → matches key k s ≡ true
      → stored key q (record t { slots = set t.slots i x })
        ≡ (if o.equal k q then some x else stored key q t)
  unfolding stored
  reassign-values k q t i x s table at st ky m = elim (Bool-cases (o.equal k q)) [
    | inl u ↦ rw u (
        stored-match key q (record t { slots = set t.slots i x }) i x
          (reassign-IsValid t.slots i x s table.valid at st ky) (write_reads key t.slots i x s at)
          (like q ∙ hit u))
    | inr u ↦ rw u (first-set (matches key q) t.slots i s x at (miss u) (like q ∙ miss u))
  ]
    where
      like : (q : K) → matches key q x ≡ matches key q s
      like q = rw (st, ky)

      hit : o.equal k q ≡ true → matches key q s ≡ true
      hit u = ground (arith, o.equal_trans (key s.entry) k q)

      miss : o.equal k q ≡ false → matches key q s ≡ false
      miss u = ground (arith, o.equal_symm (key s.entry) k, o.equal_trans k (key s.entry) q)
