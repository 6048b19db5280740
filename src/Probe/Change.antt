-- ===== src/Probe/Change.antt =====
-- A table of include/ycetl/unordered_map.hpp or unordered_set.hpp after a slot was filled, or became
-- a tombstone.
use ycetl.Base.{
  ℕ, ◌<◌, ◌≡◌, ◌≢◌, ◌∙◌, sym, ◌⊎◌, inl, inr, true, false, List, some, arith, ◌==◌, length,
  get_elem?, set, length-set, get_elem?-set, Bool-cases, lt_of_get_elem?,
}
use ycetl.Rounds.{round}
use ycetl.Probe.{Hashed, Slot, is_filled, is_empty, matches}
use ycetl.Probe.Scan.{Lacks}
use ycetl.Probe.Valid.{IsReached, IsValid, IsValid-IsReached, Passed, home, home-lt}

module _ {A : Type 0} where
  -- An element after a write is the new one, or was there before.
  pub set-cases :
      (xs : List A) (i j : ℕ) (x y : A)
      → get_elem? (set xs i x) j ≡ some y
      → ((j ≡ i) × (y ≡ x)) ⊎ ((j ≢ i) × (get_elem? xs j ≡ some y))
  set-cases xs i j x y at = elim (Bool-cases (j == i)) [
    | inl t ↦
        inl (ground arith, ground (arith, get_elem?-set xs i j x, lt_of_get_elem? xs j {x = y}))
    | inr t ↦
        inr (ground arith, ground (arith, get_elem?-set xs i j x, lt_of_get_elem? xs j {x = y}))
  ]

pub round-injective : (h c d n : ℕ) → h < n → c < n → d < n → round h c n ≡ round h d n → c ≡ d
round-injective h c d n lt lt' lt'' e = ground arith

module _ {K E : Type 0} ⦃o : Hashed K⦄ (key : E → K) where
  -- A slot was written, and every filled slot is still reached: a slot that is filled was reached by
  -- a probe.
  pub change-IsReached :
      (slots : List (Slot E)) (i : ℕ) (x : Slot E)
      → IsReached key slots
      → is_empty x.state ≡ false
      → (is_filled x.state ≡ true
          → (c : ℕ) × (c < length slots)
            × (i ≡ round (home key (key x.entry) (length slots)) c (length slots))
            × ((q : ℕ) (s : Slot E)
                → q < c
                → get_elem? slots (round (home key (key x.entry) (length slots)) q (length slots))
                  ≡ some s
                → is_empty s.state ≡ false))
      → IsReached key (set slots i x)
  change-IsReached slots i x valid nonempty new = record {
    bound = omega (arith, valid.bound, length-set slots i x);
    reach = λ d p s s' lt before at full at'.
        reach d p s s' (omega (arith, length-set slots i x)) before
          (rw (length-set slots i x) at at) full (rw (length-set slots i x) at at');
  }
    where
      by_new :
          (d p : ℕ) (s' : Slot E)
          → d < length slots
          → p < d
          → is_filled x.state ≡ true
          → round (home key (key x.entry) (length slots)) d (length slots) ≡ i
          → get_elem? slots (round (home key (key x.entry) (length slots)) p (length slots))
            ≡ some s'
          → is_empty s'.state ≡ false
      by_new d p s' lt before full here old' =
          let (c, lt', index, passed) = new full in
          let n = length slots in
          let c=d =
            round-injective (home key (key x.entry) n) c d n
              (home-lt key (key x.entry) n (omega arith)) lt' lt (sym index ∙ sym here) in
          passed p s' (omega arith) old'

      reach :
          (d p : ℕ) (s s' : Slot E)
          → d < length slots
          → p < d
          → get_elem?
              (set slots i x)
              (round (home key (key s.entry) (length slots)) d (length slots))
            ≡ some s
          → is_filled s.state ≡ true
          → get_elem?
              (set slots i x)
              (round (home key (key s.entry) (length slots)) p (length slots))
            ≡ some s'
          → is_empty s'.state ≡ false
      reach d p s s' lt before at full at' = elim (set-cases slots i _ x s' at') [
        | inl (here', same') ↦ rw same' nonempty
        | inr (away', old') ↦ elim (set-cases slots i _ x s at) [
          | inr (away, old) ↦ valid.reach d p s s' lt before old full old'
          | inl (here, same) ↦
              by_new d p s' lt before (rw same at full) (rw same at here) (rw same at old')
        ]
      ]

  -- A slot was written: every filled slot is still reached, and no two keys are equal.
  pub change-IsValid :
      (slots : List (Slot E)) (i : ℕ) (x : Slot E)
      → IsValid key slots
      → is_empty x.state ≡ false
      → (is_filled x.state ≡ true
          → Lacks (matches key (key x.entry)) slots
            × ((c : ℕ) × (c < length slots)
                × (i ≡ round (home key (key x.entry) (length slots)) c (length slots))
                × Passed key (key x.entry) slots (home key (key x.entry) (length slots)) c))
      → IsValid key (set slots i x)
  change-IsValid slots i x valid nonempty new = record {
    bound = reached.bound;
    reach = reached.reach;
    unique = unique;
  }
    where
      reached : IsReached key (set slots i x)
      reached = change-IsReached slots i x (IsValid-IsReached key valid) nonempty (λ full.
          let (lacks, (c, lt, index, passed)) = new full in
          (c, lt, index, λ q s before at. (passed q s before at).0))

      -- A slot that was there before has no key equal to a new one.
      other :
          (j : ℕ) (s : Slot E)
          → get_elem? slots j ≡ some s
          → is_filled s.state ≡ true
          → is_filled x.state ≡ true
          → o.equal (key x.entry) (key s.entry) ≡ true
          → ⊥
      other j s at full full' eq =
          let same = o.equal_symm _ _ eq in
          let lacks = (new full').0 j s at in
          let both : matches key (key x.entry) s ≡ true = rw (full, same) in cc both

      unique :
          (j j' : ℕ) (s s' : Slot E)
          → get_elem? (set slots i x) j ≡ some s
          → get_elem? (set slots i x) j' ≡ some s'
          → is_filled s.state ≡ true
          → is_filled s'.state ≡ true
          → o.equal (key s.entry) (key s'.entry) ≡ true
          → j ≡ j'
      unique j j' s s' at at' full full' eq = elim (set-cases slots i j x s at) [
        | inl (here, same) ↦ elim (set-cases slots i j' x s' at') [
          | inl (here', same') ↦ here ∙ sym here'
          | inr (away', old') ↦ absurd (other j' s' old' full' (rw same at full) (rw same at eq))
        ]
        | inr (away, old) ↦ elim (set-cases slots i j' x s' at') [
          | inl (here', same') ↦
              absurd (other j s old full (rw same' at full') (rw same' at (o.equal_symm _ _ eq)))
          | inr (away', old') ↦ valid.unique j j' s s' old old' full full' eq
        ]
      ]
