-- ===== src/Probe/Seek.antt =====
-- The probe loops of include/ycetl/unordered_map.hpp and unordered_set.hpp, and where they end.
use ycetl.Base.{
  ℕ, zero, suc, ◌+◌, ◌^◌, ◌≤◌, ◌<◌, ◌≡◌, refl, ◌⊎◌, inl, inr, true, false, List, some, arith, ◌==◌,
  if◌then◌else◌, ◌>>=◌, Returns, length, get_elem?, Bool-cases, get_elem?-some,
}
use native.Mathlib.Decide.{dec_lt}
use ycetl.Size.{npos}
use ycetl.Rounds.{round, modulo-round, round-lt-length}
use ycetl.Probe.{
  Hashed, Slot, Stop, at_key, at_slot, nowhere, SlotState, empty, filled, tombstone, is_filled,
  is_empty, matches, find_loop, seek,
}
use ycetl.Probe.Valid.{Passed, Ends}

module _ {K E : Type 0} ⦃o : Hashed K⦄ (key : E → K) where
  -- The slot that a probe reads.
  pub probe-slot :
      (slots : List (Slot E)) (h p : ℕ)
      → h < length slots
      → p < length slots
      → (s : Slot E) × (get_elem? slots (round h p (length slots)) ≡ some s)
  probe-slot slots h p lt lt' =
      get_elem?-some slots (round h p (length slots)) (round-lt-length h p (length slots) lt lt')

  pub pass :
      (k : K) (slots : List (Slot E)) (h p : ℕ) (s : Slot E)
      → Passed key k slots h p
      → get_elem? slots (round h p (length slots)) ≡ some s
      → is_empty s.state ≡ false
      → matches key k s ≡ false
      → Passed key k slots h (p + 1)
  pass k slots h p s passed at free other q s' lt at' = elim (dec_lt q p) [
    | yes before ↦ passed q s' before at'
    | no not_before ↦
        let q=p : q ≡ p = omega arith in
        let at'' : get_elem? slots (round h p (length slots)) ≡ some s' = rw (← q=p) at' in
        (ground arith, ground arith)
  ]

  -- The loop of `find_slot` ends at the key, or passed by every slot it saw.
  pub find_loop-Ends :
      (k : K) (slots : List (Slot E)) (h rounds p : ℕ)
      → length slots < 2 ^ 62
      → h < length slots
      → p + rounds ≡ length slots
      → Passed key k slots h p
      → Returns (find_loop key k slots h rounds p) λ i.
        ((s : Slot E) × (get_elem? slots i ≡ some s) × (matches key k s ≡ true))
        ⊎ ((i ≡ npos) × ((d : ℕ) × Passed key k slots h d × Ends key slots h d))
  unfolding find_loop
  find_loop-Ends k slots h zero p bound lt end passed =
      (npos, refl, inr (refl, (p, passed, inl (omega arith))))
  find_loop-Ends k slots h (suc rounds) p bound lt end passed =
      let below : p < length slots = omega arith in
      let (s, at) = probe-slot slots h p lt below in
      let index = modulo-round h p (length slots) lt (omega arith) bound in
      elim (Bool-cases (is_empty s.state)) [
        | inl t ↦ (npos, rw (index, ◌>>=◌, at, t), inr (refl, (p, passed, inr (s, below, at, t))))
        | inr t ↦ elim (Bool-cases (matches key k s)) [
          | inl u ↦ (round h p (length slots), rw (index, ◌>>=◌, at, t, u), inl (s, at, u))
          | inr u ↦
              let (i, run, outcome) =
                find_loop-Ends k slots h rounds (p + 1) bound lt (omega arith)
                  (pass k slots h p s passed at t u) in
              (i, rw (index, ◌>>=◌, at, t, u) run, outcome)
        ]
      ]

  -- A slot to fill: not filled now, and no further on than the probe came.
  pub record IsTarget (slots : List (Slot E)) (h d i : ℕ) : Type 0 where
    pub place : ℕ
    pub slot : Slot E
    pub near : place ≤ d
    pub inside : place < length slots
    pub index : i ≡ round h place (length slots)
    pub here : get_elem? slots i ≡ some slot
    pub free : is_filled slot.state ≡ false

  -- The variable `first_tombstone` when the probe comes to `p`.
  abbrev IsFirst : List (Slot E) → (h first p : ℕ) → Type 0
  IsFirst slots h first p = (first ≡ npos) ⊎ IsTarget slots h p first

  -- What the loop says where it stops.
  unfoldable pub Outcome : K → List (Slot E) → ℕ → Stop → Type 0
  Outcome k slots h (at_key i) =
      (s : Slot E) × (get_elem? slots i ≡ some s) × (matches key k s ≡ true)
  Outcome k slots h (at_slot i) =
      (d : ℕ) × (s : Slot E) × IsTarget slots h d i
      × Passed key k slots h d
      × (d < length slots)
      × (get_elem? slots (round h d (length slots)) ≡ some s)
      × (is_empty s.state ≡ true)
  Outcome k slots h nowhere = Passed key k slots h (length slots)

  state-cases : (x : SlotState) → (x ≡ empty) ⊎ ((x ≡ tombstone) ⊎ (x ≡ filled))
  state-cases empty = inl refl
  state-cases tombstone = inr (inl refl)
  state-cases filled = inr (inr refl)

  -- The slot that is filled if the probe ends at `p`.
  target :
      (slots : List (Slot E)) (h first p : ℕ) (s : Slot E)
      → length slots < 2 ^ 62
      → h < length slots
      → p < length slots
      → get_elem? slots (round h p (length slots)) ≡ some s
      → is_filled s.state ≡ false
      → IsFirst slots h first p
      → IsTarget slots h p (if first == npos then round h p (length slots) else first)
  target slots h first p s bound lt below at free known = elim known [
    | inl none_yet ↦
        let t : (first == npos) ≡ true = ground arith in
        rw t (record {
          place = p;
          slot = s;
          near = omega arith;
          inside = below;
          index = refl;
          here = at;
          free = free;
        })
    | inr found ↦
        let t : (first == npos) ≡ false =
          ground
            (arith, found.index, round-lt-length h found.place (length slots) lt found.inside) in
        rw t found
  ]

  later : {slots : List (Slot E)} {h d i : ℕ} → IsTarget slots h d i → IsTarget slots h (d + 1) i
  later t = record {
    place = t.place;
    slot = t.slot;
    near = omega (arith, t.near);
    inside = t.inside;
    index = t.index;
    here = t.here;
    free = t.free;
  }

  pub seek-Outcome :
      (k : K) (slots : List (Slot E)) (h first rounds p : ℕ)
      → length slots < 2 ^ 62
      → h < length slots
      → p + rounds ≡ length slots
      → IsFirst slots h first p
      → Passed key k slots h p
      → Returns (seek key k slots h first rounds p) (Outcome k slots h)
  unfolding seek Outcome
  seek-Outcome k slots h first zero p bound lt end known passed =
      (nowhere, refl, λ q s lt' at. passed q s (omega arith) at)
  seek-Outcome k slots h first (suc rounds) p bound lt end known passed =
      let below : p < length slots = omega arith in
      let (s, at) = probe-slot slots h p lt below in
      let index = modulo-round h p (length slots) lt (omega arith) bound in
      elim (state-cases s.state) [
        | inl e ↦ (
          at_slot (if first == npos then round h p (length slots) else first),
          rw (index, ◌>>=◌, at, e),
          (p, s, target slots h first p s bound lt below at (rw e) known, passed, below, at, rw e),
        )
        | inr (inl e) ↦
            let known' = later (target slots h first p s bound lt below at (rw e) known) in
            let (stop, run, outcome) =
              seek-Outcome k slots h (if first == npos then round h p (length slots) else first)
                rounds (p + 1) bound lt (omega arith) (inr known')
                (pass k slots h p s passed at (rw e) (rw e)) in
            (stop, rw (index, ◌>>=◌, at, e) run, outcome)
        | inr (inr e) ↦ elim (Bool-cases (o.equal (key s.entry) k)) [
          | inl t ↦
              (at_key (round h p (length slots)), rw (index, ◌>>=◌, at, e, t), (s, at, rw (e, t)))
          | inr t ↦
              let known' : IsFirst slots h first (p + 1) = elim known [
                | inl n ↦ inl n
                | inr f ↦ inr (later f)
              ] in
              let (stop, run, outcome) =
                seek-Outcome k slots h first rounds (p + 1) bound lt (omega arith) known'
                  (pass k slots h p s passed at (rw e) (rw (e, t))) in
              (stop, rw (index, ◌>>=◌, at, e, t) run, outcome)
        ]
      ]
