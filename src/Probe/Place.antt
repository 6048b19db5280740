-- ===== src/Probe/Place.antt =====
-- The inner loop of `rehash` of include/ycetl/unordered_map.hpp and unordered_set.hpp.
use native.Mathlib.Decide.{dec_lt}
use ycetl.Base.{
  ℕ, zero, suc, ◌+◌, ◌^◌, ◌<◌, ◌≡◌, refl, ◌∙◌, ◌⊎◌, inl, inr, true, false, not, List, some, arith,
  if◌then◌else◌, ◌>>=◌, Returns, length, get_elem?, set, length-set, Bool-cases, lt_of_get_elem?,
  get_elem?-some, lt→ltb,
}
use ycetl.Rounds.{round, round-lt-length, unround, modulo-round}
use ycetl.Probe.{Hashed, Slot, is_filled, is_empty, matches, place}
use ycetl.Probe.Scan.{first, count, Lacks, count-set, count-lt-length}
use ycetl.Probe.Change.{change-IsValid, set-cases}
use ycetl.Probe.Inserting.{full_slot, stored-filled}
use ycetl.Probe.Valid.{IsValid, stored, home, home-lt}

module _ {K E : Type 0} ⦃o : Hashed K⦄ (key : E → K) where
  -- No slot is a tombstone.
  abbrev pub NoTombstones : List (Slot E) → Type 0
  NoTombstones slots =
      (i : ℕ) (s : Slot E) → get_elem? slots i ≡ some s → is_empty s.state ≡ not (is_filled s.state)

  -- The inner loop fills an empty slot, with no empty slot before it, if there is an empty one.
  pub place-fills :
      (e : E) (slots : List (Slot E)) (h rounds p j : ℕ) (u : Slot E)
      → length slots < 2 ^ 62
      → h < length slots
      → p + rounds ≡ length slots
      → get_elem? slots j ≡ some u
      → is_empty u.state ≡ true
      → ((q : ℕ) (s : Slot E)
          → q < p
          → get_elem? slots (round h q (length slots)) ≡ some s
          → is_empty s.state ≡ false)
      → (c : ℕ) × (s : Slot E) × (c < length slots)
        × (get_elem? slots (round h c (length slots)) ≡ some s)
        × (is_empty s.state ≡ true)
        × ((q : ℕ) (s : Slot E)
            → q < c
            → get_elem? slots (round h q (length slots)) ≡ some s
            → is_empty s.state ≡ false)
        × (place key e slots h rounds p
            ≡ some (set slots (round h c (length slots)) (full_slot key e)))
  unfolding place
  place-fills e slots h zero p j u bound lt end at free passed =
      let (d, below, e') = unround h j (length slots) lt (lt_of_get_elem? slots j at) in
      absurd (cc (passed d u (omega arith) (rw e' at)))
  place-fills e slots h (suc rounds) p j u bound lt end at free passed =
      let n = length slots in
      let below : p < n = omega arith in
      let i = round h p n in
      let inside = round-lt-length h p n lt below in
      let (s, here) = get_elem?-some slots i inside in
      let index = modulo-round h p n lt (omega arith) bound in
      elim (Bool-cases (is_empty s.state)) [
        | inl t ↦ (p, s, below, here, t, passed, rw (index, ◌>>=◌, here, t, lt→ltb i n inside))
        | inr t ↦
            let (c, s', lt', there, free', before, run) =
              place-fills e slots h rounds (p + 1) j u bound lt (omega arith) at free
                (step s here t) in
            (c, s', lt', there, free', before, rw (index, ◌>>=◌, here, t) run)
      ]
    where
      step :
          (s : Slot E)
          → get_elem? slots (round h p (length slots)) ≡ some s
          → is_empty s.state ≡ false
          → (q : ℕ) (s' : Slot E) → q < p + 1
          → get_elem? slots (round h q (length slots)) ≡ some s'
          → is_empty s'.state ≡ false
      step s here t q s' lt' at' = elim (dec_lt q p) [
        | yes before ↦ passed q s' before at'
        | no not_before ↦
            let q=p : q ≡ p = omega arith in
            let at'' : get_elem? slots (round h p (length slots)) ≡ some s' = rw (← q=p) at' in
            ground arith
      ]

  -- What placing an entry makes of slots without tombstones.
  pub record Placed (e : E) (slots out : List (Slot E)) : Type 0 where
    pub valid : IsValid key out
    pub clean : NoTombstones out
    pub size : length out ≡ length slots
    pub filled : count (λ s. is_filled s.state) out ≡ count (λ s. is_filled s.state) slots + 1
    pub values :
        (q : K)
        → first (matches key q) out
          ≡ (if o.equal (key e) q then some (full_slot key e) else first (matches key q) slots)
    pub old :
        (i : ℕ) (s : Slot E)
        → get_elem? out i ≡ some s
        → (s ≡ full_slot key e) ⊎ (get_elem? slots i ≡ some s)

  pub place-Placed :
      (e : E) (slots : List (Slot E))
      → IsValid key slots
      → NoTombstones slots
      → count (λ s. is_filled s.state) slots < length slots
      → Lacks (matches key (key e)) slots
      → Returns
          (place key e slots (home key (key e) (length slots)) (length slots) 0)
          (Placed e slots)
  unfolding stored
  place-Placed e slots valid clean room lacks =
      let n = length slots in
      let h = home key (key e) n in
      let (j, u, at, unfilled) = count-lt-length (λ s. is_filled s.state) slots room in
      let h_lt = home-lt key (key e) n (omega arith) in
      let (c, s, lt, here, free, before, run) =
        place-fills e slots h n 0 j u valid.bound h_lt (omega arith) at (clean j u at ∙ rw unfilled)
          (λ q s lt. absurd (omega arith)) in
      let i = round h c n in
      let x = full_slot key e in
      let free' : is_filled s.state ≡ false = ground (arith, clean i s here) in
      let counted = count-set (λ s. is_filled s.state) slots i s x here in
      let zero : ◌≡◌ {A = ℕ} (if is_filled s.state then 1 else 0) 0 = rw free' in
      let valid' = change-IsValid key slots i x valid refl (λ _. (
        lacks,
        (c, lt, refl, λ q s' lt' at'. (before q s' lt' at', lacks (round h q n) s' at')),
      )) in
      (
        set slots i x,
        run,
        record {
          valid = valid';
          clean = λ j s' at'. elim (set-cases slots i j x s' at') [
            | inl (here', same) ↦ rw same refl
            | inr (away, old) ↦ clean j s' old
          ];
          size = length-set slots i x;
          filled = omega (arith, counted, zero);
          values =
              λ q. stored-filled key q e (record { slots = slots; size = 0 }) i s valid' here free';
          old = λ j s' at'. elim (set-cases slots i j x s' at') [
            | inl (here', same) ↦ inl same
            | inr (away, old) ↦ inr old
          ];
        },
      )
