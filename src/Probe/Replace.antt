-- ===== src/Probe/Replace.antt =====
-- The outer loop of `rehash` of include/ycetl/unordered_map.hpp and unordered_set.hpp.
use ycetl.Base.{
  ℕ, suc, ◌+◌, ◌<◌, ◌≡◌, refl, ◌∙◌, sym, ap, ◌⊎◌, inl, inr, true, List, [], ◌∷◌, some, arith,
  if◌then◌else◌, ◌>>=◌, Returns, length, get_elem?, Bool-cases, is_some,
}
use ycetl.Probe.{
  Hashed, Slot, SlotState, tombstone, empty, filled, is_filled, matches, place, replace_all,
}
use ycetl.Probe.Scan.{first, count, Lacks, first-Lacks}
use ycetl.Probe.Inserting.{full_slot}
use ycetl.Probe.Laws.{modulo-home}
use ycetl.Probe.Place.{NoTombstones, Placed, place-Placed}
use ycetl.Probe.Valid.{IsValid, home, matches-split}

module _ {K E : Type 0} ⦃o : Hashed K⦄ (key : E → K) where
  filled_of : (x : SlotState) → is_filled x ≡ true → x ≡ filled
  filled_of filled e = refl
  filled_of empty e = absurd (cc e)
  filled_of tombstone e = absurd (cc e)

  pub slot_eq : (s : Slot E) → is_filled s.state ≡ true → full_slot key s.entry ≡ s
  slot_eq s t = λ i. record { state = sym (filled_of s.state t) i; entry = s.entry }

  -- No two filled slots have equal keys.
  abbrev pub Distinct : List (Slot E) → Type 0
  Distinct slots =
      (i j : ℕ) (s s' : Slot E)
      → get_elem? slots i ≡ some s
      → get_elem? slots j ≡ some s'
      → is_filled s.state ≡ true
      → is_filled s'.state ≡ true
      → o.equal (key s.entry) (key s'.entry) ≡ true
      → i ≡ j

  -- No key of the one is a key of the other.
  abbrev pub Apart : (old slots : List (Slot E)) → Type 0
  Apart old slots =
      (i : ℕ) (s : Slot E)
      → get_elem? old i ≡ some s
      → is_filled s.state ≡ true
      → Lacks (matches key (key s.entry)) slots

  -- What the outer loop makes of new slots, from the old ones that are left.
  pub record Replaced (old slots out : List (Slot E)) : Type 0 where
    pub valid : IsValid key out
    pub clean : NoTombstones key out
    pub size : length out ≡ length slots
    pub filled :
        count (λ s. is_filled s.state) out
        ≡ count (λ s. is_filled s.state) slots + count (λ s. is_filled s.state) old
    pub values :
        (q : K)
        → first (matches key q) out ≡ (
            if is_some (first (matches key q) old)
            then first (matches key q) old
            else first (matches key q) slots)

  pub replace_all-Replaced :
      (old slots : List (Slot E))
      → IsValid key slots
      → NoTombstones key slots
      → count (λ s. is_filled s.state) slots + count (λ s. is_filled s.state) old < length slots
      → Distinct old
      → Apart old slots
      → Returns (replace_all key old slots) (Replaced old slots)
  unfolding replace_all count first
  replace_all-Replaced [] slots valid clean room distinct apart = (
    slots,
    refl,
    record { valid = valid; clean = clean; size = refl; filled = omega arith; values = λ q. refl },
  )
  replace_all-Replaced (s ∷ old) slots valid clean room distinct apart =
      elim (Bool-cases (is_filled s.state)) [
        | inr t ↦
            let (out, run, r) =
              replace_all-Replaced old slots valid clean (rw t at room) (tail distinct)
                (λ i s. apart (suc i) s) in
            (
              out,
              rw (t, ◌>>=◌) run,
              record {
                valid = r.valid;
                clean = r.clean;
                size = r.size;
                filled = rw t r.filled;
                values = λ q. rw t (r.values q);
              },
            )
        | inl t ↦
            let room' : count (λ s. is_filled s.state) slots
                  + suc (count (λ s. is_filled s.state) old)
                < length slots =
              rw t at room in
            let (mid, run, p) =
              place-Placed key s.entry slots valid clean (omega arith) (apart 0 s refl t) in
            let (out, run', r) =
              replace_all-Replaced old mid p.valid p.clean (omega (arith, p.size, p.filled))
                (tail distinct) (apart' mid t p.old) in
            step t (omega arith) mid run p out run' r
      ]
    where
      tail : Distinct (s ∷ old) → Distinct old
      tail d i j x y at at' f f' e = omega (arith, d (suc i) (suc j) x y at at' f f' e)

      others :
          is_filled s.state ≡ true
          → (q : K) → o.equal (key s.entry) q ≡ true
          → Lacks (matches key q) old
      others t q u i s' at = elim (Bool-cases (matches key q s')) [
        | inr f ↦ f
        | inl m ↦
            let (full', same) = matches-split key q s' m in
            let eq = o.equal_trans _ _ _ u (o.equal_symm _ _ same) in
            absurd (omega (arith, distinct 0 (suc i) s s' refl at t full' eq))
      ]

      apart' :
          (mid : List (Slot E))
          → is_filled s.state ≡ true
          → ((j : ℕ) (x : Slot E)
              → get_elem? mid j ≡ some x
              → (x ≡ full_slot key s.entry) ⊎ (get_elem? slots j ≡ some x))
          → Apart old mid
      apart' mid t from i s' at full' j x at' = elim (from j x at') [
        | inr there ↦ apart (suc i) s' at full' j x there
        | inl same ↦ elim (Bool-cases (o.equal (key s.entry) (key s'.entry))) [
          | inr f ↦ rw (same, f)
          | inl u ↦ absurd (omega (arith, distinct 0 (suc i) s s' refl at t full' u))
        ]
      ]

      values :
          (mid out : List (Slot E))
          → is_filled s.state ≡ true
          → (q : K)
          → first (matches key q) mid ≡ (
              if o.equal (key s.entry) q
              then some (full_slot key s.entry)
              else first (matches key q) slots)
          → first (matches key q) out ≡ (
              if is_some (first (matches key q) old)
              then first (matches key q) old
              else first (matches key q) mid)
          → first (matches key q) out ≡ (
              if is_some (first (matches key q) (s ∷ old))
              then first (matches key q) (s ∷ old)
              else first (matches key q) slots)
      values mid out t q e e' = elim (Bool-cases (o.equal (key s.entry) q)) [
        | inl u ↦
            let lacks = first-Lacks (matches key q) old (λ i s' at. others t q u i s' at) in
            rw (t, u) (rw lacks at e' ∙ rw u at e ∙ ap some (slot_eq s t))
        | inr u ↦ rw (t, u) (rw (e, u) at e')
      ]

      step :
          is_filled s.state ≡ true
          → 0 < length slots
          → (mid : List (Slot E))
          → place key s.entry slots (home key (key s.entry) (length slots)) (length slots) 0
            ≡ some mid
          → Placed key s.entry slots mid
          → (out : List (Slot E)) → replace_all key old mid ≡ some out
          → Replaced old mid out
          → Returns (replace_all key (s ∷ old) slots) (Replaced (s ∷ old) slots)
      step t pos mid run p out run' r = (
        out,
        rw (t, modulo-home key (key s.entry) (length slots) pos, ◌>>=◌, run) run',
        record {
          valid = r.valid;
          clean = r.clean;
          size = r.size ∙ p.size;
          filled = rw t (omega (arith, r.filled, p.filled));
          values = λ q. values mid out t q (p.values q) (r.values q);
        },
      )
