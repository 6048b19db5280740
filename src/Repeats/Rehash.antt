-- ===== src/Repeats/Rehash.antt =====
-- `rehash` and `maybe_grow` of include/ycetl/unordered_multiset.hpp and unordered_multimap.hpp: every
-- entry moves, however often its key is there.
use ycetl.Base.{
  ℕ, suc, ◌+◌, ◌*◌, ◌^◌, ◌<◌, ◌≡◌, refl, ◌∙◌, sym, ap, inl, inr, Bool, true, false, List, [], ◌∷◌,
  some, arith, ◌==◌, ltb, ◌>>=◌, Returns, length, get_elem?, set, length-set, Bool-cases,
  length-replicate,
}
use native.Mathlib.Decide.{dec_lt}
use ycetl.Size.{mul_size}
use ycetl.Rounds.{round}
use ycetl.Probe.{
  Hashed, Slot, Table, empty, is_filled, matches, place, replace_all, fresh, rehash, maybe_grow,
}
use ycetl.Probe.Scan.{count, count-Lacks, count-set, count-lt-length, count-le-length}
use ycetl.Probe.Change.{change-IsReached, set-cases}
use ycetl.Probe.Growth.{load_test}
use ycetl.Probe.Inserting.{full_slot}
use ycetl.Probe.Laws.{modulo-home}
use ycetl.Probe.Place.{NoTombstones, place-fills}
use ycetl.Probe.Rehash.{fresh-IsValid, fresh-slot, not_filled}
use ycetl.Probe.Replace.{slot_eq}
use ycetl.Probe.Valid.{IsReached, IsValid-IsReached, home, home-lt}
use ycetl.Repeats.Erasing.{IsBag, occurrences}

module _ {K E : Type 0} ⦃o : Hashed K⦄ (key : E → K) where
  -- A property that only entries have.
  abbrev pub OfEntries : (Slot E → Bool) → Type 0
  OfEntries q = (s : Slot E) → q s ≡ true → is_filled s.state ≡ true

  -- What moving entries makes of slots without tombstones: each is there once more.
  pub record Moves (old slots out : List (Slot E)) : Type 0 where
    pub reached : IsReached key out
    pub clean : NoTombstones key out
    pub size : length out ≡ length slots
    pub counts : (q : Slot E → Bool) → OfEntries q → count q out ≡ count q slots + count q old

  pub OfEntries-unfilled :
      (q : Slot E → Bool) (s : Slot E) → OfEntries q → is_filled s.state ≡ false → q s ≡ false
  OfEntries-unfilled q s sub free = elim (Bool-cases (q s)) [
    | inl t ↦ absurd (cc (sub s t))
    | inr f ↦ f
  ]

  place-Moves :
      (s : Slot E) (slots : List (Slot E))
      → is_filled s.state ≡ true
      → IsReached key slots
      → NoTombstones key slots
      → count (λ s. is_filled s.state) slots < length slots
      → Returns
          (place key s.entry slots (home key (key s.entry) (length slots)) (length slots) 0)
          (Moves (s ∷ []) slots)
  unfolding count
  place-Moves s slots full reached clean room =
      let n = length slots in
      let h = home key (key s.entry) n in
      let (j, u, at, unfilled) = count-lt-length (λ s. is_filled s.state) slots room in
      let (c, s', lt, here, free, before, run) =
        place-fills key s.entry slots h n 0 j u reached.bound
          (home-lt key (key s.entry) n (omega arith)) (omega arith) at
          (clean j u at ∙ rw unfilled refl) (λ q s lt. absurd (omega arith)) in
      let i = round h c n in
      let x = full_slot key s.entry in
      let same = slot_eq key s full in
      let free' : is_filled s'.state ≡ false = ground (arith, clean i s' here) in
      (
        set slots i x,
        run,
        record {
          reached = change-IsReached key slots i x reached refl (λ _. (c, lt, refl, before));
          clean = λ j s'' at'. elim (set-cases slots i j x s'' at') [
            | inl (here', e) ↦ rw e refl
            | inr (away, old) ↦ clean j s'' old
          ];
          size = length-set slots i x;
          counts = λ q sub.
              let gone = OfEntries-unfilled q s' sub free' in
              let there : q x ≡ q s = ap q same in ground (arith, count-set q slots i s' x here);
        },
      )

  placed_one :
      (s : Slot E) (slots mid : List (Slot E))
      → is_filled s.state ≡ true
      → Moves (s ∷ []) slots mid
      → count (λ s. is_filled s.state) mid ≡ count (λ s. is_filled s.state) slots + 1
  unfolding count
  placed_one s slots mid t p = p.counts (λ s. is_filled s.state) (λ s f. f) ∙ rw t refl

  moved_both :
      (s : Slot E) (old slots mid out : List (Slot E))
      → is_filled s.state ≡ true
      → 0 < length slots
      → place key s.entry slots (home key (key s.entry) (length slots)) (length slots) 0 ≡ some mid
      → Moves (s ∷ []) slots mid
      → replace_all key old mid ≡ some out
      → Moves old mid out
      → Returns (replace_all key (s ∷ old) slots) (Moves (s ∷ old) slots)
  unfolding replace_all count
  moved_both s old slots mid out t pos run p run' m = (
    out,
    rw (t, modulo-home key (key s.entry) (length slots) pos, ◌>>=◌, run) run',
    record {
      reached = m.reached;
      clean = m.clean;
      size = m.size ∙ p.size;
      counts = λ q sub. ground (arith, m.counts q sub, p.counts q sub);
    },
  )

  pub replace_all-Moves :
      (old slots : List (Slot E))
      → IsReached key slots
      → NoTombstones key slots
      → count (λ s. is_filled s.state) slots + count (λ s. is_filled s.state) old < length slots
      → Returns (replace_all key old slots) (Moves old slots)
  unfolding replace_all count
  replace_all-Moves [] slots reached clean room = (
    slots,
    refl,
    record { reached = reached; clean = clean; size = refl; counts = λ q sub. omega arith },
  )
  replace_all-Moves (s ∷ old) slots reached clean room = elim (Bool-cases (is_filled s.state)) [
    | inr t ↦
        let (out, run, m) = replace_all-Moves old slots reached clean (rw t at room) in
        (
          out,
          rw (t, ◌>>=◌) run,
          record {
            reached = m.reached;
            clean = m.clean;
            size = m.size;
            counts = λ q sub. let gone = OfEntries-unfilled q s sub t in rw gone (m.counts q sub);
          },
        )
    | inl t ↦
        let room' : count (λ s. is_filled s.state) slots + suc (count (λ s. is_filled s.state) old)
            < length slots =
          rw t at room in
        let (mid, run, p) = place-Moves s slots t reached clean (omega arith) in
        let (out, run', m) =
          replace_all-Moves old mid p.reached p.clean
            (omega (arith, placed_one s slots mid t p, p.size)) in
        moved_both s old slots mid out t (omega arith) run p run' m
  ]

  -- What `maybe_grow` makes of a table: each key is there as often, and there is room.
  pub record Grows (t t' : Table E) : Type 0 where
    pub kept : IsBag key t'
    pub same : (q : K) → occurrences key q t' ≡ occurrences key q t
    pub size : t'.size ≡ t.size
    pub room : t'.size < length t'.slots

  -- `rehash` to more slots than there are entries.
  pub rehash-Grows :
      (blank : E) (n : ℕ) (t : Table E)
      → IsBag key t
      → t.size < n
      → n < 2 ^ 62
      → Returns (rehash key blank n t) (Grows t)
  unfolding rehash occurrences fresh
  rehash-Grows blank n t bag room small =
      let new = fresh key blank n in
      let len : length new ≡ n = length-replicate n (record { state = empty; entry = blank }) in
      let vacant : (i : ℕ) (s : Slot E) → get_elem? new i ≡ some s → is_filled s.state ≡ false =
        λ i s at. not_filled key s (fresh-slot key blank n i s at) in
      let zero : (q : Slot E → Bool) → OfEntries q → count q new ≡ 0 =
        λ q sub. count-Lacks q new (λ i s at. OfEntries-unfilled q s sub (vacant i s at)) in
      let full : Slot E → Bool = λ s. is_filled s.state in
      let no_full = zero full (λ s f. f) in
      let (out, run, m) =
        replace_all-Moves t.slots new (IsValid-IsReached key (fresh-IsValid key blank n small))
          (λ i s at. fresh-slot key blank n i s at ∙ sym (rw (vacant i s at) refl))
          (omega (arith, no_full, bag.size, len)) in
      (
        record t { slots = out },
        rw (run, ◌>>=◌) refl,
        record {
          kept = record {
            reached = m.reached;
            size = omega (arith, bag.size, m.counts full (λ s f. f), no_full);
          };
          same = λ q.
              let sub : OfEntries (matches key q) = λ s e. ground arith in
              omega (arith, m.counts (matches key q) sub, zero (matches key q) sub);
          size = refl;
          room = omega (arith, m.size, len);
        },
      )

  rehash-nil :
      (blank : E) (slots : List (Slot E)) (size : ℕ)
      → length slots ≡ 0
      → rehash key blank 8 (record { slots = slots; size = size })
        ≡ some (record { slots = fresh key blank 8; size = size })
  unfolding rehash replace_all
  rehash-nil blank [] size e = refl
  rehash-nil blank (s ∷ slots) size e = absurd (omega arith)

  pub maybe_grow-Grows :
      (blank : E) (t : Table E)
      → IsBag key t
      → length t.slots < 2 ^ 57
      → Returns (maybe_grow key blank t) (Grows t)
  unfolding maybe_grow
  maybe_grow-Grows blank t bag small =
      let most = count-le-length (λ s. is_filled s.state) t.slots in
      let test = load_test key t (omega (arith, bag.size)) small in
      elim (dec_lt 0 (length t.slots)) [
        | no nil ↦
            let test' : (length t.slots == 0) ≡ true = ground arith in
            let (t', run, g) = rehash-Grows blank 8 t bag (omega (arith, bag.size)) (omega arith) in
            (t', rw test' (sym (rehash-nil blank t.slots t.size (omega arith)) ∙ run), g)
        | yes pos ↦
            let some_slots : (length t.slots == 0) ≡ false = ground arith in
            elim (Bool-cases (ltb (length t.slots * 70) ((t.size + 1) * 100))) [
              | inr under ↦ (
                t,
                rw (some_slots, test, under) refl,
                record { kept = bag; same = λ q. refl; size = refl; room = ground arith },
              )
              | inl over ↦
                  let twice : mul_size (length t.slots) 2 ≡ length t.slots * 2 = omega arith in
                  let (t', run, g) =
                    rehash-Grows blank (length t.slots * 2) t bag (omega (arith, bag.size))
                      (omega arith) in
                  (t', rw (some_slots, test, over) (ap (λ n. rehash key blank n t) twice ∙ run), g)
            ]
      ]
