-- ===== src/Hive/Vacating.antt =====
-- `erase` and `reserve` of include/ycetl/hive.hpp: no other element moves.
use ycetl.Base.{
  ℕ, ◌+◌, ◌<◌, ◌≡◌, ◌≢◌, refl, true, [], ◌∷◌, ◌++◌, none, some, inl, inr, arith, ◌==◌,
  if◌then◌else◌, Returns, Returns-bind, length, get_elem?, get_elem?-some, get_elem?-none,
  get_elem?-set, length-set, set, write, lt→ltb, lt_of_get_elem?, Bool-cases,
}
use native.Mathlib.Decide.{dec_lt, ℕ_discrete}
use ycetl.Size.{sub_size, size_mod}
use ycetl.Sequence.{get_elem?-snoc}
use ycetl.Probe.Scan.{count-set}
use ycetl.Hive.{empty, Slot, Hive, erase}
use ycetl.Hive.Laws.{full, shown, element, IsHive, Next, iterator-Next, element-set}

module _ {A : Type 0} where
  -- `erase` at an index: it has no element, every other index has what it had, and the iterator
  -- returned is at the next element, or at the end.
  pub record Vacates (idx : ℕ) (h : Hive A) (r : Hive A × ℕ) : Type 0 where
    pub kept : IsHive r.0
    pub elements : (i : ℕ) → element i r.0 ≡ (if i == idx then none else element i h)
    pub slots : length r.0.slots ≡ length h.slots
    pub next : Next (idx + 1) r.0 r.1

  filled_slot-of :
      (h : Hive A) (idx : ℕ) (v : A)
      → element idx h ≡ some v
      → (s : Slot A) × (get_elem? h.slots idx ≡ some s) × (full s ≡ true)
  unfolding element shown
  filled_slot-of h idx v e = elim (dec_lt idx (length h.slots)) [
    | no ge ↦ let past = get_elem?-none h.slots idx (omega arith) in absurd (cc (rw past at e))
    | yes lt ↦
        let (s, at) = get_elem?-some h.slots idx lt in
        (s, at, elim (Bool-cases (full s)) [ inl t ↦ t | inr f ↦ absurd (cc (rw (at, f) at e)) ])
  ]

  module _ (idx : ℕ) (h : Hive A) (k : IsHive h) (small : h.size < size_mod) (s : Slot A)
      (at : get_elem? h.slots idx ≡ some s) (was : full s ≡ true) where
    abbrev hole : Slot A
    hole = record { state = empty; value = s.value }

    abbrev vacated : Hive A
    vacated = record {
      slots = set h.slots idx hole;
      free = h.free ++ idx ∷ [];
      size = sub_size h.size 1;
    }

    not_free : (j : ℕ) → get_elem? h.free j ≢ some idx
    not_free j f = let (t, at', gone) = k.vacant j idx f in cc (at, at', was, gone)

    vacated-IsHive : IsHive vacated
    vacated-IsHive = record {
      vacant = λ j i f. elim (dec_lt j (length h.free)) [
        | yes lt ↦
            let f' : get_elem? h.free j ≡ some i = ground (arith, get_elem?-snoc h.free idx j) in
            let (t, at', gone) = k.vacant j i f' in
            let apart : i ≢ idx = λ same. not_free j (rw same at f') in
            (t, ground (arith, get_elem?-set h.slots idx i hole), gone)
        | no ge ↦
            let here : idx ≡ i = ground (arith, get_elem?-snoc h.free idx j) in
            (
              hole,
              ground (arith, get_elem?-set h.slots idx i hole, lt_of_get_elem? h.slots idx at),
              refl,
            )
      ];
      distinct = λ j l i f g. ground (
        arith,
        get_elem?-snoc h.free idx j,
        get_elem?-snoc h.free idx l,
        k.distinct j l i,
        not_free j,
        not_free l,
      );
      complete = λ i t f vac. elim (ℕ_discrete i idx) [
        | yes e ↦ (length h.free, ground (arith, get_elem?-snoc h.free idx (length h.free)))
        | no ne ↦
            let f' : get_elem? h.slots i ≡ some t =
              ground (arith, get_elem?-set h.slots idx i hole) in
            let (j, g) = k.complete i t f' vac in
            (j, ground (arith, get_elem?-snoc h.free idx j, lt_of_get_elem? h.free j g))
      ];
      size = ground (arith, count-set full h.slots idx s hole at, k.size);
    }

    vacated-Vacates : (j : ℕ) → Next (idx + 1) vacated j → Vacates idx h (vacated, j)
    vacated-Vacates j n = record {
      kept = vacated-IsHive;
      elements = λ i. unfold shown in element-set h idx hole _ _ i (lt_of_get_elem? h.slots idx at);
      slots = length-set h.slots idx hole;
      next = n;
    }

    erase-Vacates-at : Returns (erase idx h) (Vacates idx h)
    unfolding erase
    erase-Vacates-at =
        let lt = lt_of_get_elem? h.slots idx at in
        let (j, run, n) =
          iterator-Next (idx + 1) vacated (omega (arith, length-set h.slots idx hole)) in
        Returns-bind _ s _ at (
          Returns-bind (write h.slots idx hole) (set h.slots idx hole) _
            (rw (lt→ltb idx (length h.slots) lt) refl)
            (Returns-bind _ j _ run ((vacated, j), refl, vacated-Vacates j n)))

  -- On a hive of fewer than 2 ^ 64 elements, `erase` at an element does not fault; it leaves a hive
  -- of as many slots in which that index has no element and every other index what it had, and
  -- returns the iterator to the next element, or to the end, whose index is the number of slots, if
  -- there is none.
  pub erase-Vacates :
      (idx : ℕ) (v : A) (h : Hive A)
      → IsHive h
      → h.size < size_mod
      → element idx h ≡ some v
      → Returns (erase idx h) (Vacates idx h)
  erase-Vacates idx v h k small e =
      let (s, at, was) = filled_slot-of h idx v e in erase-Vacates-at idx h k small s at was
