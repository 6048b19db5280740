-- ===== src/Hive/Laws.antt =====
-- The operations of include/ycetl/hive.hpp keep every element at its index.
use ycetl.Base.{
  ℕ, zero, suc, ◌+◌, ◌-◌, ◌≤◌, ◌<◌, ◌≡◌, ◌≢◌, refl, ◌∙◌, ap, true, false, Bool, List, [], ◌∷◌, ◌++◌,
  Option, none, some, inl, inr, arith, ◌==◌, ltb, if◌then◌else◌, ◌>>=◌, Returns, Returns-bind,
  length, get_elem?, get_elem?-some, get_elem?-none, get_elem?-set, length-set, set, take,
  length-append, lt→ltb, lt_of_get_elem?, Bool-cases,
}
use native.Mathlib.Decide.{dec_lt, ℕ_discrete}
use ycetl.Size.{add_size, size_mod}
use ycetl.Sequence.{get_elem?-snoc, get_elem?-take}
use ycetl.Flat.{drop_last}
use ycetl.Probe.Scan.{count, count-set, count-snoc}
use ycetl.Hive.{filled, is_filled, Slot, Hive, advance_to_filled, iterator, recycle, insert}

module _ {A : Type 0} where
  -- A slot with an element.
  abbrev pub full : Slot A → Bool
  full s = is_filled s.state

  -- The element of a slot, if it has one.
  unfoldable pub shown : Option (Slot A) → Option A
  shown none = none
  shown (some s) = if is_filled s.state then some s.value else none

  -- The element at an index, if there is one.
  unfoldable pub element : ℕ → Hive A → Option A
  unfolding shown
  element i h = shown (get_elem? h.slots i)

  -- The stack has the index of each empty slot once and no other, and the size counts the elements.
  pub record IsHive (h : Hive A) : Type 0 where
    pub vacant :
        (k i : ℕ)
        → get_elem? h.free k ≡ some i
        → (s : Slot A) × (get_elem? h.slots i ≡ some s) × (full s ≡ false)
    pub distinct : (j k i : ℕ) → get_elem? h.free j ≡ some i → get_elem? h.free k ≡ some i → j ≡ k
    pub complete :
        (i : ℕ) (s : Slot A)
        → get_elem? h.slots i ≡ some s
        → full s ≡ false
        → (k : ℕ) × (get_elem? h.free k ≡ some i)
    pub size : h.size ≡ count full h.slots

  -- The search of the iterator stops at the first element from its index on.
  pub record Next (i : ℕ) (h : Hive A) (j : ℕ) : Type 0 where
    pub from : i ≤ j
    pub inside : j ≤ length h.slots
    pub found : (j < length h.slots) → (v : A) × (element j h ≡ some v)
    pub skipped : (k : ℕ) → i ≤ k → k < j → element k h ≡ none

  advance-Next :
      (h : Hive A) (rounds i : ℕ)
      → i + rounds ≡ length h.slots
      → Returns (advance_to_filled rounds i h.slots) (Next i h)
  unfolding advance_to_filled element
  advance-Next h zero i fits = (
    i,
    refl,
    record {
      from = omega arith;
      inside = omega arith;
      found = λ lt. absurd (omega arith);
      skipped = λ k le lt. absurd (omega arith);
    },
  )
  advance-Next h (suc rounds) i fits =
      let (s, at) = get_elem?-some h.slots i (omega arith) in
      elim (Bool-cases (full s)) [
        | inl t ↦ (
          i,
          rw (at, ◌>>=◌, t) refl,
          record {
            from = omega arith;
            inside = omega arith;
            found = λ lt. (s.value, rw (at, t) refl);
            skipped = λ k le lt. absurd (omega arith);
          },
        )
        | inr t ↦
            let (j, run, n) = advance-Next h rounds (i + 1) (omega arith) in
            (
              j,
              rw (at, ◌>>=◌, t) run,
              record {
                from = omega (arith, n.from);
                inside = n.inside;
                found = n.found;
                skipped = λ k le lt. elim (ℕ_discrete k i) [
                  | yes e ↦ rw (e, at, t) refl
                  | no ne ↦ n.skipped k (omega arith) lt
                ];
              },
            )
      ]

  pub iterator-Next : (i : ℕ) (h : Hive A) → i ≤ length h.slots → Returns (iterator i h) (Next i h)
  unfolding iterator
  iterator-Next i h le = advance-Next h (length h.slots - i) i (omega arith)

  pub element-lt : (h : Hive A) (i : ℕ) (v : A) → element i h ≡ some v → i < length h.slots
  unfolding element
  element-lt h i v e = elim (dec_lt i (length h.slots)) [
    | yes lt ↦ lt
    | no ge ↦
        let past : shown (get_elem? h.slots i) ≡ none =
          rw (get_elem?-none h.slots i (omega arith)) (unfold shown in refl) in
        absurd (cc)
  ]

  -- The iterator at an element stays there.
  iterator-here : (h : Hive A) (i : ℕ) (v : A) → element i h ≡ some v → iterator i h ≡ some i
  iterator-here h i v e =
      let (j, run, n) = iterator-Next i h (omega (arith, element-lt h i v e)) in
      run
      ∙ ap some (elim (dec_lt i j) [
        | yes lt ↦ absurd (cc (n.skipped i (omega arith) lt, e))
        | no ge ↦ omega (arith, n.from)
      ])

  -- An element filled in: it is at its index, which had none, and every other index is as it was.
  pub record Places (v : A) (h : Hive A) (r : Hive A × ℕ) : Type 0 where
    pub kept : IsHive r.0
    pub was_vacant : element r.1 h ≡ none
    pub elements : (i : ℕ) → element i r.0 ≡ (if i == r.1 then some v else element i h)
    pub slots :
        length r.0.slots ≡ (if length h.free == 0 then length h.slots + 1 else length h.slots)

  pub element-set :
      (h : Hive A) (idx : ℕ) (new : Slot A) (free : List ℕ) (n i : ℕ)
      → idx < length h.slots
      → element i (record { slots = set h.slots idx new; free = free; size = n })
        ≡ (if i == idx then shown (some new) else element i h)
  unfolding element
  element-set h idx new free n i lt = elim (ℕ_discrete i idx) [
    | yes e ↦
        let here : (i == idx) ≡ true = ground arith in
        let read : get_elem? (set h.slots idx new) i ≡ some new =
          ground (arith, get_elem?-set h.slots idx i new) in
        rw (here, read) refl
    | no ne ↦
        let apart : (i == idx) ≡ false = ground arith in
        let read : get_elem? (set h.slots idx new) i ≡ get_elem? h.slots i =
          ground (arith, get_elem?-set h.slots idx i new) in
        rw (apart, read) refl
  ]

  module _ (v : A) (h : Hive A) (k : IsHive h) (small : h.size + 1 < size_mod) where
    abbrev filled_slot : Slot A
    filled_slot = record { state = filled; value = v }

    module _ (idx : ℕ) (s : Slot A) (more : 0 < length h.free)
        (e : get_elem? h.free (length h.free - 1) ≡ some idx) (at : get_elem? h.slots idx ≡ some s)
        (gone : full s ≡ false) where
      abbrev recycled : Hive A
      recycled = record {
        slots = set h.slots idx filled_slot;
        free = take (length h.free - 1) h.free;
        size = add_size h.size 1;
      }

      recycle-run : recycle v h ≡ some (recycled, idx)
      unfolding recycle drop_last
      recycle-run =
          let some_free : (length h.free == 0) ≡ false = ground arith in
          rw (e, ◌>>=◌, some_free, lt→ltb idx (length h.slots) (lt_of_get_elem? h.slots idx at))
            refl

      recycled-IsHive : IsHive recycled
      recycled-IsHive = record {
        vacant = λ j i f.
            let f' : get_elem? h.free j ≡ some i =
              ground (arith, get_elem?-take (length h.free - 1) h.free j) in
            let inner : j < length h.free - 1 =
              ground (arith, get_elem?-take (length h.free - 1) h.free j) in
            let (t, at', gone') = k.vacant j i f' in
            (
              t,
              ground (
                arith,
                get_elem?-set h.slots idx i filled_slot,
                k.distinct j (length h.free - 1) i,
              ),
              gone',
            );
        distinct = λ j l i f g. ground (
          arith,
          get_elem?-take (length h.free - 1) h.free j,
          get_elem?-take (length h.free - 1) h.free l,
          k.distinct j l i,
        );
        complete = λ i t f vac.
            let apart : i ≢ idx = λ same.
              let filled_there : full t ≡ true =
                ground (
                  arith,
                  get_elem?-set h.slots idx i filled_slot,
                  lt_of_get_elem? h.slots idx at,
                ) in
              cc in
            let f' : get_elem? h.slots i ≡ some t =
              ground (arith, get_elem?-set h.slots idx i filled_slot) in
            let (j, g) = k.complete i t f' vac in
            let inner : j ≢ length h.free - 1 = λ same. apart (cc (rw same at g, e)) in
            (
              j,
              ground
                  (arith, get_elem?-take (length h.free - 1) h.free j, lt_of_get_elem? h.free j g),
            );
        size = ground (arith, count-set full h.slots idx s filled_slot at, k.size);
      }

    abbrev appended : Hive A
    appended = record {
      slots = h.slots ++ filled_slot ∷ [];
      free = h.free;
      size = add_size h.size 1;
    }

    appended-IsHive : length h.free ≡ 0 → IsHive appended
    appended-IsHive none_free = record {
      vacant = λ j i f. absurd (omega (arith, lt_of_get_elem? h.free j f));
      distinct = k.distinct;
      complete = λ i t f vac.
          let f' : get_elem? h.slots i ≡ some t =
            ground (arith, get_elem?-snoc h.slots filled_slot i) in
          k.complete i t f' vac;
      size = unfold count in ground (arith, count-snoc full h.slots filled_slot, k.size);
    }

    element-appended :
        (i : ℕ) → element i appended ≡ (if i == length h.slots then some v else element i h)
    unfolding element shown
    element-appended i = elim (ℕ_discrete i (length h.slots)) [
      | yes e ↦
          let here : (i == length h.slots) ≡ true = ground arith in
          let read : get_elem? (h.slots ++ filled_slot ∷ []) i ≡ some filled_slot =
            ground (arith, get_elem?-snoc h.slots filled_slot i) in
          rw (here, read) refl
      | no ne ↦
          let apart : (i == length h.slots) ≡ false = ground arith in
          let read : get_elem? (h.slots ++ filled_slot ∷ []) i ≡ get_elem? h.slots i =
            ground (arith, get_elem?-snoc h.slots filled_slot i, get_elem?-none h.slots i) in
          rw (apart, read) refl
    ]

    -- On a hive of fewer than 2 ^ 64 - 1 elements, `insert` does not fault; it leaves a hive in
    -- which a free index has the element and every other index what it had, adds a slot exactly if
    -- none is on the stack, and returns the iterator to the element.
    pub insert-Places : Returns (insert v h) (Places v h)
    unfolding insert shown
    insert-Places = elim (dec_lt 0 (length h.free)) [
      | yes more ↦
          let (idx, e) = get_elem?-some h.free (length h.free - 1) (omega arith) in
          let (s, at, gone) = k.vacant (length h.free - 1) idx e in
          let test : ltb 0 (length h.free) ≡ true = ground arith in
          let kept_free : (length h.free == 0) ≡ false = ground arith in
          finish (recycled idx s more e at gone) idx (rw test (recycle-run idx s more e at gone))
            (record {
              kept = recycled-IsHive idx s more e at gone;
              was_vacant = unfold element in unfold shown in rw (at, gone) refl;
              elements = λ i. element-set h idx filled_slot _ _ i (lt_of_get_elem? h.slots idx at);
              slots = length-set h.slots idx filled_slot ∙ rw kept_free refl;
            })
      | no none_free ↦
          let empty_stack : length h.free ≡ 0 = omega arith in
          let test : ltb 0 (length h.free) ≡ false = ground arith in
          let grows : (length h.free == 0) ≡ true = ground arith in
          finish appended (length h.slots) (rw test refl) (record {
            kept = appended-IsHive empty_stack;
            was_vacant =
                unfold element in
                unfold shown in rw (get_elem?-none h.slots (length h.slots) (omega arith)) refl;
            elements = element-appended;
            slots = length-append h.slots (filled_slot ∷ []) ∙ rw grows refl;
          })
    ]
      where
        finish :
            (h' : Hive A) (idx : ℕ)
            → (if ltb 0 (length h.free) then recycle v h else some (appended, length h.slots))
              ≡ some (h', idx)
            → Places v h (h', idx)
            → Returns (insert v h) (Places v h)
        finish h' idx run p =
            let there : element idx h' ≡ some v =
              p.elements idx ∙ (let here : (idx == idx) ≡ true = ground arith in rw here refl) in
            Returns-bind _ (h', idx) _ run
              (Returns-bind (iterator idx h') idx _ (iterator-here h' idx v there)
                ((h', idx), refl, p))
