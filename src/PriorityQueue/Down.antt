-- ===== src/PriorityQueue/Down.antt =====
-- `sift_down` of include/ycetl/priority_queue.hpp ends and restores the heap.
use ycetl.Base.{
  ℕ, zero, suc, ◌+◌, ◌*◌, ◌≤◌, ◌<◌, ◌≡◌, ◌≢◌, refl, ◌∙◌, sym, true, false, List, some, arith, ◌==◌,
  ◌>>=◌, ◌⊎◌, Returns, length, get_elem?, get_elem?-some, Bool-cases, inl, inr, lt→ltb, ltb-false,
  lt_of_get_elem?,
}
use native.Mathlib.Decide.{dec_lt, ℕ_discrete}
use ycetl.Order.{Order, less, less_asymm}
use ycetl.PriorityQueue.{sift_down, better, before, swap}
use ycetl.PriorityQueue.Swap.{Swapped, swap_lem}
use ycetl.PriorityQueue.Heaps.{parent, Above, above_trans}
use ycetl.PriorityQueue.Up.{Sifted, Sifted-trans}

module _ {A : Type 0} ⦃o : Order A⦄ where
  -- Only the children of `i` may come after it; they are below its parent.
  pub record IsSinking (i : ℕ) (xs : List A) : Type 0 where
    pub others : (j : ℕ) → 0 < j → parent j ≢ i → Above xs (parent j) j
    pub across : (j : ℕ) → 0 < i → 0 < j → parent j ≡ i → Above xs (parent i) j

  -- The step: the element changes places with the greater of its children, `b`.
  sinking :
      (i b : ℕ) (xs ys : List A) (x y : A)
      → 0 < b
      → parent b ≡ i
      → IsSinking i xs
      → ((j : ℕ) → 0 < j → parent j ≡ i → Above xs b j)
      → get_elem? xs b ≡ some x
      → get_elem? xs i ≡ some y
      → less y x ≡ true
      → Swapped b i xs ys
      → IsSinking b ys
  sinking i b xs ys x y pos up r greatest at at' lt s = record {
    others = λ j pj apart c d ec ed. elim (ℕ_discrete (parent j) i) [
      | yes e ↦ elim (ℕ_discrete j b) [
        | yes same ↦ ground (arith, s.first, s.second, less_asymm y x lt)
        | no ne ↦ ground (arith, s.second, s.elsewhere j ne (omega arith), greatest j pj e x d)
      ]
      | no ne ↦ elim (ℕ_discrete j i) [
        | yes here ↦
            ground (
              arith,
              s.second,
              s.elsewhere (parent j) apart ne,
              r.across b (omega arith) pos up c x,
            )
        | no ne' ↦ ground (
          arith,
          s.elsewhere (parent j) apart ne,
          s.elsewhere j (omega arith) ne',
          r.others j pj ne c d,
        )
      ]
    ];
    across = λ j pb pj here c d ec ed. ground (
      arith,
      s.second,
      s.elsewhere j (omega arith) (omega arith),
      r.others j pj (omega arith) x d,
    );
  }

  -- The choice: the entry that the code keeps, which is below neither of the two.
  pub record Chosen (xs : List A) (best l r : ℕ) : Type 0 where
    pub room : r < length xs
    pub kept :
        (r ≡ best)
        ⊎ ((r ≡ l)
            × ((x y : A) → get_elem? xs best ≡ some x → get_elem? xs l ≡ some y → less x y ≡ true))
    pub over : Above xs r best
    pub over' : Above xs r l

  Above-refl : (xs : List A) (i : ℕ) → Above xs i i
  Above-refl xs i x y at at' =
      let same : some x ≡ some y = sym at ∙ at' in let e : x ≡ y = cc in rw e (o.irreflexive y)

  better_lem :
      (best l : ℕ) (xs : List A)
      → best < length xs
      → Returns (better best l (length xs) xs) (Chosen xs best l)
  unfolding better before
  better_lem best l xs room = elim (dec_lt l (length xs)) [
    | no out ↦ (
      best,
      rw (ltb-false l (length xs) (omega arith)) refl,
      record {
        room = room;
        kept = inl refl;
        over = Above-refl xs best;
        over' = λ x y at at'. absurd (omega (arith, lt_of_get_elem? xs l at'));
      },
    )
    | yes lt ↦
        let (x, at) = get_elem?-some xs best room in
        let (y, at') = get_elem?-some xs l lt in
        elim (Bool-cases (less x y)) [
          | inl t ↦ (
            l,
            rw (lt→ltb l (length xs) lt, at, at', ◌>>=◌, t) refl,
            record {
              room = lt;
              kept = inr (refl, λ x' y' e e'. ground arith);
              over = λ y' x' e' e. ground (arith, less_asymm x y t);
              over' = Above-refl xs l;
            },
          )
          | inr t ↦ (
            best,
            rw (lt→ltb l (length xs) lt, at, at', ◌>>=◌, t) refl,
            record {
              room = room;
              kept = inl refl;
              over = Above-refl xs best;
              over' = λ x' y' e e'. ground arith;
            },
          )
        ]
  ]

  -- The two choices: the entry is the greatest of `i` and its children.
  record Picked (i : ℕ) (xs : List A) (b : ℕ) : Type 0 where
    room : b < length xs
    choice :
        (b ≡ i)
        ⊎ ((0 < b)
            × (parent b ≡ i)
            × ((x y : A) → get_elem? xs i ≡ some x → get_elem? xs b ≡ some y → less x y ≡ true))
    greatest : (j : ℕ) → 0 < j → parent j ≡ i → Above xs b j

  picked :
      (i l b : ℕ) (xs : List A)
      → Chosen xs i (2 * i + 1) l
      → Chosen xs l (2 * i + 2) b
      → Picked i xs b
  picked i l b xs c d =
      let (z, at) = get_elem?-some xs l c.room in
      record {
        room = d.room;
        choice = elim (d.kept) [
          | inr (e, lt) ↦ inr (
            omega arith,
            omega arith,
            λ x y ex ey. ground (arith, lt z y at (rw e at ey), c.over z x at ex, o.weak z y x),
          )
          | inl e ↦ elim (c.kept) [
            | inl e' ↦ inl (e ∙ e')
            | inr (e', lt) ↦
                inr (omega arith, omega arith, λ x y ex ey. lt x y ex (rw (← e', ← e) ey))
          ]
        ];
        greatest = λ j pos up x y e e'. elim (ℕ_discrete j (2 * i + 1)) [
          | yes first ↦ ground (arith, d.over x z e at, c.over' z y at, above_trans x z y)
          | no ne ↦ let second : j ≡ 2 * i + 2 = omega arith in d.over' x y e (rw second at e')
        ];
      }

  settled : (i : ℕ) (xs : List A) → IsSinking i xs → Picked i xs i → Sifted xs xs
  settled i xs r p = record {
    heap = λ j pos x y e e'. elim (ℕ_discrete (parent j) i) [
      | yes up ↦ p.greatest j pos up x y (rw (sym up) e) e'
      | no ne ↦ r.others j pos ne x y e e'
    ];
    size = refl;
    same = λ p. refl;
  }

  -- `sift_down` ends within its fuel, reads in range only, and leaves a heap of the same elements.
  pub sift_down-Sifted :
      (fuel i : ℕ) (xs : List A)
      → length xs ≤ i + fuel
      → i < length xs
      → IsSinking i xs
      → Returns (sift_down fuel i (length xs) xs) (Sifted xs)
  unfolding sift_down
  sift_down-Sifted zero i xs fits room r = absurd (omega arith)
  sift_down-Sifted (suc fuel) i xs fits room r =
      let (l, runl, c) = better_lem i (2 * i + 1) xs room in
      let (b, runb, d) = better_lem l (2 * i + 2) xs c.room in
      round l b (λ ys. sift_down-Sifted fuel b ys) runl runb (picked i l b xs c d)
    where
      round :
          (l b : ℕ)
          → ((ys : List A)
              → length ys ≤ b + fuel
              → b < length ys
              → IsSinking b ys
              → Returns (sift_down fuel b (length ys) ys) (Sifted ys))
          → better i (2 * i + 1) (length xs) xs ≡ some l
          → better l (2 * i + 2) (length xs) xs ≡ some b
          → Picked i xs b
          → Returns (sift_down (suc fuel) i (length xs) xs) (Sifted xs)
      round l b again runl runb p = elim (p.choice) [
        | inl e ↦
            let stop : (b == i) ≡ true = ground arith in
            (xs, rw (runl, ◌>>=◌, runb, stop) refl, settled i xs r (rw e at p))
        | inr (pos, up, lt) ↦
            let (x, at) = get_elem?-some xs b p.room in
            let (y, at') = get_elem?-some xs i room in
            let on : (b == i) ≡ false = ground arith in
            let (ys, swapped, s) = swap_lem b i xs x y (omega arith) at at' in
            deeper ys swapped s on (
              again ys (omega (arith, s.size)) (omega (arith, s.size, p.room))
                (sinking i b xs ys x y pos up r p.greatest at at' (lt y x at' at) s))
      ]
        where
          deeper :
              (ys : List A)
              → swap b i xs ≡ some ys
              → Swapped b i xs ys
              → (b == i) ≡ false
              → Returns (sift_down fuel b (length ys) ys) (Sifted ys)
              → Returns (sift_down (suc fuel) i (length xs) xs) (Sifted xs)
          deeper ys swapped s on (zs, run, done) = (
            zs,
            rw (runl, ◌>>=◌, runb, on, swapped, sym s.size) run,
            Sifted-trans xs ys zs s.same s.size done,
          )
