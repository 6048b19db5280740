-- ===== src/DynamicArray/Loops.antt =====
-- What the loops over the slots do: each is one update of a range of slots.
use mathlib.Core.Path.{fun_ext}
use ycetl.Base.{
  ℕ, zero, suc, ◌+◌, ◌-◌, ◌≤◌, ◌<◌, ◌≡◌, ◌≢◌, ap, ◌∙◌, Bool, ◌&&◌, Option, none, some, arith, ◌==◌,
  ltb, leb, if◌then◌else◌, ◌>>=◌, Bool-cases, ltb→lt, inl, inr,
}
use ycetl.DynamicArray.Slots.{
  Cell, raw, live, moved, Block, put, read, construct_at, destroy_at, move_from, assign_move,
  construct_move, construct_n, copy_loop, destroy_loop, move_loop, shift_up, shift_down,
}

-- `j` is one of the `n` indices from `i` on.
abbrev pub within : ℕ → ℕ → ℕ → Bool
within i n j = leb i j && ltb j (i + n)

module _ {A : Type 0} where
  -- The block with other contents.
  abbrev pub with_cells : Block A → (ℕ → Cell A) → Block A
  with_cells b f = record b { cell = f }

  pub cells_eq :
      (b : Block A) (f g : ℕ → Cell A) → ((j : ℕ) → f j ≡ g j) → with_cells b f ≡ with_cells b g
  cells_eq b f g h = ap (with_cells b) (fun_ext h)

  pub destroy_at-eq :
      (i : ℕ) (b : Block A) → i < b.len → b.cell i ≢ raw → destroy_at i b ≡ some (put i raw b)
  unfolding destroy_at
  destroy_at-eq i b h n = ground arith

  pub construct_at-eq :
      (i : ℕ) (v : A) (b : Block A) → i < b.len → construct_at i v b ≡ some (put i (live v) b)
  unfolding construct_at
  construct_at-eq i v b h = ground arith

  pub read-eq : (i : ℕ) (v : A) (b : Block A) → i < b.len → b.cell i ≡ live v → read b i ≡ some v
  unfolding read
  read-eq i v b h e = ground arith

  move_from-eq :
      (i : ℕ) (v : A) (b : Block A)
      → i < b.len
      → b.cell i ≡ live v
      → move_from i b ≡ some (v, put i moved b)
  unfolding move_from
  move_from-eq i v b h e = rw (read-eq i v b h e)

  pub destroy_loop-eq :
      (n i : ℕ) (b : Block A)
      → i + n ≤ b.len
      → ((j : ℕ) → i ≤ j → j < i + n → b.cell j ≢ raw)
      → destroy_loop n i b ≡ some (with_cells b (λ j. if within i n j then raw else b.cell j))
  unfolding destroy_loop
  destroy_loop-eq zero i b room objs = ap some (cells_eq b b.cell _ (λ j. ground arith))
  destroy_loop-eq (suc n) i b room objs =
      rw (destroy_at-eq i b (omega arith) (objs i (omega arith) (omega arith))) (
        rw (destroy_loop-eq n (i + 1) (put i raw b) (omega arith) (λ j p q. ground (arith, objs j)))
          (ap some (cells_eq b _ _ (λ j. ground arith))))

  pub construct_n-eq :
      (n i : ℕ) (v : A) (b : Block A)
      → i + n ≤ b.len
      → construct_n n i v b ≡ some (with_cells b (λ j. if within i n j then live v else b.cell j))
  unfolding construct_n
  construct_n-eq zero i v b room = ap some (cells_eq b b.cell _ (λ j. ground arith))
  construct_n-eq (suc n) i v b room = rw (construct_at-eq i v b (omega arith)) (
      rw (construct_n-eq n (i + 1) v (put i (live v) b) (omega arith))
        (ap some (cells_eq b _ _ (λ j. ground arith))))

  -- The `n` slots from `i` on hold values.
  abbrev pub AllLive : ℕ → ℕ → Block A → Type 0
  AllLive n i b = (j : ℕ) → i ≤ j → j < i + n → (v : A) × (b.cell j ≡ live v)

  AllLive-put :
      (n i k : ℕ) (c : Cell A) (b : Block A)
      → k < i + 1
      → AllLive (suc n) i b
      → AllLive n (i + 1) (put k c b)
  AllLive-put n i k c b h all j p q =
      let (v, e) = all j (omega arith) (omega arith) in (v, ground arith)

  copy_step :
      (i : ℕ) (v : A) (src dest : Block A)
      → i < src.len
      → i < dest.len
      → src.cell i ≡ live v
      → (n : ℕ) → copy_loop (suc n) i src dest ≡ copy_loop n (i + 1) src (put i (src.cell i) dest)
  unfolding copy_loop
  copy_step i v src dest r1 r2 e n =
      rw (read-eq i v src r1 e, ◌>>=◌, construct_at-eq i v dest r2, e)

  pub copy_loop-eq :
      (n i : ℕ) (src dest : Block A)
      → i + n ≤ src.len
      → i + n ≤ dest.len
      → AllLive n i src
      → copy_loop n i src dest
        ≡ some (with_cells dest (λ j. if within i n j then src.cell j else dest.cell j))
  unfolding copy_loop
  copy_loop-eq zero i src dest r1 r2 all = ap some (cells_eq dest dest.cell _ (λ j. ground arith))
  copy_loop-eq (suc n) i src dest r1 r2 all =
      let (v, e) = all i (omega arith) (omega arith) in
      copy_step i v src dest (omega arith) (omega arith) e n
      ∙ copy_loop-eq n (i + 1) src (put i (src.cell i) dest) (omega arith) (omega arith)
          (λ j p q. all j (omega arith) (omega arith))
      ∙ ap some (cells_eq dest _ _ (λ j. ground arith))

  pair_eq :
      (a b : Block A) (f f' g g' : ℕ → Cell A)
      → ((j : ℕ) → f j ≡ f' j)
      → ((j : ℕ) → g j ≡ g' j)
      → ◌≡◌ {A = Option (Block A × Block A)}
          (some (with_cells a f, with_cells b g))
          (some (with_cells a f', with_cells b g'))
  pair_eq a b f f' g g' h k = λ i. some (cells_eq a f f' h i, cells_eq b g g' k i)

  move_step :
      (i : ℕ) (v : A) (old fresh : Block A)
      → i < old.len
      → i < fresh.len
      → old.cell i ≡ live v
      → (n : ℕ)
      → move_loop (suc n) i old fresh
        ≡ move_loop n (i + 1) (put i moved old) (put i (old.cell i) fresh)
  unfolding move_loop
  move_step i v old fresh r1 r2 e n =
      rw (move_from-eq i v old r1 e, ◌>>=◌, construct_at-eq i v fresh r2, e)

  pub move_loop-eq :
      (n i : ℕ) (old fresh : Block A)
      → i + n ≤ old.len
      → i + n ≤ fresh.len
      → AllLive n i old
      → move_loop n i old fresh
        ≡ some (
          with_cells old (λ j. if within i n j then moved else old.cell j),
          with_cells fresh (λ j. if within i n j then old.cell j else fresh.cell j),
        )
  unfolding move_loop
  move_loop-eq zero i old fresh r1 r2 all =
      pair_eq old fresh old.cell _ fresh.cell _ (λ j. ground arith) (λ j. ground arith)
  move_loop-eq (suc n) i old fresh r1 r2 all =
      let (v, e) = all i (omega arith) (omega arith) in
      move_step i v old fresh (omega arith) (omega arith) e n
      ∙ move_loop-eq n (i + 1) (put i moved old) (put i (old.cell i) fresh) (omega arith)
          (omega arith) (AllLive-put n i i moved old (omega arith) all)
      ∙ pair_eq old fresh _ _ _ _ (λ j. ground arith) (λ j. ground arith)

  construct_move-eq :
      (i j : ℕ) (v : A) (b : Block A)
      → i ≢ j
      → i < b.len
      → j < b.len
      → b.cell j ≡ live v
      → construct_move i j b ≡ some (put i (b.cell j) (put j moved b))
  unfolding construct_move
  construct_move-eq i j v b ne r1 r2 e =
      rw (move_from-eq j v b r2 e, ◌>>=◌, construct_at-eq i v (put j moved b) r1, e) (ground arith)

  -- An element built from itself is a fault.
  pub construct_move_self : (i : ℕ) (b : Block A) → construct_move i i b ≡ none
  unfolding construct_move
  construct_move_self i b = ground arith

  assign_move-eq :
      (i j : ℕ) (v : A) (b : Block A)
      → i ≢ j
      → i < b.len
      → j < b.len
      → b.cell j ≡ live v
      → b.cell i ≢ raw
      → assign_move i j b ≡ some (put i (b.cell j) (put j moved b))
  unfolding assign_move
  assign_move-eq i j v b ne r1 r2 e o = rw (move_from-eq j v b r2 e, ◌>>=◌, e) (ground arith)

  pub shift_down-eq :
      (n i d : ℕ) (b : Block A)
      → 0 < d
      → i + n + d ≤ b.len
      → AllLive n (i + d) b
      → shift_down n i d b
        ≡ some (
            with_cells b (λ j.
              if within i n j
              then b.cell (j + d)
              else if within (i + d) n j
              then moved
              else b.cell j))
  unfolding shift_down
  shift_down-eq zero i d b pos room all = ap some (cells_eq b b.cell _ (λ j. ground arith))
  shift_down-eq (suc n) i d b pos room all =
      let (v, e) = all (i + d) (omega arith) (omega arith) in
      ap (λ r. r >>= shift_down n (i + 1) d)
        (construct_move-eq i (i + d) v b (omega arith) (omega arith) (omega arith) e)
      ∙ shift_down-eq n (i + 1) d (put i (b.cell (i + d)) (put (i + d) moved b)) pos (omega arith)
          (λ j p q. ground (arith, all j))
      ∙ ap some (cells_eq b _ _ (λ j. ground arith))

  -- One round of `insert`: the assignment, or the construction in the slot past the end.
  up_step :
      (i j size : ℕ) (v : A) (b : Block A)
      → j < i
      → i < b.len
      → b.cell j ≡ live v
      → (i < size → b.cell i ≢ raw)
      → (if ltb i size then assign_move i j b else construct_move i j b)
        ≡ some (put i (b.cell j) (put j moved b))
  up_step i j size v b lt room e obj = elim (Bool-cases (ltb i size)) [
    | inl t ↦
        rw t (assign_move-eq i j v b (omega arith) room (omega arith) e (obj (ltb→lt i size t)))
    | inr t ↦ rw t (construct_move-eq i j v b (omega arith) room (omega arith) e)
  ]

  pub shift_up-eq :
      (n idx size : ℕ) (b : Block A)
      → idx + n < b.len
      → AllLive n idx b
      → (idx + n < size → b.cell (idx + n) ≢ raw)
      → shift_up n idx size b
        ≡ some (
            with_cells b (λ j.
              if within (idx + 1) n j
              then b.cell (j - 1)
              else if j == idx && ltb 0 n
              then moved
              else b.cell j))
  unfolding shift_up
  shift_up-eq zero idx size b room all obj = ap some (cells_eq b b.cell _ (λ j. ground arith))
  shift_up-eq (suc n) idx size b room all obj =
      let (v, e) = all (idx + n) (omega arith) (omega arith) in
      let back : idx + suc n - 1 ≡ idx + n = omega arith in
      rw back (
        ap (λ r. r >>= shift_up n idx size)
          (up_step (idx + suc n) (idx + n) size v b (omega arith) room e obj))
      ∙ shift_up-eq n idx size (put (idx + suc n) (b.cell (idx + n)) (put (idx + n) moved b))
          (omega arith) (λ j p q. ground (arith, all j)) (λ h. ground arith)
      ∙ ap some (cells_eq b _ _ (λ j. ground arith))
