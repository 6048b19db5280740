-- ===== src/DynamicArray/Resizing.antt =====
-- `resize`, `pop_back` and `clear` of include/ycetl/dynamic_array.hpp.
use ycetl.Base.{
  ℕ, ◌+◌, ◌-◌, ◌^◌, ◌≤◌, ◌<◌, ◌≡◌, refl, sym, ap, ◌∙◌, true, false, List, [], ◌∷◌, ◌++◌, some,
  arith, ltb, leb, ◌&&◌, if◌then◌else◌, ◌>>=◌, Returns, length, length-append, lt_of_get_elem?,
  Bool-cases, ltb→lt, ltb→le, inl, inr,
}
use ycetl.Size.{sub_size}
use ycetl.Sequence.{get_elem?-snoc, resized, length-resized, get_elem?-resized}
use ycetl.DynamicArray.Slots.{raw, live, Block, put}
use ycetl.DynamicArray.Loops.{within, with_cells, cells_eq, construct_n-eq, destroy_at-eq}
use ycetl.DynamicArray.Contents.{new-Holds, Holds, IsClean, object_below, destroy_range-eq}
use ycetl.DynamicArray.Growth.{reserved, reserve-eq, reserved-Holds}
use ycetl.DynamicArray.{
  DynamicArray, resize, pop_back, clear, clear_and_deallocate_buffer, move_assign, new,
}

module _ {A : Type 0} where
  abbrev filled : ℕ → A → DynamicArray A → DynamicArray A
  filled n v a = record a {
    buffer =
        with_cells a.buffer (λ j. if within a.size (n - a.size) j then live v else a.buffer.cell j);
    size = n;
  }

  abbrev cut : ℕ → DynamicArray A → DynamicArray A
  cut n a = record a {
    buffer = with_cells a.buffer (λ j. if leb n j && ltb j a.size then raw else a.buffer.cell j);
    size = n;
  }

  filled-Holds :
      (n : ℕ) (v : A) {a : DynamicArray A} {xs : List A}
      → Holds a xs
      → a.size ≤ n
      → n ≤ a.capacity
      → Holds (filled n v a) (resized n v xs) × (IsClean a → IsClean (filled n v a))
  filled-Holds n v {a} {xs} h le room = (
    record {
      size = sym (length-resized n v xs);
      block = h.block;
      room = room;
      cells = λ j w e. ground (arith, h.size, h.cells j w, get_elem?-resized n v xs j);
    },
    λ c j past. ground (arith, c j),
  )

  cut-Holds :
      (n : ℕ) (v : A) {a : DynamicArray A} {xs : List A}
      → Holds a xs
      → n ≤ a.size
      → Holds (cut n a) (resized n v xs) × (IsClean a → IsClean (cut n a))
  cut-Holds n v {a} {xs} h le = (
    record {
      size = sym (length-resized n v xs);
      block = h.block;
      room = omega (arith, h.room);
      cells = λ j w e. ground (arith, h.size, h.cells j w, get_elem?-resized n v xs j);
    },
    λ c j past. ground (arith, c j),
  )

  -- Where the capacity is enough, `resize` fills or cuts.
  resize_within :
      (n : ℕ) (v : A) {a : DynamicArray A} {xs : List A}
      → Holds a xs
      → n ≤ a.capacity
      → resize n v a ≡ some (if ltb a.size n then filled n v a else cut n a)
  unfolding resize
  resize_within n v {a} h fits =
      let enough : ltb a.capacity n ≡ false = ground arith in
      let space : a.size ≤ a.buffer.len = omega (arith, h.block, h.room) in
      elim (Bool-cases (ltb a.size n)) [
        | inl t ↦
            let slots : a.size + (n - a.size) ≤ a.buffer.len =
              omega (arith, ltb→lt a.size n t, h.block) in
            rw (enough, ◌>>=◌, t, construct_n-eq (n - a.size) a.size v a.buffer slots)
        | inr t ↦
            rw (enough, ◌>>=◌, t)
              (elim (Bool-cases (ltb n a.size)) [
                | inl u ↦ rw (
                  u,
                  destroy_range-eq n a.size a.buffer (omega (arith, ltb→lt n a.size u)) space
                      (λ j p q. object_below h j q),
                )
                | inr u ↦ rw u (
                    ap (λ (b : Block A). some (record a { buffer = b; size = n }))
                      (cells_eq a.buffer a.buffer.cell _ (λ j. ground (arith, ltb→le n a.size u))))
              ])
      ]

  resize_grows :
      (n : ℕ) (v : A) {a : DynamicArray A} {xs : List A}
      → Holds a xs
      → a.capacity < n
      → resize n v a ≡ resize n v (reserved n a)
  unfolding resize
  resize_grows n v {a} h lt =
      let over : ltb a.capacity n ≡ true = ground arith in
      let enough : ltb n n ≡ false = ground arith in rw (over, reserve-eq n h lt, ◌>>=◌, enough)

  -- What `resize` makes of an array that held `xs`.
  pub record Resized (n : ℕ) (v : A) (a : DynamicArray A) (xs : List A) (a' : DynamicArray A)
      : Type 0 where
    pub holds : Holds a' (resized n v xs)
    pub capacity : a'.capacity ≡ (if ltb a.capacity n then n else a.capacity)
    pub clean : IsClean a → IsClean a'

  resize_within-Resized :
      (n : ℕ) (v : A) {a : DynamicArray A} {xs : List A}
      → Holds a xs
      → n ≤ a.capacity
      → Returns
          (resize n v a)
          λ a'. Holds a' (resized n v xs) × (a'.capacity ≡ a.capacity) × (IsClean a → IsClean a')
  resize_within-Resized n v {a} h fits = elim (Bool-cases (ltb a.size n)) [
    | inl t ↦
        let (k, c) = filled-Holds n v h (omega (arith, ltb→lt a.size n t)) fits in
        (filled n v a, rw (resize_within n v h fits, t), (k, refl, c))
    | inr t ↦
        let (k, c) = cut-Holds n v h (ltb→le a.size n t) in
        (cut n a, rw (resize_within n v h fits, t), (k, refl, c))
  ]

  -- On an array that holds `xs`, `resize` returns, holds `xs` cut to the new size or filled up with
  -- copies of the value, reallocates exactly if the capacity is too small, and leaves no object
  -- past the end if none was there.
  pub resize-Resized :
      (n : ℕ) (v : A) {a : DynamicArray A} {xs : List A}
      → Holds a xs
      → Returns (resize n v a) (Resized n v a xs)
  resize-Resized n v {a} h = elim (Bool-cases (ltb a.capacity n)) [
    | inl t ↦
        let lt = ltb→lt a.capacity n t in
        let (k, c) = reserved-Holds n h (omega arith) in
        let (a', run, (holds, cap, clean)) = resize_within-Resized n v k (omega arith) in
        (
          a',
          resize_grows n v h lt ∙ run,
          record { holds = holds; capacity = rw t cap; clean = λ _. clean c },
        )
    | inr t ↦
        let (a', run, (holds, cap, clean)) = resize_within-Resized n v h (ltb→le a.capacity n t) in
        (a', run, record { holds = holds; capacity = rw t cap; clean = clean })
  ]

  -- On an array of fewer than 2 ^ 64 elements that holds `xs` and then an element, `pop_back`
  -- returns an array that holds `xs`, with the same capacity, and with no object past the end if
  -- none was there.
  pub pop_back-Holds :
      {a : DynamicArray A} {xs : List A} (x : A)
      → Holds a (xs ++ x ∷ [])
      → a.size < 2 ^ 64
      → Returns
          (pop_back a)
          λ a'. Holds a' xs × (a'.capacity ≡ a.capacity) × (IsClean a → IsClean a')
  unfolding pop_back
  pop_back-Holds {a} {xs} x h small =
      let len : a.size ≡ length xs + 1 = omega (arith, h.size, length-append xs (x ∷ [])) in
      let n : sub_size a.size 1 ≡ length xs = omega arith in
      (
        record a { buffer = put (length xs) raw a.buffer; size = length xs },
        rw (
          n,
          destroy_at-eq (length xs) a.buffer (omega (arith, h.block, h.room))
              (object_below h (length xs) (omega arith)),
        ),
        (
          record {
            size = refl;
            block = h.block;
            room = omega (arith, h.room);
            cells =
                λ j w e. ground (arith, h.cells j w, get_elem?-snoc xs x j, lt_of_get_elem? xs j e);
          },
          refl,
          λ c j past. ground (arith, c j),
        ),
      )

  -- `clear` destroys every element and keeps the block.
  pub clear-Holds :
      {a : DynamicArray A} {xs : List A}
      → Holds a xs
      → Returns (clear a) λ a'. Holds a' [] × (a'.capacity ≡ a.capacity) × (IsClean a → IsClean a')
  unfolding clear
  clear-Holds {a} h = (
    record a {
      buffer = with_cells a.buffer (λ j. if leb 0 j && ltb j a.size then raw else a.buffer.cell j);
      size = 0;
    },
    rw (
        destroy_range-eq 0 a.size a.buffer (omega arith) (omega (arith, h.block, h.room))
          (λ j p q. object_below h j q)),
    (
      record { size = refl; block = h.block; room = omega arith; cells = λ j v e. absurd (cc e) },
      refl,
      λ c j past. ground (arith, c j),
    ),
  )

  -- Move assignment destroys what the array held; the elements change hands, and the source is
  -- left empty.
  pub move_assign-Holds :
      {a other : DynamicArray A} {xs ys : List A}
      → Holds a xs
      → Holds other ys
      → Returns (move_assign a other) λ r. Holds r.0 ys × Holds r.1 []
  unfolding move_assign clear_and_deallocate_buffer
  move_assign-Holds {a} {other} h k = (
    (other, new),
    rw (
        destroy_range-eq 0 a.size a.buffer (omega arith) (omega (arith, h.block, h.room))
          (λ j p q. object_below h j q)),
    (k, new-Holds.0),
  )
