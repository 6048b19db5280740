-- ===== src/DynamicArray/Erasing.antt =====
-- `erase` of include/ycetl/dynamic_array.hpp.
use ycetl.Base.{
  ℕ, suc, ◌+◌, ◌-◌, ◌^◌, ◌≤◌, ◌<◌, ◌≡◌, refl, ap, ◌∙◌, List, none, some, arith, ltb, leb, ◌&&◌,
  if◌then◌else◌, ◌>>=◌, Returns, length, lt_of_get_elem?,
}
use ycetl.Size.{sub_size}
use ycetl.Sequence.{remove_range, length-remove_range, get_elem?-remove_range}
use ycetl.DynamicArray.Slots.{raw, moved, Block, put, shift_down}
use ycetl.DynamicArray.Loops.{
  within, with_cells, cells_eq, shift_down-eq, destroy_at-eq, construct_move_self,
}
use ycetl.DynamicArray.Contents.{Holds, IsClean, object_below, live_below, destroy_range-eq}
use ycetl.DynamicArray.{DynamicArray, erase, erase_range, clear}

module _ {A : Type 0} where
  shift_down_self : (n i : ℕ) (b : Block A) → shift_down (suc n) i 0 b ≡ none
  unfolding shift_down
  shift_down_self n i b = let e : i + 0 ≡ i = omega arith in rw (e, construct_move_self i b)

  -- The slots after `count` elements from `first` on went, and the rest moved down.
  abbrev closed : (first count : ℕ) → DynamicArray A → DynamicArray A
  closed first count a = record a {
    buffer = with_cells a.buffer (λ j.
        if within first (a.size - count - first) j
        then a.buffer.cell (j + count)
        else if leb (first + count) j && ltb j a.size
        then moved
        else if leb first j && ltb j (first + count)
        then raw
        else a.buffer.cell j);
    size = a.size - count;
  }

  closed-Holds :
      (first count : ℕ) {a : DynamicArray A} {xs : List A}
      → Holds a xs
      → first + count ≤ a.size
      → Holds (closed first count a) (remove_range first (first + count) xs)
  closed-Holds first count {a} {xs} h le =
      let d : first + count - first ≡ count = omega arith in
      record {
        size = omega (arith, h.size, length-remove_range first (first + count) xs);
        block = h.block;
        room = omega (arith, h.room);
        cells = λ j w e. ground (
          arith,
          h.size,
          h.cells j w,
          h.cells (j + count) w,
          lt_of_get_elem? xs (j + count) {x = w},
          rw d at (
              get_elem?-remove_range first (first + count) xs j (omega arith)
                (omega (arith, h.size))),
        );
      }

  abbrev gap : (first count : ℕ) → DynamicArray A → Block A
  gap first count a =
      with_cells a.buffer
        (λ j. if leb first j && ltb j (first + count) then raw else a.buffer.cell j)

  -- Once the slots from `first` on are empty, the loop of `erase` closes the gap.
  shift-closed :
      (first count : ℕ) {a : DynamicArray A} {xs : List A}
      → Holds a xs
      → 0 < count
      → first + count ≤ a.size
      → shift_down (a.size - count - first) first count (gap first count a)
        ≡ some (closed first count a).buffer
  shift-closed first count {a} h pos le =
      shift_down-eq (a.size - count - first) first count (gap first count a) pos
        (omega (arith, h.block, h.room))
        (λ j p q. let (v, e) = live_below h j (omega arith) in (v, ground arith))
      ∙ ap some (cells_eq a.buffer _ _ (λ j. ground arith))

  -- What removing `count` elements from `first` on makes of an array that held `xs`.
  pub record Erased (first count : ℕ) (a : DynamicArray A) (xs : List A) (a' : DynamicArray A)
      : Type 0 where
    pub holds : Holds a' (remove_range first (first + count) xs)
    pub capacity : a'.capacity ≡ a.capacity
    -- the slots that the last elements left, if any moved, still hold objects
    pub left :
        (j : ℕ)
        → first + count ≤ j
        → length xs ≤ j + count
        → j < length xs
        → a'.buffer.cell j ≡ moved

  closed-Erased :
      (first count : ℕ) {a : DynamicArray A} {xs : List A}
      → Holds a xs
      → first + count ≤ a.size
      → Erased first count a xs (closed first count a)
  closed-Erased first count {a} h le = record {
    holds = closed-Holds first count h le;
    capacity = refl;
    left = λ j p q r. ground (arith, h.size);
  }

  -- On an array that holds `xs`, with a capacity below 2 ^ 64, `erase` of the element at an index
  -- below the size returns, holds `xs` without it, keeps the capacity, and, unless that element was
  -- the last, leaves a moved-from object past the new end.
  pub erase-Erased :
      (idx : ℕ) {a : DynamicArray A} {xs : List A}
      → Holds a xs
      → idx < length xs
      → a.capacity < 2 ^ 64
      → Returns (erase idx a) (Erased idx 1 a xs)
  unfolding erase
  erase-Erased idx {a} h lt small =
      let n : sub_size a.size 1 ≡ a.size - 1 = omega (arith, h.size, h.room) in
      let below : idx < a.size = omega (arith, h.size) in
      let hole : put idx raw a.buffer ≡ gap idx 1 a = cells_eq a.buffer _ _ (λ j. ground arith) in
      (
        closed idx 1 a,
        rw (
          n,
          destroy_at-eq idx a.buffer (omega (arith, h.room, h.block)) (object_below h idx below),
          ◌>>=◌,
          hole,
          shift-closed idx 1 h (omega arith) (omega arith),
        ),
        closed-Erased idx 1 h (omega arith),
      )

  -- `clear` does not reach the slot after the last element.
  clear-left :
      {a : DynamicArray A} {xs : List A}
      → Holds a xs
      → a.buffer.cell a.size ≡ moved
      → Returns (clear a) (λ c. c.buffer.cell a.size ≡ moved)
  unfolding clear
  clear-left {a} h stale = (
    record a {
      buffer = with_cells a.buffer (λ j. if leb 0 j && ltb j a.size then raw else a.buffer.cell j);
      size = 0;
    },
    rw (
        destroy_range-eq 0 a.size a.buffer (omega arith) (omega (arith, h.block, h.room))
          (λ j p q. object_below h j q)),
    ground (arith, stale),
  )

  -- On an array with a capacity below 2 ^ 64, `erase` of an element that is not the last returns an
  -- array with a moved-from object in the slot past its end, which `clear` leaves there.
  pub erase-not-IsClean :
      (idx : ℕ) {a : DynamicArray A} {xs : List A}
      → Holds a xs
      → idx + 1 < length xs
      → a.capacity < 2 ^ 64
      → Returns (erase idx a) λ a'.
        ¬ IsClean a'
        × (a'.buffer.cell a'.size ≡ moved)
        × Returns (clear a') (λ c. c.buffer.cell a'.size ≡ moved)
  erase-not-IsClean idx {a} {xs} h lt small =
      let (a', run, e) = erase-Erased idx h (omega arith) small in
      let shorter : a'.size + 1 ≡ length xs =
        omega (arith, e.holds.size, length-remove_range idx (idx + 1) xs) in
      let stale = e.left a'.size (omega arith) (omega arith) (omega arith) in
      (a', run, (λ clean. ground (arith, clean a'.size), stale, clear-left e.holds stale))

  -- On an array that holds `xs`, with a capacity below 2 ^ 64, `erase` of a range of at least one
  -- element returns, holds `xs` without those elements, keeps the capacity, and leaves moved-from
  -- objects in the slots past the new end from which elements were moved.
  pub erase_range-Erased :
      (first count : ℕ) {a : DynamicArray A} {xs : List A}
      → Holds a xs
      → 0 < count
      → first + count ≤ length xs
      → a.capacity < 2 ^ 64
      → Returns (erase_range first (first + count) a) (Erased first count a xs)
  unfolding erase_range
  erase_range-Erased first count {a} h pos le small =
      let n : sub_size (first + count) first ≡ count = omega (arith, h.size, h.room) in
      let m : sub_size a.size count ≡ a.size - count = omega (arith, h.size, h.room) in
      let le' : first + count ≤ a.size = omega (arith, h.size) in
      (
        closed first count a,
        rw (
          n,
          destroy_range-eq first (first + count) a.buffer (omega arith)
              (omega (arith, h.room, h.block)) (λ j p q. object_below h j (omega arith)),
          ◌>>=◌,
          m,
          shift-closed first count h pos le',
        ),
        closed-Erased first count h le',
      )

  -- On an array with a capacity below 2 ^ 64, `erase` of an empty range before the end faults: it
  -- builds an element from itself.
  pub erase_range_empty :
      (first : ℕ) {a : DynamicArray A} {xs : List A}
      → Holds a xs
      → first < length xs
      → a.capacity < 2 ^ 64
      → erase_range first first a ≡ none
  unfolding erase_range
  erase_range_empty first {a} h lt small =
      let n : sub_size first first ≡ 0 = omega arith in
      let m : sub_size a.size 0 - first ≡ suc (a.size - first - 1) =
        omega (arith, h.size, h.room) in
      rw (
        n,
        destroy_range-eq first first a.buffer (omega arith) (omega (arith, h.size, h.room, h.block))
            (λ j p q. absurd (omega arith)),
        ◌>>=◌,
        m,
        shift_down_self (a.size - first - 1) first (
            with_cells a.buffer (λ j. if leb first j && ltb j first then raw else a.buffer.cell j)),
      )
