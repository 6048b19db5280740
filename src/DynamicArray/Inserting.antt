-- ===== src/DynamicArray/Inserting.antt =====
-- `insert` of include/ycetl/dynamic_array.hpp.
use native.Mathlib.Decide.{dec_lt}
use ycetl.Base.{
  ℕ, ◌+◌, ◌-◌, ◌^◌, ◌≤◌, ◌<◌, ◌≡◌, refl, sym, ◌∙◌, false, List, none, some, arith, ◌==◌, ltb, ◌&&◌,
  if◌then◌else◌, ◌>>=◌, Returns, length, get_elem?, get_elem?-none,
}
use ycetl.Size.{add_size}
use ycetl.Sequence.{insert_at, length-insert_at, get_elem?-insert_at}
use ycetl.DynamicArray.Slots.{live, moved, Block, put, read, shift_up}
use ycetl.DynamicArray.Loops.{within, with_cells, construct_at-eq, read-eq, shift_up-eq}
use ycetl.DynamicArray.Contents.{Holds, IsClean, live_below}
use ycetl.DynamicArray.Growth.{reserved, reserved-Holds, grown-lt, make_room-grows, make_room-keeps}
use ycetl.DynamicArray.{DynamicArray, Reference, outside, element, resolve, grown, insert}

module _ {A : Type 0} where
  -- The slots when the loop has made room at `idx`.
  abbrev shifted : ℕ → DynamicArray A → Block A
  shifted idx a = with_cells a.buffer (λ j.
      if within (idx + 1) (a.size - idx) j
      then a.buffer.cell (j - 1)
      else if j == idx && ltb 0 (a.size - idx)
      then moved
      else a.buffer.cell j)

  abbrev inserted : ℕ → A → DynamicArray A → DynamicArray A
  inserted idx v a = record a { buffer = put idx (live v) (shifted idx a); size = a.size + 1 }

  shift-shifted :
      (idx : ℕ) {a : DynamicArray A} {xs : List A}
      → Holds a xs
      → idx ≤ a.size
      → a.size < a.capacity
      → shift_up (a.size - idx) idx a.size a.buffer ≡ some (shifted idx a)
  shift-shifted idx {a} h le lt =
      shift_up-eq (a.size - idx) idx a.size a.buffer (omega (arith, h.block))
        (λ j p q. live_below h j (omega arith)) (λ below. absurd (omega arith))

  inserted-Holds :
      (idx : ℕ) (v : A) {a : DynamicArray A} {xs : List A}
      → Holds a xs
      → idx ≤ a.size
      → a.size < a.capacity
      → Holds (inserted idx v a) (insert_at idx v xs) × (IsClean a → IsClean (inserted idx v a))
  inserted-Holds idx v {a} {xs} h le lt = (
    record {
      size = omega (arith, h.size, length-insert_at idx v xs);
      block = h.block;
      room = omega arith;
      cells = λ j w e. ground (
        arith,
        h.size,
        h.cells j w,
        h.cells (j - 1) w,
        get_elem?-insert_at idx v xs j,
        get_elem?-none xs (j - 1),
      );
    },
    λ c j past. ground (arith, c j),
  )

  not_full :
      (a : DynamicArray A) (r : Reference A) (b : Block A)
      → a.size < a.capacity
      → resolve (if a.size == a.capacity then a.buffer else b) r ≡ resolve b r
  not_full a r b lt = let t : (a.size == a.capacity) ≡ false = ground arith in rw t

  insert-room :
      (idx : ℕ) {a : DynamicArray A} {xs : List A} (r : Reference A) (v : A)
      → Holds a xs
      → idx ≤ a.size
      → a.size < a.capacity
      → a.capacity < 2 ^ 63
      → resolve (shifted idx a) r ≡ some v
      → insert idx r a ≡ some (inserted idx v a)
  unfolding insert
  insert-room idx {a} r v h le lt small e =
      let here : resolve (if a.size == a.capacity then a.buffer else shifted idx a) r ≡ some v =
        not_full a r (shifted idx a) lt ∙ e in
      let wrap : add_size a.size 1 ≡ a.size + 1 = omega arith in
      rw (
        make_room-keeps a lt,
        ◌>>=◌,
        shift-shifted idx h le lt,
        here,
        construct_at-eq idx v (shifted idx a) (omega (arith, h.block)),
        wrap,
      )

  insert-full :
      (idx : ℕ) {a : DynamicArray A} {xs : List A} (v : A)
      → Holds a xs
      → idx ≤ a.size
      → a.size ≡ a.capacity
      → a.capacity < 2 ^ 63
      → insert idx (outside v) a ≡ some (inserted idx v (reserved (grown a.capacity) a))
  unfolding insert resolve
  insert-full idx {a} v h le full small =
      let n = grown a.capacity in
      let more : a.capacity < n = grown-lt a.capacity small in
      let k = (reserved-Holds n h (omega arith)).0 in
      let wrap : add_size a.size 1 ≡ a.size + 1 = omega arith in
      rw (
        make_room-grows h full small,
        ◌>>=◌,
        shift-shifted idx k le (omega arith),
        construct_at-eq idx v (shifted idx (reserved n a)) (omega arith),
        wrap,
      )

  -- What inserting `v` before index `idx` makes of an array that held `xs`.
  pub record Inserted (idx : ℕ) (v : A) (a : DynamicArray A) (xs : List A) (a' : DynamicArray A)
      : Type 0 where
    pub holds : Holds a' (insert_at idx v xs)
    pub capacity : a'.capacity ≡ (if a.size == a.capacity then grown a.capacity else a.capacity)
    pub clean : IsClean a → IsClean a'

  -- On an array that holds `xs`, with a capacity below 2 ^ 63, `insert` of an object outside the
  -- array at an index up to the size returns, holds `xs` with the object before that index, grows
  -- the capacity exactly if the array was full, and leaves no object past the end if none was
  -- there.
  pub insert-Inserted :
      (idx : ℕ) (v : A) {a : DynamicArray A} {xs : List A}
      → Holds a xs
      → idx ≤ length xs
      → a.capacity < 2 ^ 63
      → Returns (insert idx (outside v) a) (Inserted idx v a xs)
  unfolding resolve
  insert-Inserted idx v {a} {xs} h le small =
      let le' : idx ≤ a.size = omega (arith, h.size) in
      elim (dec_lt a.size a.capacity) [
        | yes lt ↦
            let (k, c) = inserted-Holds idx v h le' lt in
            (
              inserted idx v a,
              insert-room idx (outside v) v h le' lt small refl,
              record { holds = k; capacity = ground arith; clean = c },
            )
        | no ge ↦
            let n = grown a.capacity in
            let full : a.size ≡ a.capacity = omega (arith, h.room) in
            let more = grown-lt a.capacity small in
            let (k, c) = reserved-Holds n h (omega arith) in
            let (k', c') = inserted-Holds idx v k le' (omega arith) in
            (
              inserted idx v (reserved n a),
              insert-full idx v h le' full small,
              record { holds = k'; capacity = ground arith; clean = λ _. c' c },
            )
      ]

  -- On an array with room to spare and a capacity below 2 ^ 63, `insert` at `idx` of its own
  -- element at an index `i` past `idx` does what `insert` of a copy of the element before it, at `i
  -- - 1`, would do.
  pub insert_shifted :
      (idx i : ℕ) {a : DynamicArray A} {xs : List A} (v : A)
      → Holds a xs
      → a.size < a.capacity
      → a.capacity < 2 ^ 63
      → idx < i
      → i < length xs
      → get_elem? xs (i - 1) ≡ some v
      → insert idx (element i) a ≡ insert idx (outside v) a
  unfolding resolve
  insert_shifted idx i {a} {xs} v h lt small below below' e =
      let le : idx ≤ a.size = omega (arith, h.size) in
      insert-room idx (element i) v h le lt small (
        read-eq i v (shifted idx a) (omega (arith, h.size, h.block))
          (ground (arith, h.size, h.cells (i - 1) v e)))
      ∙ sym (insert-room idx (outside v) v h le lt small refl)

  -- With room to spare, `insert(begin() + idx, a[idx])` reads a moved-from object: a fault.
  pub insert_moved :
      (idx : ℕ) {a : DynamicArray A} {xs : List A}
      → Holds a xs
      → a.size < a.capacity
      → idx < length xs
      → insert idx (element idx) a ≡ none
  unfolding insert resolve read
  insert_moved idx {a} h lt below =
      let t : (a.size == a.capacity) ≡ false = ground arith in
      rw (make_room-keeps a lt, ◌>>=◌, shift-shifted idx h (omega (arith, h.size)) lt, t)
        (ground (arith, h.size))
