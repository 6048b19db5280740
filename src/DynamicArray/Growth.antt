-- ===== src/DynamicArray/Growth.antt =====
-- `reserve` and `push_back` of include/ycetl/dynamic_array.hpp.
use native.Mathlib.Decide.{dec_lt}
use ycetl.Sequence.{get_elem?-snoc}
use ycetl.Base.{
  ℕ, ◌+◌, ◌^◌, ◌≤◌, ◌<◌, ◌≡◌, refl, sym, ◌∙◌, true, false, List, [], ◌∷◌, ◌++◌, Option, none, some,
  arith, ◌==◌, ltb, leb, if◌then◌else◌, ◌>>=◌, Returns, length, get_elem?, length-append,
  lt_of_get_elem?, Bool-cases, inl, inr,
}
use ycetl.Size.{add_size}
use ycetl.DynamicArray.Slots.{Cell, raw, live, moved, Block, allocate, put, read}
use ycetl.DynamicArray.Loops.{within, with_cells, move_loop-eq, construct_at-eq, read-eq}
use ycetl.DynamicArray.Contents.{Holds, IsClean, Holds-AllLive, destroy_range-eq}
use ycetl.DynamicArray.{
  DynamicArray, Reference, outside, element, resolve, reserve, grown, make_room, push_back,
}

-- The capacity of a full array after one more element; no product wraps below 2 ^ 63.
pub grown-lt : (n : ℕ) → n < 2 ^ 63 → n < grown n
unfolding grown
grown-lt n h = ground arith

module _ {A : Type 0} where
  -- The array after a reallocation, and the block that is left behind.
  abbrev pub reserved : ℕ → DynamicArray A → DynamicArray A
  reserved n a = record a {
    buffer = record { len = n; cell = λ j. if ltb j a.size then a.buffer.cell j else raw };
    capacity = n;
  }

  abbrev pub left_behind : DynamicArray A → Block A
  left_behind a = with_cells a.buffer (λ j. if ltb j a.size then raw else a.buffer.cell j)

  pub reserve-eq :
      (n : ℕ) {a : DynamicArray A} {xs : List A}
      → Holds a xs
      → a.capacity < n
      → reserve n a ≡ some (reserved n a, left_behind a)
  unfolding reserve allocate
  reserve-eq n {a} h lt =
      let big : leb n a.capacity ≡ false = ground arith in
      let space : a.size ≤ a.buffer.len = omega (arith, h.block, h.room) in
      let gone = with_cells a.buffer (λ j. if within 0 a.size j then moved else a.buffer.cell j) in
      rw
        (
          big,
          move_loop-eq a.size 0 a.buffer (allocate n) (omega arith) (omega (arith, h.room))
              (Holds-AllLive h),
          ◌>>=◌,
          destroy_range-eq 0 a.size gone (omega arith) space (λ j p q. ground arith),
        )
        (pair_eq (λ j. ground arith) (λ j. ground arith))
    where
      pair_eq :
          {f g f' g' : ℕ → Cell A}
          → ((j : ℕ) → f j ≡ f' j)
          → ((j : ℕ) → g j ≡ g' j)
          → ◌≡◌ {A = Option (DynamicArray A × Block A)}
              (some (
                record a { buffer = record { len = n; cell = f }; capacity = n },
                with_cells a.buffer g,
              ))
              (some (
                record a { buffer = record { len = n; cell = f' }; capacity = n },
                with_cells a.buffer g',
              ))
      pair_eq e e' = λ i. some (
        record a { buffer = record { len = n; cell = λ j. e j i }; capacity = n },
        with_cells a.buffer (λ j. e' j i),
      )

  pub reserved-Holds :
      (n : ℕ) {a : DynamicArray A} {xs : List A}
      → Holds a xs
      → a.capacity ≤ n
      → Holds (reserved n a) xs × IsClean (reserved n a)
  reserved-Holds n {a} {xs} h lt = (
    record {
      size = h.size;
      block = refl;
      room = omega (arith, h.room);
      cells = λ j v e. ground (arith, h.size, h.cells j v e, lt_of_get_elem? xs j e);
    },
    λ j past. ground arith,
  )

  pub reserve-keeps :
      (n : ℕ) (a : DynamicArray A) → leb n a.capacity ≡ true → reserve n a ≡ some (a, a.buffer)
  unfolding reserve
  reserve-keeps n a t = rw t

  -- On an array that holds `xs`, `reserve` returns an array that holds `xs`, whose capacity is the
  -- larger of the old one and the one asked for, and with no object past the end if none was there.
  pub reserve-Holds :
      (n : ℕ) {a : DynamicArray A} {xs : List A}
      → Holds a xs
      → Returns (reserve n a) λ r.
        Holds r.0 xs
        × (r.0.capacity ≡ (if leb n a.capacity then a.capacity else n))
        × (IsClean a → IsClean r.0)
  reserve-Holds n {a} h = elim (Bool-cases (leb n a.capacity)) [
    | inl t ↦ ((a, a.buffer), reserve-keeps n a t, (h, rw t, λ c. c))
    | inr t ↦
        let (k, c) = reserved-Holds n h (ground arith) in
        ((reserved n a, left_behind a), reserve-eq n h (ground arith), (k, rw t, λ _. c))
  ]

  pub make_room-grows :
      {a : DynamicArray A} {xs : List A}
      → Holds a xs
      → a.size ≡ a.capacity
      → a.capacity < 2 ^ 63
      → make_room a ≡ some (reserved (grown a.capacity) a, left_behind a)
  unfolding make_room
  make_room-grows {a} h full small =
      let t : (a.size == a.capacity) ≡ true = ground arith in
      rw t (reserve-eq (grown a.capacity) h (grown-lt a.capacity small))

  pub make_room-keeps :
      (a : DynamicArray A) → a.size < a.capacity → make_room a ≡ some (a, a.buffer)
  unfolding make_room
  make_room-keeps a h = ground arith

  extend-Holds :
      {a : DynamicArray A} {xs : List A} (v : A)
      → Holds a xs
      → a.size < a.capacity
      → Holds (record a { buffer = put a.size (live v) a.buffer; size = a.size + 1 }) (xs ++ v ∷ [])
  extend-Holds {a} {xs} v h lt = record {
    size = omega (arith, h.size, length-append xs (v ∷ []));
    block = h.block;
    room = omega arith;
    cells = λ j w e. ground (arith, h.size, h.cells j w, get_elem?-snoc xs v j);
  }

  -- What appending `v` makes of an array that held `xs`.
  pub record Pushed (a : DynamicArray A) (xs : List A) (v : A) (a' : DynamicArray A) : Type 0 where
    pub holds : Holds a' (xs ++ v ∷ [])
    pub capacity : a'.capacity ≡ (if a.size == a.capacity then grown a.capacity else a.capacity)
    pub clean : IsClean a → IsClean a'

  abbrev pushed : A → DynamicArray A → DynamicArray A
  pushed v a = record a { buffer = put a.size (live v) a.buffer; size = a.size + 1 }

  push_back-room :
      {a : DynamicArray A} {xs : List A} (r : Reference A) (v : A)
      → Holds a xs
      → a.size < a.capacity
      → a.capacity < 2 ^ 63
      → resolve a.buffer r ≡ some v
      → push_back r a ≡ some (pushed v a)
  unfolding push_back
  push_back-room {a} r v h lt small e =
      let wrap : add_size a.size 1 ≡ a.size + 1 = omega arith in
      rw (
        make_room-keeps a lt,
        ◌>>=◌,
        e,
        construct_at-eq a.size v a.buffer (omega (arith, h.block)),
        wrap,
      )

  push_back-full :
      {a : DynamicArray A} {xs : List A} (v : A)
      → Holds a xs
      → a.size ≡ a.capacity
      → a.capacity < 2 ^ 63
      → push_back (outside v) a ≡ some (pushed v (reserved (grown a.capacity) a))
  unfolding push_back resolve
  push_back-full {a} v h full small =
      let n = grown a.capacity in
      let wrap : add_size a.size 1 ≡ a.size + 1 = omega arith in
      let fits : a.size < n = omega (arith, grown-lt a.capacity small) in
      rw (
        make_room-grows h full small,
        ◌>>=◌,
        construct_at-eq a.size v (reserved n a).buffer fits,
        wrap,
      )

  -- On an array that holds `xs`, with a capacity below 2 ^ 63, `push_back` of an object outside the
  -- array returns, holds `xs` and then the object, grows the capacity exactly if the array was
  -- full, and leaves no object past the end if none was there.
  pub push_back-Pushed :
      {a : DynamicArray A} {xs : List A} (v : A)
      → Holds a xs
      → a.capacity < 2 ^ 63
      → Returns (push_back (outside v) a) (Pushed a xs v)
  unfolding resolve
  push_back-Pushed {a} {xs} v h small = elim (dec_lt a.size a.capacity) [
    | yes lt ↦ (
      pushed v a,
      push_back-room (outside v) v h lt small refl,
      record {
        holds = extend-Holds v h lt;
        capacity = ground arith;
        clean = λ c j past. ground (arith, c j);
      },
    )
    | no ge ↦
        let n = grown a.capacity in
        let full : a.size ≡ a.capacity = omega (arith, h.room) in
        let more = grown-lt a.capacity small in
        let (k, c) = reserved-Holds n h (omega arith) in
        (
          pushed v (reserved n a),
          push_back-full v h full small,
          record {
            holds = extend-Holds v k (omega arith);
            capacity = ground arith;
            clean = λ _ j past. ground (arith, c j);
          },
        )
  ]

  -- `push_back(a[i])` with room to spare is `push_back` of the element's value.
  pub push_back-element :
      {a : DynamicArray A} {xs : List A} (i : ℕ) (v : A)
      → Holds a xs
      → a.size < a.capacity
      → a.capacity < 2 ^ 63
      → get_elem? xs i ≡ some v
      → push_back (element i) a ≡ push_back (outside v) a
  unfolding resolve
  push_back-element {a} {xs} i v h lt small e =
      let below = lt_of_get_elem? xs i e in
      push_back-room (element i) v h lt small
        (read-eq i v a.buffer (omega (arith, h.size, h.block)) (h.cells i v e))
      ∙ sym (push_back-room (outside v) v h lt small refl)

  -- On a full array with a capacity below 2 ^ 63, `push_back` of one of its own elements faults: it
  -- reads the element after `reserve` has destroyed it.
  pub push_back-dangling :
      {a : DynamicArray A} {xs : List A} (i : ℕ)
      → Holds a xs
      → a.size ≡ a.capacity
      → a.capacity < 2 ^ 63
      → i < length xs
      → push_back (element i) a ≡ none
  unfolding push_back resolve read
  push_back-dangling {a} i h full small lt =
      rw (make_room-grows h full small, ◌>>=◌) (ground (arith, h.size))
