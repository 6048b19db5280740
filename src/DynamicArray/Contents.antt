-- ===== src/DynamicArray/Contents.antt =====
-- The sequence that an array of include/ycetl/dynamic_array.hpp holds.
use ycetl.Base.{
  ℕ, ◌-◌, ◌≤◌, ◌<◌, ◌≡◌, ◌≢◌, refl, ap, ◌∙◌, ◌&&◌, List, [], some, arith, if◌then◌else◌, ltb, leb,
  length, get_elem?, get_elem?-some,
}
use ycetl.DynamicArray.Slots.{raw, live, Block, allocate}
use ycetl.DynamicArray.Loops.{AllLive, read-eq, with_cells, cells_eq, destroy_loop-eq}
use ycetl.DynamicArray.{DynamicArray, at, new, destroy_range}

module _ {A : Type 0} where
  -- The slots below the size hold the elements of `xs`, in order.
  pub record Holds (a : DynamicArray A) (xs : List A) : Type 0 where
    pub size : a.size ≡ length xs
    pub block : a.buffer.len ≡ a.capacity
    pub room : a.size ≤ a.capacity
    pub cells : (j : ℕ) (v : A) → get_elem? xs j ≡ some v → a.buffer.cell j ≡ live v

  -- No slot at or past the size holds an object.
  abbrev pub IsClean : DynamicArray A → Type 0
  IsClean a = (j : ℕ) → a.size ≤ j → a.buffer.cell j ≡ raw

  pub Holds-AllLive : {a : DynamicArray A} {xs : List A} → Holds a xs → AllLive a.size 0 a.buffer
  Holds-AllLive {xs = xs} h j p q =
      let (v, e) = get_elem?-some xs j (omega (arith, h.size)) in (v, h.cells j v e)

  pub live_below :
      {a : DynamicArray A} {xs : List A}
      → Holds a xs
      → (j : ℕ) → j < a.size
      → (v : A) × (a.buffer.cell j ≡ live v)
  live_below h j lt = Holds-AllLive h j (omega arith) (omega arith)

  pub object_below :
      {a : DynamicArray A} {xs : List A} → Holds a xs → (j : ℕ) → j < a.size → a.buffer.cell j ≢ raw
  object_below h j lt = let (v, e) = live_below h j lt in λ r. ground arith

  -- `operator[]` reads the element at its index.
  pub at-Holds :
      {a : DynamicArray A} {xs : List A}
      → Holds a xs
      → (i : ℕ) → i < length xs
      → at i a ≡ get_elem? xs i
  unfolding at
  at-Holds {a} {xs} h i lt =
      let (v, e) = get_elem?-some xs i lt in
      rw (e, read-eq i v a.buffer (omega (arith, h.size, h.block, h.room)) (h.cells i v e))

  pub new-Holds : Holds (new {A = A}) [] × IsClean (new {A = A})
  unfolding new allocate
  new-Holds = (
    record { size = refl; block = refl; room = omega arith; cells = λ j v e. absurd (cc e) },
    λ j h. refl,
  )

  -- `destroy_range` empties the slots from `first` to before `last`, if each holds an object.
  pub destroy_range-eq :
      (first last : ℕ) (b : Block A)
      → first ≤ last
      → last ≤ b.len
      → ((j : ℕ) → first ≤ j → j < last → b.cell j ≢ raw)
      → destroy_range first last b
        ≡ some (with_cells b (λ j. if leb first j && ltb j last then raw else b.cell j))
  unfolding destroy_range
  destroy_range-eq first last b le room objs =
      destroy_loop-eq (last - first) first b (omega arith) (λ j p q. objs j p (omega arith))
      ∙ ap some (cells_eq b _ _ (λ j. ground arith))
