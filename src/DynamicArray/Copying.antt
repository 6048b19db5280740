-- ===== src/DynamicArray/Copying.antt =====
-- The filling and copying constructors of include/ycetl/dynamic_array.hpp.
use ycetl.Base.{
  ℕ, ◌≡◌, refl, sym, List, arith, if◌then◌else◌, Returns, lt_of_get_elem?, replicate,
  length-replicate, get_elem?-replicate,
}
use ycetl.DynamicArray.Slots.{raw, live, allocate}
use ycetl.DynamicArray.Loops.{within, with_cells, construct_n-eq, copy_loop-eq}
use ycetl.DynamicArray.Contents.{Holds, IsClean, Holds-AllLive}
use ycetl.DynamicArray.{DynamicArray, copy, new_filled}

module _ {A : Type 0} where
  -- From an array that holds `xs`, the copy constructor returns an array that holds `xs`, with the
  -- same capacity and no object past the end.
  pub copy-Holds :
      {a : DynamicArray A} {xs : List A}
      → Holds a xs
      → Returns (copy a) λ a'. Holds a' xs × IsClean a' × (a'.capacity ≡ a.capacity)
  unfolding copy allocate
  copy-Holds {a} {xs} h = (
    record a {
      buffer =
          with_cells (allocate a.capacity)
            (λ j. if within 0 a.size j then a.buffer.cell j else raw);
    },
    rw (
        copy_loop-eq a.size 0 a.buffer (allocate a.capacity) (omega (arith, h.block, h.room))
          (omega (arith, h.room)) (Holds-AllLive h)),
    (
      record {
        size = h.size;
        block = refl;
        room = h.room;
        cells = λ j v e. ground (arith, h.size, h.cells j v e, lt_of_get_elem? xs j e);
      },
      λ j past. ground arith,
      refl,
    ),
  )

  -- The filling constructor gives `n` copies of the value in exactly `n` slots.
  pub new_filled-Holds :
      (n : ℕ) (v : A)
      → Returns (new_filled n v) λ a. Holds a (replicate n v) × IsClean a × (a.capacity ≡ n)
  unfolding new_filled allocate
  new_filled-Holds n v = (
    record {
      buffer = with_cells (allocate n) (λ j. if within 0 n j then live v else raw);
      size = n;
      capacity = n;
    },
    rw (construct_n-eq n 0 v (allocate n) (omega arith)),
    (
      record {
        size = sym (length-replicate n v);
        block = refl;
        room = omega arith;
        cells = λ j w e. ground (arith, get_elem?-replicate n v j);
      },
      λ j past. ground arith,
      refl,
    ),
  )
