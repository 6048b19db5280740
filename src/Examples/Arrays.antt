-- ===== src/Examples/Arrays.antt =====
-- Runs of include/ycetl/dynamic_array.hpp on small arrays.
use ycetl.Base.{
  ℕ, zero, suc, ◌≡◌, refl, List, [], ◌∷◌, Option, none, some, ◌==◌, if◌then◌else◌, Returns, arith,
  get_elem?, ◌>>=◌,
}
use ycetl.DynamicArray.{
  DynamicArray, Cell, outside, element, new, push_back, insert, erase, erase_range, at, raw, live,
  moved, allocate, clear,
}
use ycetl.DynamicArray.Contents.{Holds, IsClean}
use ycetl.DynamicArray.Erasing.{Erased, erase-not-IsClean, erase_range-Erased}
use ycetl.DynamicArray.Growth.{Pushed, push_back-Pushed, push_back-dangling}
use ycetl.DynamicArray.Inserting.{Inserted, insert-Inserted, insert_shifted}

abbrev pub slots : ℕ → Cell ℕ
slots j = if j == 0 then live 5 else if j == 1 then live 6 else if j == 2 then live 7 else raw

abbrev pub items : List ℕ
items = 5 ∷ 6 ∷ 7 ∷ []

-- Three elements in a block of `n` slots.
abbrev pub three : ℕ → DynamicArray ℕ
three n = record { buffer = record { len = n; cell = slots }; size = 3; capacity = n }

slots-items : (j v : ℕ) → get_elem? items j ≡ some v → slots j ≡ live v
slots-items zero v e = ground arith
slots-items (suc zero) v e = ground arith
slots-items (suc (suc zero)) v e = ground arith
slots-items (suc (suc (suc j))) v e = absurd (cc e)

pub four-Holds : Holds (three 4) items
four-Holds = record { size = refl; block = refl; room = omega arith; cells = slots-items }

full-Holds : Holds (three 3) items
full-Holds = record { size = refl; block = refl; room = omega arith; cells = slots-items }

push_back-Pushed_example : Returns (push_back (outside 9) (three 3)) (Pushed (three 3) items 9)
push_back-Pushed_example = push_back-Pushed 9 full-Holds (omega arith)

push_back-dangling_example : push_back (element 0) (three 3) ≡ none
push_back-dangling_example = push_back-dangling 0 full-Holds refl (omega arith) (omega arith)

insert-Inserted_example : Returns (insert 1 (outside 9) (three 3)) (Inserted 1 9 (three 3) items)
insert-Inserted_example = insert-Inserted 1 9 full-Holds (omega arith) (omega arith)

insert_shifted_example : insert 0 (element 2) (three 4) ≡ insert 0 (outside 6) (three 4)
insert_shifted_example =
    insert_shifted 0 2 6 four-Holds (omega arith) (omega arith) (omega arith) (omega arith) refl

erase-not-IsClean_example : Returns (erase 0 (three 4)) λ a'.
    ¬ IsClean a'
    × (a'.buffer.cell a'.size ≡ moved)
    × Returns (clear a') (λ c. c.buffer.cell a'.size ≡ moved)
erase-not-IsClean_example = erase-not-IsClean 0 four-Holds (omega arith) (omega arith)

erase_range-Erased_example : Returns (erase_range 0 2 (three 4)) (Erased 0 2 (three 4) items)
erase_range-Erased_example =
    erase_range-Erased 0 2 four-Holds (omega arith) (omega arith) (omega arith)

-- `push_back` in a loop: the capacity goes 0, 4, 8.
grows_run : Option (ℕ × ℕ × ℕ)
unfolding push_back new at
grows_run = do
  let a₀ : DynamicArray ℕ = new
  a₁ ← push_back (outside 1) a₀
  a₂ ← push_back (outside 2) a₁
  a₃ ← push_back (outside 3) a₂
  a₄ ← push_back (outside 4) a₃
  a₅ ← push_back (outside 5) a₄
  x ← at 4 a₅
  some (x, a₅.size, a₅.capacity)

grows : grows_run ≡ some (5, 5, 8)
unfolding grows_run allocate
grows = refl

-- `insert` and `erase` in the middle.
edits_run : Option (ℕ × ℕ × ℕ × ℕ)
unfolding insert erase at
edits_run = do
  a ← insert 1 (outside 9) (three 4)
  b ← erase 0 a
  x ← at 0 b
  y ← at 1 b
  z ← at 2 b
  some (x, y, z, b.size)

edits : edits_run ≡ some (9, 6, 7, 3)
unfolding edits_run
edits = refl
