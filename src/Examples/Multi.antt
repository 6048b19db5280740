-- ===== src/Examples/Multi.antt =====
-- Runs of include/ycetl/multimap.hpp and include/ycetl/multiset.hpp over the numbers.
use ycetl.Base.{
  ℕ, zero, suc, ◌≡◌, refl, Bool, true, false, not, ◌&&◌, List, [], ◌∷◌, some, arith, Returns,
  length, get_elem?,
}
use ycetl.Order.{less}
use ycetl.Examples.Sorted.{size_order}
use ycetl.Flat.Runs.{run}
use ycetl.Flat.{partition_point, erase_run}
use ycetl.Sequence.{insert_at}
use ycetl.Multimap
use ycetl.Multimap.{Multimap}
use ycetl.Multimap.Laws as MultimapLaws
use ycetl.Multiset
use ycetl.Multiset.{Multiset}
use ycetl.Multiset.Laws as MultisetLaws

-- No key of the list comes before `k`.
abbrev none_before : ℕ → List (ℕ × ℕ) → Bool
none_before k [] = true
none_before k (e ∷ xs) = not (less e.0 k) && none_before k xs

none_before-get :
    (k : ℕ) (xs : List (ℕ × ℕ)) (i : ℕ) (e : ℕ × ℕ)
    → none_before k xs ≡ true
    → get_elem? xs i ≡ some e
    → less e.0 k ≡ false
none_before-get k [] i e h at = absurd (cc at)
none_before-get k (x ∷ xs) zero e h at = ground arith
none_before-get k (x ∷ xs) (suc i) e h at = none_before-get k xs i e (ground arith) at

IsOrdered-cons :
    (x : ℕ × ℕ) (xs : List (ℕ × ℕ))
    → none_before x.0 xs ≡ true
    → MultimapLaws.IsOrdered xs
    → MultimapLaws.IsOrdered (x ∷ xs)
IsOrdered-cons x xs h o zero zero e f lt at at' = absurd (omega arith)
IsOrdered-cons x xs h o zero (suc j) e f lt at at' =
    let first : x ≡ e = cc at in rw (← first) (none_before-get x.0 xs j f h at')
IsOrdered-cons x xs h o (suc i) zero e f lt at at' = absurd (omega arith)
IsOrdered-cons x xs h o (suc i) (suc j) e f lt at at' = o i j e f (omega arith) at at'

abbrev grades : Multimap ℕ ℕ
grades = (1, 10) ∷ (3, 30) ∷ (3, 31) ∷ (5, 50) ∷ []

grades-IsOrdered : MultimapLaws.IsOrdered grades
grades-IsOrdered =
    IsOrdered-cons (1, 10) ((3, 30) ∷ (3, 31) ∷ (5, 50) ∷ []) refl
      (IsOrdered-cons (3, 30) ((3, 31) ∷ (5, 50) ∷ []) refl
        (IsOrdered-cons (3, 31) ((5, 50) ∷ []) refl
          (IsOrdered-cons (5, 50) [] refl (λ i j e f lt at. absurd (cc at)))))

insert-Appends_example : Returns (Multimap.insert 3 32 grades) (MultimapLaws.Appends 3 32 grades)
insert-Appends_example = MultimapLaws.insert-Appends 3 32 grades grades-IsOrdered

erase-Clears_example : Returns (Multimap.erase 3 grades) (MultimapLaws.Clears 3 grades)
erase-Clears_example = MultimapLaws.erase-Clears 3 grades grades-IsOrdered

abbrev throws : Multiset ℕ
throws = 2 ∷ 4 ∷ 4 ∷ []

throws-IsOrdered : MultisetLaws.IsOrdered throws
throws-IsOrdered zero zero e f lt at at' = absurd (omega arith)
throws-IsOrdered zero (suc zero) e f lt at at' = ground arith
throws-IsOrdered zero (suc (suc zero)) e f lt at at' = ground arith
throws-IsOrdered zero (suc (suc (suc j))) e f lt at at' = absurd (cc at')
throws-IsOrdered (suc i) zero e f lt at at' = absurd (omega arith)
throws-IsOrdered (suc zero) (suc zero) e f lt at at' = absurd (omega arith)
throws-IsOrdered (suc zero) (suc (suc zero)) e f lt at at' = ground arith
throws-IsOrdered (suc zero) (suc (suc (suc j))) e f lt at at' = absurd (cc at')
throws-IsOrdered (suc (suc zero)) (suc zero) e f lt at at' = absurd (omega arith)
throws-IsOrdered (suc (suc zero)) (suc (suc zero)) e f lt at at' = absurd (omega arith)
throws-IsOrdered (suc (suc zero)) (suc (suc (suc j))) e f lt at at' = absurd (cc at')
throws-IsOrdered (suc (suc (suc i))) (suc j) e f lt at at' = absurd (cc at)

equal_range-matching_example : Returns (Multiset.equal_range 4 throws) λ r.
    (run r.0 r.1 throws ≡ MultisetLaws.matching 4 throws)
    × (Multiset.count 4 throws ≡ some (length (MultisetLaws.matching 4 throws)))
equal_range-matching_example = MultisetLaws.equal_range-matching 4 throws throws-IsOrdered

-- A new pair comes after those with its key, and `erase` takes them all.
after : Multimap.insert 3 32 grades ≡ some ((1, 10) ∷ (3, 30) ∷ (3, 31) ∷ (3, 32) ∷ (5, 50) ∷ [], 3)
unfolding Multimap.insert partition_point insert_at
after = refl

all_gone : Multimap.erase 3 grades ≡ some ((1, 10) ∷ (5, 50) ∷ [], 2)
unfolding Multimap.erase partition_point erase_run
all_gone = refl
