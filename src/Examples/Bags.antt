-- ===== src/Examples/Bags.antt =====
-- Runs of include/ycetl/unordered_multiset.hpp and unordered_multimap.hpp on small tables.
use ycetl.Base.{ℕ, zero, suc, ◌≡◌, refl, false, [], ◌∷◌, some, arith, ◌>>=◌, Returns, get_elem?}
use ycetl.Examples.Hashed.{numbers}
use ycetl.Probe.{Slot, empty, filled, tombstone, is_empty, maybe_grow, fill}
use ycetl.Probe.Scan
use ycetl.Rounds.{modulo}
use ycetl.Repeats.{free_loop, iterator}
use ycetl.Repeats.Erasing.{IsBag, TakesAll, erase-TakesAll}
use ycetl.Repeats.Inserting.{Adds, insert-Adds}
use ycetl.Repeats.Iterating.{walk, entries, walk-entries}
use ycetl.Repeats.Lookup.{Finds, find-Finds}
use ycetl.UnorderedMap.{key_of}
use ycetl.UnorderedMultimap.{UnorderedMultimap, begin, count, find, insert, erase}

-- Two pairs under 3, the second come round from its home, slot 1.
abbrev twins : UnorderedMultimap ℕ ℕ
twins = record {
  slots =
      record { state = filled; entry = (3, 31) } ∷ record { state = filled; entry = (3, 30) } ∷ [];
  size = 2;
}

twins-used :
    (i : ℕ) (s : Slot (ℕ × ℕ)) → get_elem? twins.slots i ≡ some s → is_empty s.state ≡ false
twins-used zero s e = ground arith
twins-used (suc zero) s e = ground arith
twins-used (suc (suc i)) s e = absurd (cc e)

twins-IsBag : IsBag key_of twins
unfolding Scan.count
twins-IsBag = record {
  reached = record {
    bound = omega arith;
    reach = λ d p s s' lt before at full at'. twins-used _ s' at';
  };
  size = refl;
}

find-Finds_example : Returns (find 3 twins) (Finds key_of 3 twins)
unfolding find
find-Finds_example = find-Finds key_of 3 twins twins-IsBag

erase-TakesAll_example : Returns (erase 3 twins) (TakesAll key_of 3 twins)
unfolding erase
erase-TakesAll_example = erase-TakesAll key_of 3 twins twins-IsBag

insert-Adds_example : Returns (insert (0, 0) (3, 32) twins) (Adds key_of (3, 32) twins)
unfolding insert
insert-Adds_example = insert-Adds key_of (0, 0) (3, 32) twins twins-IsBag (omega arith)

-- The table grows to four slots, and the third pair lands after the two before it.
third : insert (0, 0) (3, 32) twins >>= (λ (r : UnorderedMultimap ℕ ℕ × ℕ). count 3 r.0) ≡ some 3
unfolding insert count maybe_grow free_loop fill iterator modulo
third = refl

both : erase 3 twins >>= (λ (r : UnorderedMultimap ℕ ℕ × ℕ). some r.1) ≡ some 2
unfolding erase modulo
both = refl

-- A tombstone between two pairs.
abbrev gap : UnorderedMultimap ℕ ℕ
gap = record {
  slots =
      record { state = filled; entry = (4, 40) }
      ∷ record { state = tombstone; entry = (1, 10) }
      ∷ record { state = filled; entry = (2, 20) }
      ∷ record { state = empty; entry = (0, 0) }
      ∷ [];
  size = 2;
}

walk-entries_example : Returns (begin gap) (λ i. walk 5 i gap ≡ some ((4, 40) ∷ (2, 20) ∷ []))
unfolding begin entries
walk-entries_example = walk-entries gap
