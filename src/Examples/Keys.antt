-- ===== src/Examples/Keys.antt =====
-- Runs of include/ycetl/unordered_set.hpp on a table of one slot.
use ycetl.Base.{ℕ, ◌≡◌, refl, false, [], ◌∷◌, some, arith, ◌>>=◌, lt_of_get_elem?}
use ycetl.Rounds.{modulo}
use ycetl.Examples.Hashed.{numbers}
use ycetl.Probe.{filled}
use ycetl.Probe
use ycetl.Probe.Scan.{count}
use ycetl.Probe.Valid.{IsTable}
use ycetl.UnorderedSet.{UnorderedSet, itself, begin, increment, clear, contains}

abbrev three : UnorderedSet ℕ
three = record { slots = record { state = filled; entry = 3 } ∷ []; size = 1 }

three-IsTable : IsTable itself three
unfolding count
three-IsTable = record {
  valid = record {
    bound = omega arith;
    reach = λ d p s s' lt before at full at'. absurd (omega arith);
    unique = λ i j s s' at at' full full' eq.
        omega (arith, lt_of_get_elem? three.slots i at, lt_of_get_elem? three.slots j at');
  };
  size = refl;
}

-- The only key, and then `end()`.
visits : begin three >>= (λ i. increment i three) ≡ some 1
unfolding begin increment
visits = refl

cleared : contains 3 (clear three) ≡ some false
unfolding clear contains Probe.contains modulo
cleared = refl
