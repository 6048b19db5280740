-- ===== src/Examples/Hives.antt =====
-- Runs of include/ycetl/hive.hpp over the numbers.
use ycetl.Base.{
  ◌≢◌, ℕ, zero, suc, ◌≡◌, refl, false, [], ◌∷◌, some, arith, ◌>>=◌, Returns, get_elem?, sym,
}
use mathlib.Core.Option.{some-injective}
use ycetl.Hive.{empty, filled, Slot, Hive, insert, erase, begin, increment}
use ycetl.Hive.Laws.{IsHive, Places, insert-Places, element, full}
use ycetl.Probe.Scan.{count}
use ycetl.Hive.Vacating.{Vacates, erase-Vacates}

abbrev comb : Hive ℕ
comb = record {
  slots =
      record { state = filled; value = 7 }
      ∷ record { state = empty; value = 8 }
      ∷ record { state = filled; value = 9 }
      ∷ [];
  free = 1 ∷ [];
  size = 2;
}

comb_vacant :
    (j i : ℕ)
    → get_elem? comb.free j ≡ some i
    → (s : Slot ℕ) × (get_elem? comb.slots i ≡ some s) × (full s ≡ false)
comb_vacant zero i f =
    let second : 1 ≡ i = ground arith in
    (record { state = empty; value = 8 }, rw (sym second) refl, refl)
comb_vacant (suc j) i f = absurd (cc f)

comb_distinct :
    (j k i : ℕ) → get_elem? comb.free j ≡ some i → get_elem? comb.free k ≡ some i → j ≡ k
comb_distinct zero zero i f g = refl
comb_distinct zero (suc k) i f g = absurd (cc g)
comb_distinct (suc j) k i f g = absurd (cc f)

no_hole :
    (v : ℕ) (s : Slot ℕ) → some (record { state = filled; value = v }) ≡ some s → full s ≢ false
no_hole v s e gone = cc (some-injective _ _ e, gone)

comb_complete :
    (i : ℕ) (s : Slot ℕ)
    → get_elem? comb.slots i ≡ some s
    → full s ≡ false
    → (k : ℕ) × (get_elem? comb.free k ≡ some i)
comb_complete zero s e gone = absurd (no_hole 7 s e gone)
comb_complete (suc zero) s e gone = (0, refl)
comb_complete (suc (suc zero)) s e gone = absurd (no_hole 9 s e gone)
comb_complete (suc (suc (suc i))) s e gone = absurd (cc e)

comb-IsHive : IsHive comb
comb-IsHive = record {
  vacant = comb_vacant;
  distinct = comb_distinct;
  complete = comb_complete;
  size = unfold count in refl;
}

insert-Places_example : Returns (insert 5 comb) (Places 5 comb)
insert-Places_example = insert-Places 5 comb comb-IsHive (ground arith)

erase-Vacates_example : Returns (erase 0 comb) (Vacates 0 comb)
erase-Vacates_example = erase-Vacates 0 7 comb comb-IsHive (ground arith) (unfold element in refl)

-- The search goes past the hole.
walks : begin comb >>= (λ i. increment i comb) ≡ some 2
unfolding begin increment
walks = refl
