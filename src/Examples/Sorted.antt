-- ===== src/Examples/Sorted.antt =====
-- Runs of include/ycetl/set.hpp and include/ycetl/map.hpp over the numbers.
use ycetl.Base.{
  ℕ, zero, suc, ◌≡◌, refl, true, false, not, ◌||◌, [], ◌∷◌, some, ltb, Returns, arith, is_some,
}
use ycetl.Order.{Order}
use ycetl.Flat.{partition_point, hit, erase_at}
use ycetl.Sequence.{insert_at}
use ycetl.Map
use ycetl.Map.{Map}
use ycetl.Map.Laws as MapLaws
use ycetl.Set
use ycetl.Set.{Set}
use ycetl.Set.Laws as SetLaws

pub ltb_irreflexive : (a : ℕ) → ltb a a ≡ false
ltb_irreflexive a = ground arith

pub ltb_transitive : (a b c : ℕ) → ltb a b ≡ true → ltb b c ≡ true → ltb a c ≡ true
ltb_transitive a b c h k = ground arith

pub ltb_weak : (a b c : ℕ) → ltb a b ≡ true → (ltb a c || ltb c b) ≡ true
ltb_weak a b c h = ground arith

-- `std::less<std::size_t>`
instance abbrev pub size_order : Order ℕ
size_order = record {
  less = ltb;
  irreflexive = ltb_irreflexive;
  transitive = ltb_transitive;
  weak = ltb_weak;
}

abbrev odds : Set ℕ
odds = 1 ∷ 3 ∷ 5 ∷ []

odds-IsSorted : SetLaws.IsSorted odds
odds-IsSorted zero zero x y lt a b = absurd (omega arith)
odds-IsSorted zero (suc zero) x y lt a b = ground arith
odds-IsSorted zero (suc (suc zero)) x y lt a b = ground arith
odds-IsSorted zero (suc (suc (suc j))) x y lt a b = absurd (cc b)
odds-IsSorted (suc i) zero x y lt a b = absurd (omega arith)
odds-IsSorted (suc zero) (suc zero) x y lt a b = absurd (omega arith)
odds-IsSorted (suc zero) (suc (suc zero)) x y lt a b = ground arith
odds-IsSorted (suc zero) (suc (suc (suc j))) x y lt a b = absurd (cc b)
odds-IsSorted (suc (suc zero)) (suc zero) x y lt a b = absurd (omega arith)
odds-IsSorted (suc (suc zero)) (suc (suc zero)) x y lt a b = absurd (omega arith)
odds-IsSorted (suc (suc zero)) (suc (suc (suc j))) x y lt a b = absurd (cc b)
odds-IsSorted (suc (suc (suc i))) (suc j) x y lt a b = absurd (cc a)

abbrev ages : Map ℕ ℕ
ages = (1, 10) ∷ (3, 30) ∷ []

ages-IsSorted : MapLaws.IsSorted ages
ages-IsSorted zero zero x y lt a b = absurd (omega arith)
ages-IsSorted zero (suc zero) x y lt a b = ground arith
ages-IsSorted zero (suc (suc j)) x y lt a b = absurd (cc b)
ages-IsSorted (suc i) zero x y lt a b = absurd (omega arith)
ages-IsSorted (suc zero) (suc zero) x y lt a b = absurd (omega arith)
ages-IsSorted (suc zero) (suc (suc j)) x y lt a b = absurd (cc b)
ages-IsSorted (suc (suc i)) (suc j) x y lt a b = absurd (cc a)

insert-Inserts_example : Returns (Set.insert 4 odds) (SetLaws.Inserts 4 odds)
insert-Inserts_example = SetLaws.insert-Inserts 4 odds odds-IsSorted

insert_or_assign-Writes_example :
    Returns
      (Map.insert_or_assign 3 33 ages)
      λ r. MapLaws.Writes 3 33 ages r.0 × (r.2 ≡ not (is_some (MapLaws.value_of 3 ages)))
insert_or_assign-Writes_example = MapLaws.insert_or_assign-Writes 3 33 ages ages-IsSorted

-- The search finds the place between 3 and 5.
places : Set.insert 4 odds ≡ some (1 ∷ 3 ∷ 4 ∷ 5 ∷ [], 2, true)
unfolding Set.insert partition_point hit insert_at
places = refl

-- `erase` closes the gap.
closes : Set.erase 3 odds ≡ some (1 ∷ 5 ∷ [], 1)
unfolding Set.erase partition_point hit erase_at
closes = refl
