-- ===== src/Examples/Unique.antt =====
-- Runs of include/ycetl/unique_ptr.hpp over the numbers.
use ycetl.Base.{
  ℕ, zero, suc, ◌∙◌, ◌≡◌, refl, sym, [], ◌∷◌, none, some, arith, Returns, get_elem?, ltb,
  if◌then◌else◌,
}
use mathlib.Core.Option.{some-injective}
use ycetl.UniquePtr.{State, move_assign}
use ycetl.UniquePtr.Laws.{Owns, without, move_assign-Owns}

-- Each variable owns the object at its index.
abbrev couple : State ℕ
couple = record { objects = λ a. if ltb a 2 then some 7 else none; pointers = some 0 ∷ some 1 ∷ [] }

couple_lem :
    (i a : ℕ) → get_elem? couple.pointers i ≡ some (some a) → (a ≡ i) × (couple.objects a ≡ some 7)
couple_lem zero a e =
    let same : 0 ≡ a = some-injective _ _ (some-injective _ _ e) in (sym same, rw (sym same) refl)
couple_lem (suc zero) a e =
    let same : 1 ≡ a = some-injective _ _ (some-injective _ _ e) in (sym same, rw (sym same) refl)
couple_lem (suc (suc i)) a e = absurd (cc e)

couple-Owns : Owns couple
couple-Owns = record {
  live = λ i a e. (7, (couple_lem i a e).1);
  apart = λ i j a e e'. sym (couple_lem i a e).0 ∙ (couple_lem j a e').0;
}

move_assign-Owns_example : Returns (move_assign 0 1 couple) λ st.
    Owns st
    × (st.pointers ≡ some 1 ∷ none ∷ [])
    × ((a : ℕ) → st.objects a ≡ without (some 0) couple.objects a)
move_assign-Owns_example =
    move_assign-Owns couple couple-Owns 0 1 (some 0) (some 1) refl refl (omega arith)
