-- ===== src/Examples/Owners.antt =====
-- Runs of include/ycetl/shared_ptr.hpp and include/ycetl/weak_ptr.hpp over the numbers.
use ycetl.Base.{
  ℕ, zero, suc, ◌≡◌, refl, sym, ap, true, false, [], ◌∷◌, ◌++◌, none, some, arith, ◌==◌,
  if◌then◌else◌, ◌>>=◌, Returns, get_elem?,
}
use mathlib.Core.Option.{some-injective}
use native.Mathlib.Decide.{ℕ_discrete}
use ycetl.Probe.Scan.{count}
use ycetl.SharedPtr.{Handle, State, null, destroy}
use ycetl.SharedPtr.Counts.{Fits, Counts, owners}
use ycetl.SharedPtr.Owners.{Owns}
use ycetl.SharedPtr.Laws as SharedLaws
use ycetl.SharedPtr.Laws.{Releases}
use ycetl.WeakPtr.{lock, expired}
use ycetl.WeakPtr.Laws as WeakLaws
use ycetl.WeakPtr.Laws.{ownerless}

-- Block 0, for the object at address 5.
abbrev owner : Handle
owner = record { control_block = some 0; ptr = some 5 }

abbrev goal : ℕ → ℕ
goal b = 5

-- Two variables own the object, and one observes it.
abbrev family : State ℕ
family = record {
  heap = record {
    blocks = λ b. if b == 0 then some (record { ref_count = 2; weak_count = 2 }) else none;
    objects = λ a. if a == 5 then some 42 else none;
    used = 1;
  };
  shared = owner ∷ owner ∷ [];
  weak = owner ∷ [];
}

family_shared : (b : ℕ) → owners family.shared b ≡ (if b == 0 then 2 else 0)
unfolding count
family_shared b = ground arith

family_weak : (b : ℕ) → owners family.weak b ≡ (if b == 0 then 1 else 0)
unfolding count
family_weak b = ground arith

family-Counts : Counts goal family.heap (owners family.shared) (owners family.weak)
family-Counts = record {
  fits = λ b.
      rw (family_shared b, family_weak b)
        (elim (ℕ_discrete b 0) [
          | yes e ↦ unfold Fits in rw e (refl, refl, omega arith)
          | no ne ↦
              let other : (b == 0) ≡ false = ground arith in unfold Fits in rw other (refl, refl)
        ]);
  object = λ b p. (42, refl);
  apart = λ b c p q e. ground (arith, family_shared b, family_shared c);
  fresh = λ b le. ground (arith, family_shared b, family_weak b);
}

family_aims :
    (i b : ℕ) (s : Handle)
    → get_elem? (owner ∷ owner ∷ []) i ≡ some s
    → s.control_block ≡ some b
    → s.ptr ≡ some (goal b)
family_aims zero b s e e' = sym (ap (λ (h : Handle). h.ptr) (some-injective _ _ e))
family_aims (suc zero) b s e e' = sym (ap (λ (h : Handle). h.ptr) (some-injective _ _ e))
family_aims (suc (suc i)) b s e e' = absurd (cc e)

observer_aims :
    (i b : ℕ) (s : Handle)
    → get_elem? (owner ∷ []) i ≡ some s
    → s.control_block ≡ some b
    → s.ptr ≡ some (goal b)
observer_aims zero b s e e' = sym (ap (λ (h : Handle). h.ptr) (some-injective _ _ e))
observer_aims (suc i) b s e e' = absurd (cc e)

family-Owns : Owns goal family
family-Owns = record {
  counted = family-Counts;
  shared_aims = family_aims;
  weak_aims = observer_aims;
}

destroy-Releases_example : Returns (destroy 0 family) (Releases goal 0 owner family)
destroy-Releases_example =
    SharedLaws.destroy-Releases goal family family-Owns (ground arith) 0 owner refl

lock-Owns_example : Returns (lock 0 family) λ st.
    Owns goal st
    × (st.shared ≡ family.shared ++ (if ownerless owner family.shared then null else owner) ∷ [])
    × (st.heap.objects ≡ family.heap.objects)
lock-Owns_example = WeakLaws.lock-Owns goal family family-Owns (ground arith) 0 owner refl

-- The object goes with the second owner, and the observer sees it.
orphaned : destroy 0 family >>= (λ st. destroy 1 st) >>= (λ st. expired owner st.heap) ≡ some true
unfolding destroy expired
orphaned = refl
