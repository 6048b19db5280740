-- ===== src/SharedPtr/Adopting.antt =====
-- The constructor of include/ycetl/shared_ptr.hpp from a plain pointer.
use ycetl.Base.{
  ℕ, ◌+◌, ◌<◌, ◌≡◌, ◌≢◌, refl, ◌∙◌, ap, true, false, List, [], ◌∷◌, ◌++◌, some, arith, ◌==◌,
  if◌then◌else◌,
}
use mathlib.Core.Option.{some-injective}
use native.Mathlib.Decide.{ℕ_discrete}
use ycetl.SharedPtr.{Handle, State, adopt}
use ycetl.SharedPtr.Counts.{Fits, owners}
use ycetl.SharedPtr.Owners.{Owns, Aims, append-Adds}
use ycetl.SharedPtr.Laws.{owner-pos}

-- The object of the new block.
abbrev pub retarget : ℕ → ℕ → (ℕ → ℕ) → ℕ → ℕ
retarget b a target c = if c == b then a else target c

new_block : Fits (some (record { ref_count = 1; weak_count = 1 })) 1 0
unfolding Fits
new_block = (refl, refl, omega arith)

module _ {A : Type 0} (target : ℕ → ℕ) (st : State A) (k : Owns target st) (a : ℕ) (v : A) where
  abbrev handle : Handle
  handle = record { control_block = some st.heap.used; ptr = some a }

  Aims-retarget :
      (xs : List Handle)
      → owners xs st.heap.used ≡ 0
      → Aims target xs
      → Aims (retarget st.heap.used a target) xs
  Aims-retarget xs unused aims i b s at e =
      let pos = owner-pos s xs i b at e in
      let ne : b ≢ st.heap.used = λ same. ground (arith, ap (owners xs) same) in
      let other : (b == st.heap.used) ≡ false = ground arith in aims i b s at e ∙ rw other refl

  -- Where no variable owns the object, a block of its own counts one owner, and nothing else
  -- changes.
  pub adopt-Owns :
      st.heap.objects a ≡ some v
      → ((b : ℕ) → 0 < owners st.shared b → target b ≢ a)
      → Owns (retarget st.heap.used a target) (adopt (some a) st)
  unfolding adopt
  adopt-Owns there unowned =
      let adds = append-Adds handle st.shared in
      let counts : (b : ℕ)
          → owners (st.shared ++ handle ∷ []) b
            ≡ owners st.shared b + (if b == st.heap.used then 1 else 0) =
        adds.counts in
      let unused = k.counted.fresh st.heap.used (omega arith) in
      record {
        counted = record {
          fits = λ b. elim (ℕ_discrete b st.heap.used) [
            | yes e ↦
                let here : (b == st.heap.used) ≡ true = ground arith in
                let s : owners (st.shared ++ handle ∷ []) b ≡ 1 =
                  counts b ∙ ground (arith, ap (owners st.shared) e) in
                let w : owners st.weak b ≡ 0 = ground (arith, ap (owners st.weak) e) in
                rw (here, s, w) new_block
            | no ne ↦
                let other : (b == st.heap.used) ≡ false = ground arith in
                let s : owners (st.shared ++ handle ∷ []) b ≡ owners st.shared b =
                  counts b ∙ rw other (omega arith) in
                rw (other, s) (k.counted.fits b)
          ];
          object = λ b p. elim (ℕ_discrete b st.heap.used) [
            | yes e ↦ let here : (b == st.heap.used) ≡ true = ground arith in (v, rw here there)
            | no ne ↦
                let other : (b == st.heap.used) ≡ false = ground arith in
                rw other (k.counted.object b (ground (arith, counts b)))
          ];
          apart = λ b c p q e.
              ground (arith, counts b, counts c, unowned b, unowned c, k.counted.apart b c);
          fresh = λ b le. ground (arith, counts b, k.counted.fresh b);
        };
        shared_aims =
            adds.aims (retarget st.heap.used a target)
              (Aims-retarget st.shared (omega arith) k.shared_aims)
              (λ b e.
                let here : (b == st.heap.used) ≡ true = ground (arith, some-injective _ _ e) in
                rw here refl);
        weak_aims = Aims-retarget st.weak (omega arith) k.weak_aims;
      }
