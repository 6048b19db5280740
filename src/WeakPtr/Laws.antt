-- ===== src/WeakPtr/Laws.antt =====
-- The operations of include/ycetl/weak_ptr.hpp: an observer keeps the block, and gives an owner as
-- long as the object has one.
use ycetl.Base.{
  ℕ, ◌+◌, ◌<◌, ◌≡◌, refl, ◌∙◌, ap, Bool, true, false, List, [], ◌∷◌, ◌++◌, none, some, arith, ◌==◌,
  if◌then◌else◌, Returns, Returns-bind, length, get_elem?, Option-cases, Bool-cases, inl, inr,
}
use ycetl.Size.{size_mod}
use ycetl.SharedPtr.{ControlBlock, Handle, State, null, use_count}
use ycetl.SharedPtr.Counts.{Fits, owners, block-live}
use ycetl.SharedPtr.Owners.{Owns, append-Adds, null-Owns, retain-Owns}
use ycetl.SharedPtr.Laws.{owner-pos}
use ycetl.WeakPtr.{expired, lock}

-- No variable owns the block of the handle, if it has one.
abbrev pub ownerless : Handle → List Handle → Bool
ownerless w xs = elim w.control_block [ none ↦ true | some b ↦ owners xs b == 0 ]

ref_count-Fits : (c : ControlBlock) (s w : ℕ) → Fits (some c) s w → c.ref_count ≡ s
unfolding Fits
ref_count-Fits c s w (refs, weaks, up) = refs

module _ {A : Type 0} (target : ℕ → ℕ) (st : State A) (k : Owns target st)
    (small : length st.shared + length st.weak + 2 < size_mod) where
  -- `expired` says whether a variable owns the block of the observer.
  pub expired-ownerless :
      (i : ℕ) (w : Handle)
      → get_elem? st.weak i ≡ some w
      → expired w st.heap ≡ some (ownerless w st.shared)
  unfolding expired use_count
  expired-ownerless i w at = elim (Option-cases w.control_block) [
    | inl e ↦ rw e refl
    | inr (b, e) ↦
        let pos = owner-pos w st.weak i b at e in
        let (c, there, fit) =
          block-live target st.heap (owners st.shared) (owners st.weak) k.counted b (omega arith) in
        counted b c e there (ref_count-Fits c (owners st.shared b) (owners st.weak b) fit)
  ]
    where
      counted :
          (b : ℕ) (c : ControlBlock)
          → w.control_block ≡ some b
          → st.heap.blocks b ≡ some c
          → c.ref_count ≡ owners st.shared b
          → expired w st.heap ≡ some (ownerless w st.shared)
      counted b c e there refs = rw (e, there, refs) refl

  -- Where the counters count fewer than 2 ^ 64 - 2 variables, `lock` does not fault and touches no
  -- object; the new variable is null exactly if no variable owns the block of the observer, and
  -- else owns it too, and the counters count the variables.
  pub lock-Owns :
      (i : ℕ) (w : Handle)
      → get_elem? st.weak i ≡ some w
      → Returns (lock i st) (λ st'.
        Owns target st'
        × (st'.shared ≡ st.shared ++ (if ownerless w st.shared then null else w) ∷ [])
        × (st'.heap.objects ≡ st.heap.objects))
  unfolding lock
  lock-Owns i w at = elim (Bool-cases (ownerless w st.shared)) [
    | inl gone ↦ Returns-bind _ w _ at (
        Returns-bind (expired w st.heap) true _ (expired-ownerless i w at ∙ ap some gone)
          (_, refl, (null-Owns target st k small, rw gone refl, refl)))
    | inr alive ↦
        let (h, run, (kept, objects)) =
          retain-Owns target st k small w (st.shared ++ w ∷ []) (append-Adds w st.shared)
            (λ b e. (k.weak_aims i b w at e, alive-owned b e alive)) in
        Returns-bind _ w _ at (
          Returns-bind (expired w st.heap) false _ (expired-ownerless i w at ∙ ap some alive)
            (Returns-bind _ h _ run (_, refl, (kept, rw alive refl, objects))))
  ]
    where
      alive-owned :
          (b : ℕ)
          → w.control_block ≡ some b
          → ownerless w st.shared ≡ false
          → 0 < owners st.shared b
      alive-owned b e alive =
          let some_owner : (owners st.shared b == 0) ≡ false = rw e at alive in ground arith
