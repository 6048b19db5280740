-- ===== src/LinkedList/Ends.antt =====
-- `erase`, `pop_back` and `pop_front` of include/ycetl/list.hpp, each at its node.
use ycetl.Base.{
  ℕ, ◌+◌, ◌-◌, ◌<◌, ◌≡◌, refl, ◌∙◌, sym, ap, false, some, inl, inr, arith, ◌==◌, ◌>>=◌, Returns,
  Returns-bind, Returns-eq, length,
}
use ycetl.Size.{size_mod}
use ycetl.Sequence.{remove_range}
use ycetl.LinkedList.{LinkedList, pop_back, pop_front, erase, increment, remove}
use ycetl.LinkedList.Cells.{Cells, at, before, Holds, at-some, at-cases, at-remove}
use ycetl.LinkedList.Removing.{remove-Holds}

module _ {A : Type 0} (cs : Cells A) (l : LinkedList A) (h : Holds cs l)
    (fits : l.size < size_mod) where
  remove-at :
      (k : ℕ) → k < length cs → Returns (remove (at cs k) l) (Holds (remove_range k (k + 1) cs))
  remove-at k room = elim (at-cases cs k (omega arith)) [
    | inl (e, b) ↦ absurd (omega arith)
    | inr (a, inner, b) ↦ remove-Holds cs k l h room fits a b
  ]

  increment-at : (k : ℕ) → k < length cs → increment (at cs k) l ≡ some (at cs (k + 1))
  unfolding increment
  increment-at k room = elim (at-cases cs k (omega arith)) [
    | inl (e, b) ↦ absurd (omega arith)
    | inr (a, inner, b) ↦ let (w, g) = at-some cs k a b in rw (b, h.nodes k a w g, ◌>>=◌) refl
  ]

  -- On a list of fewer than 2 ^ 64 nodes that holds `cs`, `erase` of the iterator at node `k` does
  -- not fault; it returns a list that holds `cs` without that node, whose memory is freed, and the
  -- iterator to the node after.
  pub erase-Holds :
      (k : ℕ)
      → k < length cs
      → Returns
          (erase (at cs k) l)
          λ r. Holds (remove_range k (k + 1) cs) r.0 × (r.1 ≡ at (remove_range k (k + 1) cs) k)
  unfolding erase
  erase-Holds k room =
      let (m, run, kept) = remove-at k room in
      Returns-bind _ (at cs (k + 1)) _ (increment-at k room) (
        Returns-bind _ m _ run
          ((m, at cs (k + 1)), refl, (kept, sym (at-remove cs k k room ∙ ground arith))))

  -- On a list that is not empty, `pop_back` and `pop_front` do not fault, and take out the last and
  -- the first value.
  pub pop-Holds :
      0 < length cs
      → Returns (pop_back l) (Holds (remove_range (length cs - 1) (length cs - 1 + 1) cs))
        × Returns (pop_front l) (Holds (remove_range 0 1 cs))
  unfolding pop_back pop_front before
  pop-Holds filled =
      let one : 0 + 1 ≡ 1 = omega arith in
      let last : l.tail ≡ at cs (length cs - 1) =
        h.tail ∙ (let inner : (length cs == 0) ≡ false = ground arith in rw inner refl) in
      (
        Returns-eq _ _ (ap (λ p. remove p l) last) (remove-at (length cs - 1) (omega arith)),
        Returns-eq _ _ (ap (λ p. remove p l) h.head) (rw one at (remove-at 0 filled)),
      )
