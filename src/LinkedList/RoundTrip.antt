-- ===== src/LinkedList/RoundTrip.antt =====
-- `insert` and `erase` of include/ycetl/list.hpp, one after the other.
use ycetl.Base.{
  ℕ, zero, suc, ◌+◌, ◌≤◌, ◌<◌, ◌≡◌, refl, ◌∙◌, ap, sym, List, [], ◌∷◌, arith, ◌>>=◌, Returns,
  Returns-map, Returns-eq, Returns-bind, length,
}
use ycetl.Sequence.{insert_at, remove_range, length-insert_at}
use ycetl.Size.{size_mod}
use ycetl.LinkedList.{LinkedList, insert, erase}
use ycetl.LinkedList.Cells.{Cells, at, Holds}
use ycetl.LinkedList.Middle.{insert-Holds}
use ycetl.LinkedList.Inserting.{Grows}
use ycetl.LinkedList.Ends.{erase-Holds}

remove-insert :
    {A : Type 0}
    → (k : ℕ) (v : A) (xs : List A) → k ≤ length xs
    → remove_range k (k + 1) (insert_at k v xs) ≡ xs
unfolding remove_range insert_at
remove-insert zero v [] le = refl
remove-insert zero v (x ∷ xs) le = refl
remove-insert (suc k) v [] le = absurd (omega arith)
remove-insert (suc k) v (x ∷ xs) le =
    let next : suc k + 1 ≡ suc (k + 1) = omega arith in
    rw next (ap (λ ys. x ∷ ys) (remove-insert k v xs (omega arith)))

module _ {A : Type 0} where
  -- On a list of fewer than 2 ^ 64 - 1 nodes that holds `cs`, `insert` before the iterator at node
  -- `k`, or at the end, and then `erase` of the iterator that it returned do not fault; the list
  -- holds `cs` again, the same nodes with the same values, and the iterator returned is again the
  -- one at node `k`.
  pub erase-insert :
      (cs : Cells A) (k : ℕ) (v : A) (l : LinkedList A)
      → Holds cs l
      → k ≤ length cs
      → Grows l
      → Returns
          (insert (at cs k) v l >>= (λ r. erase r.1 r.0))
          (λ r. Holds cs r.0 × (r.1 ≡ at cs k))
  erase-insert cs k v l h room fits =
      let (r, run, (h', here)) = insert-Holds cs k v l h room fits in
      let more = length-insert_at k (l.used, v) cs room in
      let back = remove-insert k (l.used, v) cs room in
      let small : r.0.size < size_mod = omega (arith, h'.size, h.size) in
      Returns-bind _ r _ run (
        Returns-eq _ _ (ap (λ p. erase p r.0) (sym here)) (
          Returns-map _ (λ s (k', e). (rw back at k', e ∙ ap (λ ds. at ds k) back))
            (erase-Holds (insert_at k (l.used, v) cs) r.0 h' small k (omega arith))))
