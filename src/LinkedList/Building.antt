-- ===== src/LinkedList/Building.antt =====
-- The constructor of include/ycetl/list.hpp from an initializer list, and the assignment that moves.
use ycetl.Base.{
  ◌+◌, ◌<◌, ◌≡◌, refl, ◌∙◌, ap, sym, List, [], ◌∷◌, ◌++◌, arith, Returns, Returns-map, Returns-bind,
  length,
}
use mathlib.Core.List.{append-nil, append_assoc}
use ycetl.Sequence.{insert_at, length-insert_at}
use ycetl.Size.{size_mod}
use ycetl.LinkedList.{LinkedList, empty, clear_nodes, push_all, from_list, move_assign}
use ycetl.LinkedList.Cells.{Cells, Holds}
use ycetl.LinkedList.Copying.{values, values-back, clear_nodes-Holds, empty-Holds}
use ycetl.LinkedList.Inserting.{emplace-Holds}

module _ {A : Type 0} where
  push_all-values :
      (il : List A) (ds : Cells A) (l : LinkedList A)
      → Holds ds l
      → length ds + length il < size_mod
      → Returns (push_all il l) (λ m. (es : Cells A) × Holds es m × (values es ≡ values ds ++ il))
  unfolding push_all
  push_all-values [] ds l d small = (l, refl, (ds, d, sym (append-nil (values ds))))
  push_all-values (v ∷ il) ds l d small =
      let long = length-insert_at (length ds) (l.used, v) ds (omega arith) in
      let (m, run, d') = (emplace-Holds ds v l d (omega (arith, d.size))).0 in
      Returns-bind _ m _ run (
        Returns-map (push_all il m)
          (λ r (es, k, same). (
            es,
            k,
            same
                ∙ ap (λ vs. vs ++ il) (values-back ds l.used v)
                ∙ append_assoc (values ds) (v ∷ []) il,
          ))
          (push_all-values il (insert_at (length ds) (l.used, v) ds) m d' (omega arith)))

  -- The constructor returns a list with the values, in order.
  pub from_list-values :
      (il : List A)
      → length il < size_mod
      → Returns (from_list il) (λ m. (es : Cells A) × Holds es m × (values es ≡ il))
  unfolding from_list
  from_list-values il small =
      push_all-values il [] empty (empty-Holds empty (λ a. refl) refl refl refl) (omega arith)

  -- The nodes of the list that is assigned to are freed; it holds those of the other, which is empty
  -- then.
  pub move_assign-Holds :
      (cs ds : Cells A) (o l : LinkedList A)
      → Holds cs o
      → Holds ds l
      → Returns (clear_nodes l) (Holds [])
        × Returns (move_assign o l) (λ r. Holds cs r.0 × Holds [] r.1)
  unfolding move_assign
  move_assign-Holds cs ds o l h d =
      let (m, run, cleared) = clear_nodes-Holds ds l d in
      (
        (m, run, cleared),
        Returns-bind (clear_nodes l) m _ run
            ((o, empty), refl, (h, empty-Holds empty (λ a. refl) refl refl refl)),
      )
