-- ===== src/LinkedList/Copying.antt =====
-- `clear_nodes` and the copies of include/ycetl/list.hpp.
use ycetl.Base.{
  ℕ, zero, suc, ◌+◌, ◌-◌, ◌≤◌, ◌<◌, ◌≡◌, ◌≢◌, refl, ◌∙◌, sym, ap, List, [], ◌∷◌, ◌++◌, map, none,
  some, inl, inr, arith, ◌>>=◌, Returns, Returns-bind, Returns-map, Returns-eq, length, drop,
  get_elem?, lt_of_get_elem?, Option-cases,
}
use mathlib.Core.List.{append-nil, append_assoc}
use native.Mathlib.Decide.{ℕ_discrete}
use ycetl.Size.{size_mod}
use ycetl.Sequence.{insert_at, length-insert_at}
use ycetl.LinkedList.{
  LinkedList, node, empty, deallocate, clear_loop, clear_nodes, copy_loop, copy, copy_assign,
  increment, value_at,
}
use ycetl.LinkedList.Cells.{Cells, same_cell, at, before, Holds, at-some, at-cases}
use ycetl.LinkedList.Steps.{store-same, store-other}
use ycetl.LinkedList.Inserting.{emplace-Holds}

module _ {A : Type 0} where
  -- The nodes from `i` on are as in the list, and no other is left.
  record Left (cs : Cells A) (l : LinkedList A) (i : ℕ) (m : LinkedList A) : Type 0 where
    same : (j a : ℕ) (v : A) → i ≤ j → get_elem? cs j ≡ some (a, v) → m.memory a ≡ l.memory a
    owned :
        (a : ℕ) → m.memory a ≢ none → (j : ℕ) × (v : A) × (i ≤ j) × (get_elem? cs j ≡ some (a, v))

  deleted :
      (cs : Cells A) (l m : LinkedList A) (i a : ℕ)
      → Holds cs l
      → at cs i ≡ some a
      → Left cs l i m
      → Left cs l (i + 1) (deallocate a m)
  unfolding deallocate
  deleted cs l m i a h here s =
      let (v, g) = at-some cs i a here in
      record {
        same = λ j b w le g'.
            store-other a b none m.memory
              (λ e. absurd (omega (arith, h.distinct i j a v w g (rw e g'))))
            ∙ s.same j b w (omega arith) g';
        owned = λ b live. elim (ℕ_discrete a b) [
          | yes e ↦ absurd (live (rw (← e) (store-same a none m.memory)))
          | no ne ↦
              let (j, w, le, g') = s.owned b (λ e. live (store-other a b none m.memory ne ∙ e)) in
              let past : i ≢ j = λ e. ne (same_cell a b v w (sym g ∙ rw e g')).0 in
              (j, w, omega arith, g')
        ];
      }

  nothing-Left :
      (cs : Cells A) (l m : LinkedList A) → Left cs l (length cs) m → (a : ℕ) → m.memory a ≡ none
  nothing-Left cs l m s a = elim (Option-cases (m.memory a)) [
    | inl is ↦ is
    | inr (n, is) ↦
        let (j, v, le, g) = s.owned a (λ gone. cc (is, gone)) in
        absurd (omega (arith, lt_of_get_elem? cs j g))
  ]

  clear_loop-deleted :
      (cs : Cells A) (l : LinkedList A)
      → Holds cs l
      → (fuel i : ℕ) (m : LinkedList A) → length cs ≤ i + fuel
      → i ≤ length cs
      → Left cs l i m
      → Returns (clear_loop fuel (at cs i) m) λ r. (a : ℕ) → r.memory a ≡ none
  unfolding clear_loop
  clear_loop-deleted cs l h zero i m fits room s = elim (at-cases cs i room) [
    | inl (e, b) ↦ rw b (m, refl, nothing-Left cs l m (rw e at s))
    | inr (a, inner, b) ↦ absurd (ground arith)
  ]
  clear_loop-deleted cs l h (suc fuel) i m fits room s = elim (at-cases cs i room) [
    | inl (e, b) ↦ rw b (m, refl, nothing-Left cs l m (rw e at s))
    | inr (a, inner, b) ↦
        let (v, g) = at-some cs i a b in
        rw b (
          Returns-bind _ (node (before cs i) (at cs (i + 1)) v) _
            (s.same i a v (omega arith) g ∙ h.nodes i a v g)
            (clear_loop-deleted cs l h fuel (i + 1) (deallocate a m) (omega arith) (ground arith)
              (deleted cs l m i a h b s)))
  ]

  pub empty-Holds :
      (l : LinkedList A)
      → ((a : ℕ) → l.memory a ≡ none)
      → l.head ≡ none
      → l.tail ≡ none
      → l.size ≡ 0
      → Holds [] l
  unfolding at before
  empty-Holds l all head tail size = record {
    nodes = λ i a v e. absurd (cc e);
    head = head;
    tail = tail;
    size = size;
    distinct = λ i j a v w e. absurd (cc e);
    owned = λ a live. absurd (live (all a));
    below = λ i a v e. absurd (cc e);
  }

  -- On a list that holds `cs`, `clear` ends within as many rounds as the size says and does not
  -- fault; it frees every node and leaves the empty list.
  pub clear_nodes-Holds :
      (cs : Cells A) (l : LinkedList A) → Holds cs l → Returns (clear_nodes l) (Holds [])
  unfolding clear_nodes
  clear_nodes-Holds cs l h =
      let (m, run, all) =
        clear_loop-deleted cs l h l.size 0 l (omega (arith, h.size)) (omega arith) (record {
          same = λ j a v le e. refl;
          owned = λ a live. let (j, v, g) = h.owned a live in (j, v, omega arith, g);
        }) in
      Returns-bind _ m _ (ap (λ p. clear_loop l.size p l) h.head ∙ run)
        (_, refl, empty-Holds _ all refl refl refl)

  -- The values of a list, without their addresses.
  abbrev pub values : Cells A → List A
  values cs = map (λ c. c.1) cs

  pub values-back :
      (cs : Cells A) (a : ℕ) (v : A)
      → values (insert_at (length cs) (a, v) cs) ≡ values cs ++ v ∷ []
  unfolding insert_at
  values-back [] a v = refl
  values-back (c ∷ cs) a v = ap (λ vs. c.1 ∷ vs) (values-back cs a v)

  values-drop :
      (cs : Cells A) (i a : ℕ) (v : A)
      → get_elem? cs i ≡ some (a, v)
      → values (drop i cs) ≡ v ∷ values (drop (i + 1) cs)
  values-drop [] i a v g = absurd (cc g)
  values-drop (c ∷ cs) zero a v g = (ap (λ w. w ∷ values cs) (same_cell c.0 a c.1 v (g)).1)
  values-drop (c ∷ cs) (suc i) a v g =
      let next : suc i + 1 ≡ suc (i + 1) = omega arith in rw next (values-drop cs i a v g)

  drop-length : (cs : Cells A) → drop (length cs) cs ≡ []
  drop-length [] = refl
  drop-length (c ∷ cs) = drop-length cs

  -- No value is left to copy.
  copied_all :
      (cs ds : Cells A) (i : ℕ) → i ≡ length cs → values ds ≡ values ds ++ values (drop i cs)
  copied_all cs ds i e = rw (e, drop-length cs) (sym (append-nil (values ds)))

  -- The loop of the copies appends the values from node `i` on.
  copy_loop-values :
      (cs : Cells A) (o : LinkedList A)
      → Holds cs o
      → (fuel i : ℕ) (ds : Cells A) (l : LinkedList A) → length cs ≤ i + fuel
      → i ≤ length cs
      → Holds ds l
      → length ds + (length cs - i) < size_mod
      → Returns
          (copy_loop fuel (at cs i) o l)
          λ m. (es : Cells A) × Holds es m × (values es ≡ values ds ++ values (drop i cs))
  unfolding copy_loop
  copy_loop-values cs o h zero i ds l fits room d small = elim (at-cases cs i room) [
    | inl (e, b) ↦ rw b (l, refl, (ds, d, copied_all cs ds i e))
    | inr (a, inner, b) ↦ absurd (ground arith)
  ]
  copy_loop-values cs o h (suc fuel) i ds l fits room d small = elim (at-cases cs i room) [
    | inl (e, b) ↦ rw b (l, refl, (ds, d, copied_all cs ds i e))
    | inr (a, inner, b) ↦
        let (v, g) = at-some cs i a b in
        let inside : i < length cs = ground arith in
        let long = length-insert_at (length ds) (l.used, v) ds (omega arith) in
        let (m, run, d') = (emplace-Holds ds v l d (omega (arith, d.size))).0 in
        rw b (
          Returns-bind (value_at (some a) o) v _ (rw (h.nodes i a v g, ◌>>=◌) refl) (
            Returns-bind _ m _ run (
              Returns-bind (increment (some a) o) (at cs (i + 1)) _
                (rw (h.nodes i a v g, ◌>>=◌) refl)
                (Returns-map _
                  (λ r (es, k, same). (
                    es,
                    k,
                    same
                        ∙ ap (λ vs. vs ++ values (drop (i + 1) cs)) (values-back ds l.used v)
                        ∙ append_assoc (values ds) (v ∷ []) (values (drop (i + 1) cs))
                        ∙ ap (λ vs. values ds ++ vs) (sym (values-drop cs i a v g)),
                  ))
                  (copy_loop-values cs o h fuel (i + 1) (insert_at (length ds) (l.used, v) ds) m
                    (omega arith) (omega arith) d' (omega arith))))))
  ]

  -- From a list of fewer than 2 ^ 64 nodes that holds `cs`, the copy constructor, and the copy
  -- assignment to another list, end and do not fault; each leaves a list of nodes of its own with
  -- the values of `cs`, in order.
  pub copy-values :
      (cs ds : Cells A) (o l : LinkedList A)
      → Holds cs o
      → Holds ds l
      → length cs < size_mod
      → Returns (copy o) (λ m. (es : Cells A) × Holds es m × (values es ≡ values cs))
        × Returns (copy_assign o l) (λ m. (es : Cells A) × Holds es m × (values es ≡ values cs))
  unfolding copy copy_assign
  copy-values cs ds o l h d small =
      let (m, run, cleared) = clear_nodes-Holds ds l d in
      let fresh = empty-Holds empty (λ a. refl) refl refl refl in
      let all = λ (p : LinkedList A) (e : Holds [] p).
        copy_loop-values cs o h o.size 0 [] p (omega (arith, h.size)) (omega arith) e
          (omega arith) in
      (
        Returns-eq _ _ (ap (λ p. copy_loop o.size p o empty) h.head) (all empty fresh),
        Returns-bind _ m _ run
            (Returns-eq _ _ (ap (λ p. copy_loop o.size p o m) h.head) (all m cleared)),
      )
