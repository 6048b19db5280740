-- ===== src/LinkedList/Middle.antt =====
-- `insert` of include/ycetl/list.hpp adds a value before the iterator.
use ycetl.Base.{
  ℕ, ◌≤◌, ◌≡◌, ◌≢◌, refl, ◌∙◌, sym, ap, true, none, some, inl, inr, arith, ◌==◌, ◌>>=◌, Returns,
  Returns-bind, length,
}
use ycetl.Size.{add_size}
use ycetl.Sequence.{insert_at}
use ycetl.LinkedList.{
  Pointer, LinkedList, node, allocate, link_after, next_of, decrement, insert, with_size,
}
use ycetl.LinkedList.Cells.{
  Cells, at, before, Holds, at-some, before-some, before-cases, at-cases, at-insert_at, unused,
}
use ycetl.LinkedList.Linked.{IsLinked, linked-Holds}
use ycetl.LinkedList.Steps.{Forwards, Backwards, forward-Forwards, backward-Backwards}
use ycetl.LinkedList.Inserting.{
  Live, at-Live, before-Live, apart, allocated, allocated-fresh, Grows,
}

module _ {A : Type 0} (cs : Cells A) (k : ℕ) (v : A) (l : LinkedList A) (h : Holds cs l) where
  -- The nodes on the two sides differ.
  pub sides_apart : (p : ℕ) → before cs k ≡ some p → at cs k ≢ some p
  sides_apart p b a =
      let (i, u, k_is, g) = before-some cs k p b in
      let (w, g') = at-some cs k p a in absurd (omega (arith, h.distinct i k p u w g g'))

  -- The four writes of `link_after`, in their order, on the list with the new node.
  record Writes (m : LinkedList A) : Type 0 where
    l₁ : LinkedList A
    l₂ : LinkedList A
    l₃ : LinkedList A
    first : Backwards (some l.used) (before cs k) (allocate none none v l) l₁
    second : Forwards (some l.used) (at cs k) l₁ l₂
    third : Forwards (before cs k) (some l.used) l₂ l₃
    fourth : Backwards (at cs k) (some l.used) l₃ m

  module _ (room : k ≤ length cs) (fits : Grows l) (m : LinkedList A) (w : Writes m) where
    free : l.memory l.used ≡ none
    free = unused cs l h

    -- Before the last two writes the other nodes are as they were.
    untouched : (a : ℕ) → a ≢ l.used → w.l₂.memory a ≡ l.memory a
    untouched a ne =
        w.second.miss a (λ e. ne (sym (cc e)))
        ∙ w.first.miss a (λ e. ne (sym (cc e)))
        ∙ allocated none none v l a ne

    old : (p : Pointer) → Live l p → (a : ℕ) → p ≡ some a → a ≢ l.used
    old p live a e here = apart l p free live (e ∙ ap some here)

    written-IsLinked : IsLinked cs k v l (with_size (add_size m.size 1) m)
    unfolding allocate
    written-IsLinked = record {
      room = room;
      fresh =
          w.fourth.miss l.used (apart l (at cs k) free (at-Live cs l h k))
          ∙ w.third.miss l.used (apart l (before cs k) free (before-Live cs l h k))
          ∙ w.second.hit l.used (node (before cs k) none v) refl
              (w.first.hit l.used (node none none v) refl (allocated-fresh none none v l));
      left = λ p n b g.
          w.fourth.miss p (sides_apart p b)
          ∙ w.third.hit p n b (untouched p (old (before cs k) (before-Live cs l h k) p b) ∙ g);
      right = λ q n a g. w.fourth.hit q n a (
          w.third.miss q (λ b. sides_apart q b a)
          ∙ untouched q (old (at cs k) (at-Live cs l h k) q a)
          ∙ g);
      others = λ a ne not_left not_right.
          w.fourth.miss a not_right ∙ w.third.miss a not_left ∙ untouched a ne;
      head = w.fourth.head ∙ elim (before-cases cs k room) [
        | inl (e, b) ↦ let here : (k == 0) ≡ true = ground arith in w.third.on_null b ∙ rw here refl
        | inr (a, here, b) ↦
            w.third.on_node a b ∙ w.second.on_node l.used refl ∙ w.first.head ∙ rw here refl
      ];
      tail = elim (at-cases cs k room) [
        | inl (e, b) ↦
            let here : (k == length cs) ≡ true = ground arith in w.fourth.on_null b ∙ rw here refl
        | inr (a, here, b) ↦
            w.fourth.on_node a b
            ∙ w.third.tail
            ∙ w.second.tail
            ∙ w.first.on_node l.used refl
            ∙ rw here refl
      ];
      size = omega (arith, w.first.size, w.second.size, w.third.size, w.fourth.size);
      used = w.fourth.used ∙ w.third.used ∙ w.second.used ∙ w.first.used;
    }

  -- What the iterator at node `k`, or at the end, steps back to.
  pub decrement-before : k ≤ length cs → decrement (at cs k) l ≡ some (before cs k)
  unfolding decrement
  decrement-before room = elim (at-cases cs k room) [
    | inl (e, b) ↦ rw (b, h.tail, e) refl
    | inr (a, here, b) ↦ let (w, g) = at-some cs k a b in rw (b, h.nodes k a w g, ◌>>=◌) refl
  ]

  next_of-at : k ≤ length cs → next_of (before cs k) (allocate none none v l) ≡ some (at cs k)
  unfolding next_of
  next_of-at room = elim (before-cases cs k room) [
    | inl (e, b) ↦ rw b (ap some (unfold allocate in h.head ∙ ap (at cs) (sym e)))
    | inr (a, here, b) ↦
        let (i, w, k_is, g) = before-some cs k a b in
        let fresh_apart : a ≢ l.used =
          λ here. apart l (before cs k) (unused cs l h) (before-Live cs l h k) (b ∙ ap some here) in
        rw (b, allocated none none v l a fresh_apart, h.nodes i a w g, ◌>>=◌, k_is) refl
  ]

  link_after-Writes :
      k ≤ length cs → Returns (link_after (before cs k) l.used (allocate none none v l)) Writes
  unfolding link_after
  link_after-Writes room =
      let (l₁, run₁, f₁) =
        backward-Backwards (some l.used) (before cs k) (allocate none none v l)
          (λ a e. (node none none v, rw (← fresh_is a e) (allocated-fresh none none v l))) in
      let (l₂, run₂, f₂) = forward-Forwards (some l.used) (at cs k) l₁ (λ a e. (
        node (before cs k) none v,
        f₁.hit a (node none none v) e (rw (← fresh_is a e) (allocated-fresh none none v l)),
      )) in
      let same = λ (a : ℕ) (ne : a ≢ l.used).
        f₂.miss a (λ e. ne (sym (cc e)))
        ∙ f₁.miss a (λ e. ne (sym (cc e)))
        ∙ allocated none none v l a ne in
      let (l₃, run₃, f₃) = forward-Forwards (before cs k) (some l.used) l₂ (λ a e.
        let (n, g) = before-Live cs l h k a e in
        (n, same a (distinct_from (before cs k) (before-Live cs l h k) a e) ∙ g)) in
      let (m, run₄, f₄) = backward-Backwards (at cs k) (some l.used) l₃ (λ a e.
        let (n, g) = at-Live cs l h k a e in
        (
          n,
          f₃.miss a (λ b. sides_apart a b e)
              ∙ same a (distinct_from (at cs k) (at-Live cs l h k) a e)
              ∙ g,
        )) in
      Returns-bind _ (at cs k) _ (next_of-at room) (
        Returns-bind _ l₁ _ run₁ (
          Returns-bind _ l₂ _ run₂ (
            Returns-bind _ l₃ _ run₃ (
              m,
              run₄,
              record {
                l₁ = l₁;
                l₂ = l₂;
                l₃ = l₃;
                first = f₁;
                second = f₂;
                third = f₃;
                fourth = f₄;
              },
            ))))
    where
      fresh_is : (a : ℕ) → ◌≡◌ {A = Pointer} (some l.used) (some a) → l.used ≡ a
      fresh_is a e = cc e

      distinct_from : (p : Pointer) → Live l p → (a : ℕ) → p ≡ some a → a ≢ l.used
      distinct_from p live a e here = apart l p (unused cs l h) live (e ∙ ap some here)

  -- On a list of fewer than 2 ^ 64 - 1 nodes that holds `cs`, `insert` before the iterator at node
  -- `k`, or at the end, does not fault; it returns a list that holds `cs` with the new node before
  -- that index, linked both ways, and the iterator to that node.
  pub insert-Holds :
      k ≤ length cs
      → Grows l
      → Returns
          (insert (at cs k) v l)
          λ r. Holds (insert_at k (l.used, v) cs) r.0 × (at (insert_at k (l.used, v) cs) k ≡ r.1)
  unfolding insert
  insert-Holds room fits =
      let (m, run, w) = link_after-Writes room in
      Returns-bind _ (before cs k) _ (decrement-before room) (
        Returns-bind _ m _ run (
          (with_size (add_size m.size 1) m, some l.used),
          refl,
          (
            linked-Holds cs k v l _ h (written-IsLinked room fits m w),
            at-insert_at cs k l.used v k room ∙ ground arith,
          ),
        ))
