-- ===== src/LinkedList/Removing.antt =====
-- `pop_back`, `pop_front`, `erase` and `clear` of include/ycetl/list.hpp take nodes out and delete them.
use ycetl.Base.{
  ℕ, ◌+◌, ◌<◌, ◌≡◌, ◌≢◌, refl, ◌∙◌, sym, ap, true, none, some, inl, inr, arith, ◌==◌, Returns,
  Returns-bind, length,
}
use ycetl.Size.{sub_size, size_mod}
use ycetl.Sequence.{remove_range}
use ycetl.LinkedList.{LinkedList, node, unlink, deallocate, remove, with_size}
use ycetl.LinkedList.Cells.{Cells, at, before, Holds, at-some, before-some, before-cases, at-cases}
use ycetl.LinkedList.Unlinked.{IsUnlinked, unlinked-Holds}
use ycetl.LinkedList.Steps.{
  Forwards, Backwards, forward-Forwards, backward-Backwards, store-same, store-other,
}
use ycetl.LinkedList.Inserting.{at-Live, before-Live}

module _ {A : Type 0} (cs : Cells A) (k : ℕ) (l : LinkedList A) (h : Holds cs l)
    (room : k < length cs) (fits : l.size < size_mod) (a : ℕ) (here : at cs k ≡ some a) where
  -- The node and its neighbours are three.
  left_apart : (p : ℕ) → before cs k ≡ some p → p ≢ a
  left_apart p b e =
      let (i, u, k_is, g) = before-some cs k p b in
      let (w, g') = at-some cs k a here in
      absurd (omega (arith, h.distinct i k a u w (rw e at g) g'))

  right_apart : (q : ℕ) → at cs (k + 1) ≡ some q → q ≢ a
  right_apart q b e =
      let (u, g) = at-some cs (k + 1) q b in
      let (w, g') = at-some cs k a here in
      absurd (omega (arith, h.distinct (k + 1) k a u w (rw e at g) g'))

  ends_apart : (p : ℕ) → before cs k ≡ some p → at cs (k + 1) ≢ some p
  ends_apart p b e =
      let (i, u, k_is, g) = before-some cs k p b in
      let (w, g') = at-some cs (k + 1) p e in
      absurd (omega (arith, h.distinct i (k + 1) p u w g g'))

  -- The two writes of `unlink`.
  record Writes (m : LinkedList A) : Type 0 where
    l₁ : LinkedList A
    first : Forwards (before cs k) (at cs (k + 1)) l l₁
    second : Backwards (at cs (k + 1)) (before cs k) l₁ m

  cut : (m : LinkedList A) → LinkedList A
  cut m = with_size (sub_size (deallocate a m).size 1) (deallocate a m)

  removed-IsUnlinked :
      (m : LinkedList A)
      → Writes m
      → IsUnlinked cs k l (with_size (sub_size m.size 1) (deallocate a m))
  unfolding deallocate
  removed-IsUnlinked m w = record {
    room = room;
    gone = λ b e. let same : a ≡ b = cc (here, e) in rw (← same) (store-same a none m.memory);
    left = λ p n b g.
        store-other a p none m.memory (λ e. left_apart p b (sym e))
        ∙ w.second.miss p (ends_apart p b)
        ∙ w.first.hit p n b g;
    right = λ q n b g.
        store-other a q none m.memory (λ e. right_apart q b (sym e))
        ∙ w.second.hit q n b (w.first.miss q (λ c. ends_apart q c b) ∙ g);
    others = λ b ne not_left not_right.
        store-other a b none m.memory (λ e. ne (here ∙ ap some e))
        ∙ w.second.miss b not_right
        ∙ w.first.miss b not_left;
    head = w.second.head ∙ elim (before-cases cs k (omega arith)) [
      | inl (e, b) ↦ let start : (k == 0) ≡ true = ground arith in w.first.on_null b ∙ rw start refl
      | inr (p, inner, b) ↦ w.first.on_node p b ∙ rw inner refl
    ];
    tail = elim (at-cases cs (k + 1) (omega arith)) [
      | inl (e, b) ↦
          let last : (k + 1 == length cs) ≡ true = ground arith in w.second.on_null b ∙ rw last refl
      | inr (q, inner, b) ↦ w.second.on_node q b ∙ w.first.tail ∙ rw inner refl
    ];
    size = omega (arith, w.first.size, w.second.size, h.size);
    used = w.second.used ∙ w.first.used;
  }

  linked : l.memory a ≡ some (node (before cs k) (at cs (k + 1)) (at-some cs k a here).0)
  linked = let (w, g) = at-some cs k a here in h.nodes k a w g

  unlink-Writes : Returns (unlink a l) Writes
  unfolding unlink
  unlink-Writes =
      let (w, g) = at-some cs k a here in
      let n = node (before cs k) (at cs (k + 1)) w in
      let (l₁, run₁, f₁) =
        forward-Forwards (before cs k) (at cs (k + 1)) l (before-Live cs l h k) in
      let same : l₁.memory a ≡ some n = f₁.miss a (λ b. left_apart a b refl) ∙ h.nodes k a w g in
      let (m, run₂, f₂) = backward-Backwards (at cs (k + 1)) (before cs k) l₁ (λ q e.
        let (o, g') = at-Live cs l h (k + 1) q e in (o, f₁.miss q (λ b. ends_apart q b e) ∙ g')) in
      Returns-bind _ n _ (h.nodes k a w g) (
        Returns-bind _ l₁ _ run₁
          (Returns-bind _ n _ same (m, run₂, record { l₁ = l₁; first = f₁; second = f₂ })))

  pub remove-Holds : Returns (remove (at cs k) l) (Holds (remove_range k (k + 1) cs))
  unfolding remove
  remove-Holds =
      let (m, run, w) = unlink-Writes in
      rw here (
        Returns-bind _ m _ run (
          with_size (sub_size m.size 1) (deallocate a m),
          unfold deallocate in refl,
          unlinked-Holds cs k l _ h (removed-IsUnlinked m w),
        ))
