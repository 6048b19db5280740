-- ===== src/LinkedList/Inserting.antt =====
-- `emplace_back`, `emplace_front` and `insert` of include/ycetl/list.hpp add one value at its place.
use ycetl.Base.{
  ℕ, ◌+◌, ◌<◌, ◌≡◌, ◌≢◌, refl, ◌∙◌, sym, true, Option, none, some, inl, inr, arith, ◌==◌, ◌>>=◌,
  Returns, length, get_elem?-none,
}
use ycetl.Size.{add_size, size_mod}
use ycetl.Sequence.{insert_at}
use ycetl.LinkedList.{
  Pointer, LinkedList, Node, node, allocate, emplace_back, emplace_front, with_size, with_head,
  with_tail,
}
use ycetl.LinkedList.Cells.{
  Cells, at, before, Holds, at-some, before-some, before-cases, at-cases, unused,
}
use ycetl.LinkedList.Linked.{IsLinked, linked-Holds}
use ycetl.LinkedList.Steps.{
  store-same, store-other, Forwards, Backwards, forward-Forwards, backward-Backwards,
}

module _ {A : Type 0} where
  -- A pointer is to a node of the list, or null.
  abbrev pub Live : LinkedList A → Pointer → Type 0
  Live l p = (a : ℕ) → p ≡ some a → (n : Node A) × (l.memory a ≡ some n)

  pub at-Live : (cs : Cells A) (l : LinkedList A) → Holds cs l → (i : ℕ) → Live l (at cs i)
  at-Live cs l h i a e =
      let (v, g) = at-some cs i a e in (node (before cs i) (at cs (i + 1)) v, h.nodes i a v g)

  pub before-Live : (cs : Cells A) (l : LinkedList A) → Holds cs l → (i : ℕ) → Live l (before cs i)
  before-Live cs l h i a e =
      let (j, v, _, g) = before-some cs i a e in
      (node (before cs j) (at cs (j + 1)) v, h.nodes j a v g)

  pub at-past : (cs : Cells A) → at cs (length cs) ≡ none
  unfolding at
  at-past cs = rw (get_elem?-none cs (length cs) (omega arith)) refl

  -- The new node is none of those that were there.
  pub apart : (l : LinkedList A) (p : Pointer) → l.memory l.used ≡ none → Live l p → p ≢ some l.used
  apart l p free live e = let (n, g) = live l.used e in cc

  -- After `new` the other nodes are as they were.
  pub allocated :
      (p n : Pointer) (v : A) (l : LinkedList A) (b : ℕ)
      → b ≢ l.used
      → (allocate p n v l).memory b ≡ l.memory b
  unfolding allocate
  allocated p n v l b ne = store-other l.used b (some (node p n v)) l.memory (λ e. ne (sym e))

  pub allocated-fresh :
      (p n : Pointer) (v : A) (l : LinkedList A)
      → (allocate p n v l).memory l.used ≡ some (node p n v)
  unfolding allocate
  allocated-fresh p n v l = store-same l.used (some (node p n v)) l.memory

  allocated-Live :
      (p n : Pointer) (v : A) (l : LinkedList A) (q : Pointer)
      → l.memory l.used ≡ none
      → Live l q
      → Live (allocate p n v l) q
  allocated-Live p n v l q free live a e =
      let (o, g) = live a e in
      (o, allocated p n v l a (λ here. apart l q free live (rw (← here) e)) ∙ g)

  -- The size counts up while it fits a `std::size_t`.
  abbrev pub Grows : LinkedList A → Type 0
  Grows l = l.size + 1 < size_mod

  bind_eq :
      {B : Type 0} (o : Option (LinkedList A)) (m : LinkedList A) (f : LinkedList A → B)
      → o ≡ some m
      → (o >>= (λ x. some (f x))) ≡ some (f m)
  bind_eq o m f e = rw (e, ◌>>=◌) refl

  IsLinked-back :
      (cs : Cells A) (v : A) (l m : LinkedList A)
      → Holds cs l
      → Grows l
      → Forwards l.tail (some l.used) (allocate l.tail none v l) m
      → IsLinked cs (length cs) v l (with_size (add_size m.size 1) (with_tail (some l.used) m))
  unfolding allocate
  IsLinked-back cs v l m h fits f =
      let free = unused cs l h in
      let tail_live : Live l l.tail = rw h.tail (before-Live cs l h (length cs)) in
      record {
        room = omega arith;
        fresh =
            f.miss l.used (apart l l.tail free tail_live)
            ∙ allocated-fresh l.tail none v l
            ∙ rw (at-past cs, h.tail) refl;
        left = λ p n e g. f.hit p n (h.tail ∙ e) (
            allocated l.tail none v l p
              (λ here. apart l l.tail free tail_live (h.tail ∙ rw (← here) e))
            ∙ g);
        right = λ q n e. absurd (cc (at-past cs, e));
        others = λ a ne not_left not_right.
            f.miss a (λ e. not_left (sym h.tail ∙ e)) ∙ allocated l.tail none v l a ne;
        head = elim (before-cases cs (length cs) (omega arith)) [
          | inl (e, b) ↦
              let here : (length cs == 0) ≡ true = ground arith in
              f.on_null (h.tail ∙ b) ∙ rw here refl
          | inr (a, here, b) ↦ f.on_node a (h.tail ∙ b) ∙ rw here refl
        ];
        tail = let here : (length cs == length cs) ≡ true = ground arith in rw here refl;
        size = omega (arith, f.size);
        used = f.used;
      }

  IsLinked-front :
      (cs : Cells A) (v : A) (l m : LinkedList A)
      → Holds cs l
      → Grows l
      → Backwards l.head (some l.used) (allocate none l.head v l) m
      → IsLinked cs 0 v l (with_size (add_size m.size 1) (with_head (some l.used) m))
  unfolding allocate
  IsLinked-front cs v l m h fits f =
      let free = unused cs l h in
      let head_live : Live l l.head = rw h.head (at-Live cs l h 0) in
      let null : before cs 0 ≡ none = unfold before in refl in
      record {
        room = omega arith;
        fresh =
            f.miss l.used (apart l l.head free head_live)
            ∙ allocated-fresh none l.head v l
            ∙ rw (null, h.head) refl;
        left = λ p n e. absurd (cc (null, e));
        right = λ q n e g. f.hit q n (h.head ∙ e) (
            allocated none l.head v l q
              (λ here. apart l l.head free head_live (h.head ∙ rw (← here) e))
            ∙ g);
        others = λ a ne not_left not_right.
            f.miss a (λ e. not_right (sym h.head ∙ e)) ∙ allocated none l.head v l a ne;
        head = refl;
        tail = elim (at-cases cs 0 (omega arith)) [
          | inl (e, b) ↦
              let here : (0 == length cs) ≡ true = ground arith in
              f.on_null (h.head ∙ b) ∙ rw here refl
          | inr (a, here, b) ↦ f.on_node a (h.head ∙ b) ∙ rw here refl
        ];
        size = omega (arith, f.size);
        used = f.used;
      }

  -- On a list of fewer than 2 ^ 64 - 1 nodes that holds `cs`, `emplace_back` and `emplace_front` do
  -- not fault, and return lists that hold `cs` with the new node at the end and at the front.
  pub emplace-Holds :
      (cs : Cells A) (v : A) (l : LinkedList A)
      → Holds cs l
      → Grows l
      → Returns (emplace_back v l) (Holds (insert_at (length cs) (l.used, v) cs))
        × Returns (emplace_front v l) (Holds (insert_at 0 (l.used, v) cs))
  unfolding emplace_back emplace_front
  emplace-Holds cs v l h fits =
      let free = unused cs l h in
      let tail_live : Live l l.tail = rw h.tail (before-Live cs l h (length cs)) in
      let head_live : Live l l.head = rw h.head (at-Live cs l h 0) in
      let (m, run, f) =
        forward-Forwards l.tail (some l.used) (allocate l.tail none v l)
          (allocated-Live l.tail none v l l.tail free tail_live) in
      let (m', run', f') =
        backward-Backwards l.head (some l.used) (allocate none l.head v l)
          (allocated-Live none l.head v l l.head free head_live) in
      (
        (
          with_size (add_size m.size 1) (with_tail (some l.used) m),
          bind_eq _ m _ run,
          linked-Holds cs (length cs) v l _ h (IsLinked-back cs v l m h fits f),
        ),
        (
          with_size (add_size m'.size 1) (with_head (some l.used) m'),
          bind_eq _ m' _ run',
          linked-Holds cs 0 v l _ h (IsLinked-front cs v l m' h fits f'),
        ),
      )
