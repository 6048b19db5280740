-- ===== src/LinkedList/Linked.antt =====
-- A node linked in at its place, between the node before and the node after, makes the list hold one
-- element more.
use ycetl.Base.{
  ℕ, ◌+◌, ◌-◌, ◌≤◌, ◌≡◌, ◌≢◌, ◌∙◌, sym, true, false, none, some, arith, ◌==◌, if◌then◌else◌, length,
  get_elem?,
}
use native.Mathlib.Decide.{dec_lt, ℕ_discrete}
use ycetl.Sequence.{insert_at, get_elem?-insert_at, length-insert_at}
use ycetl.LinkedList.{LinkedList, Node, node}
use ycetl.LinkedList.Cells.{
  Cells, same_cell, same_node, at, before, Holds, at-some, at-get, at-insert_at, before-insert_at,
  before-get, before-some,
}

module _ {A : Type 0} where
  -- The new node lies at the next address; the node before points on to it, the node after points
  -- back to it, and so do the head and the tail at the ends.
  pub record IsLinked (cs : Cells A) (k : ℕ) (v : A) (l m : LinkedList A) : Type 0 where
    pub room : k ≤ length cs
    pub fresh : m.memory l.used ≡ some (node (before cs k) (at cs k) v)
    pub left :
        (p : ℕ) (n : Node A)
        → before cs k ≡ some p
        → l.memory p ≡ some n
        → m.memory p ≡ some (node n.prev (some l.used) n.value)
    pub right :
        (q : ℕ) (n : Node A)
        → at cs k ≡ some q
        → l.memory q ≡ some n
        → m.memory q ≡ some (node (some l.used) n.next n.value)
    pub others :
        (a : ℕ) → a ≢ l.used → before cs k ≢ some a → at cs k ≢ some a → m.memory a ≡ l.memory a
    pub head : m.head ≡ (if k == 0 then some l.used else l.head)
    pub tail : m.tail ≡ (if k == length cs then some l.used else l.tail)
    pub size : m.size ≡ l.size + 1
    pub used : m.used ≡ l.used + 1

  module _ (cs : Cells A) (k : ℕ) (v : A) (l m : LinkedList A) (h : Holds cs l)
      (s : IsLinked cs k v l m) where
    -- A node with the same links but those around the new one.
    moved :
        (i a : ℕ) (u : A)
        → get_elem? cs i ≡ some (a, u)
        → m.memory a
          ≡ some (
              node
                (if i == k then some l.used else before cs i)
                (if i + 1 == k then some l.used else at cs (i + 1))
                u)
    moved i a u g = elim (ℕ_discrete (i + 1) k) [
      | yes e ↦
          let here : (i == k) ≡ false = ground arith in
          let next : (i + 1 == k) ≡ true = ground arith in
          rw (here, next)
            (s.left a (node (before cs i) (at cs (i + 1)) u) (rw (← e) (before-get cs i a u g))
              (h.nodes i a u g))
      | no ne ↦ elim (ℕ_discrete i k) [
        | yes e ↦
            let here : (i == k) ≡ true = ground arith in
            let next : (i + 1 == k) ≡ false = ground arith in
            rw (here, next)
              (s.right a (node (before cs i) (at cs (i + 1)) u) (rw (← e) (at-get cs i a u g))
                (h.nodes i a u g))
        | no ne' ↦
            let here : (i == k) ≡ false = ground arith in
            let next : (i + 1 == k) ≡ false = ground arith in
            rw (here, next)
              (s.others a (λ e. omega (arith, h.below i a u g))
                  (λ e.
                    let (j, w, k_is, g') = before-some cs k a e in
                    ne (omega (arith, h.distinct i j a u w g g')))
                  (λ e. let (w, g') = at-some cs k a e in ne' (h.distinct i k a u w g g'))
                ∙ h.nodes i a u g)
      ]
    ]

    -- Node `j` of the longer list.
    relinked :
        (j a : ℕ) (u : A)
        → get_elem? (insert_at k (l.used, v) cs) j ≡ some (a, u)
        → m.memory a
          ≡ some (
              node
                (before (insert_at k (l.used, v) cs) j)
                (at (insert_at k (l.used, v) cs) (j + 1))
                u)
    relinked j a u g =
        let read = sym (get_elem?-insert_at k (l.used, v) cs j s.room) ∙ g in
        let to_before = before-insert_at cs k l.used v j s.room in
        let to_next = at-insert_at cs k l.used v (j + 1) s.room in
        elim (dec_lt j k) [
          | yes lt ↦
              let e : get_elem? cs j ≡ some (a, u) = ground arith in
              moved j a u e ∙ same_node u (ground arith) (ground arith)
          | no ge ↦ elim (ℕ_discrete j k) [
            | yes e ↦
                let (where_is, what_is) = same_cell l.used a v u (ground arith) in
                let back : j + 1 - 1 ≡ k = omega arith in
                rw (← where_is, ← what_is) (s.fresh ∙ same_node v (ground arith) (ground arith))
            | no ne ↦
                let shifted : get_elem? cs (j - 1) ≡ some (a, u) = ground arith in
                let back : j - 1 + 1 ≡ j = omega arith in
                let there : j + 1 - 1 ≡ j = omega arith in
                moved (j - 1) a u shifted ∙ same_node u (ground arith) (ground arith)
          ]
        ]

    -- The list holds the new value at its place.
    pub linked-Holds : Holds (insert_at k (l.used, v) cs) m
    linked-Holds = record {
      nodes = relinked;
      head = s.head ∙ ground (arith, h.head, at-insert_at cs k l.used v 0 s.room);
      tail =
          s.tail
          ∙ ground (
            arith,
            h.tail,
            s.room,
            length-insert_at k (l.used, v) cs s.room,
            before-insert_at cs k l.used v (length (insert_at k (l.used, v) cs)) s.room,
          );
      size = omega (arith, s.size, h.size, length-insert_at k (l.used, v) cs s.room);
      distinct = λ i j a u w g g'. ground (
        arith,
        get_elem?-insert_at k (l.used, v) cs i s.room,
        get_elem?-insert_at k (l.used, v) cs j s.room,
        h.distinct i j a u w,
        h.distinct (i - 1) j a u w,
        h.distinct i (j - 1) a u w,
        h.distinct (i - 1) (j - 1) a u w,
        h.below i a u,
        h.below j a w,
        h.below (i - 1) a u,
        h.below (j - 1) a w,
      );
      owned = owned;
      below = λ i a u g. ground (
        arith,
        s.used,
        get_elem?-insert_at k (l.used, v) cs i s.room,
        h.below i a u,
        h.below (i - 1) a u,
      );
    }
      where
        owned :
            (a : ℕ)
            → m.memory a ≢ none
            → (i : ℕ) × (w : A) × (get_elem? (insert_at k (l.used, v) cs) i ≡ some (a, w))
        owned a live = elim (ℕ_discrete a l.used) [
          | yes e ↦ (k, v, get_elem?-insert_at k (l.used, v) cs k s.room ∙ rw e (ground arith))
          | no ne ↦
              let (i, w, g) = h.owned a (λ e. live (
                s.others a ne (λ b. let (j, w, _, g) = before-some cs k a b in cc (h.nodes j a w g))
                  (λ b. let (w, g) = at-some cs k a b in cc (h.nodes k a w g))
                ∙ e)) in
              elim (dec_lt i k) [
                | yes lt ↦ (i, w, get_elem?-insert_at k (l.used, v) cs i s.room ∙ ground arith)
                | no ge ↦
                    let back : i + 1 - 1 ≡ i = omega arith in
                    (i + 1, w, get_elem?-insert_at k (l.used, v) cs (i + 1) s.room ∙ ground arith)
              ]
        ]
