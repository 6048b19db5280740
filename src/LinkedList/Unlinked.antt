-- ===== src/LinkedList/Unlinked.antt =====
-- A node unlinked and deleted makes the list hold one element less.
use ycetl.Base.{
  ℕ, ◌+◌, ◌-◌, ◌<◌, ◌≡◌, ◌≢◌, ◌∙◌, sym, true, false, some, none, arith, ◌==◌, if◌then◌else◌, length,
  get_elem?,
}
use native.Mathlib.Decide.{dec_lt, ℕ_discrete}
use ycetl.Sequence.{remove_range, get_elem?-remove_range, length-remove_range}
use ycetl.LinkedList.{LinkedList, Node, node}
use ycetl.LinkedList.Cells.{
  Cells, same_node, at, before, Holds, at-some, at-get, at-remove, before-remove, before-get,
  before-some,
}

module _ {A : Type 0} where
  -- The node is deleted; the node before points on to the one after, the node after points back to
  -- the one before, and so do the head and the tail at the ends.
  pub record IsUnlinked (cs : Cells A) (k : ℕ) (l m : LinkedList A) : Type 0 where
    pub room : k < length cs
    pub gone : (a : ℕ) → at cs k ≡ some a → m.memory a ≡ none
    pub left :
        (p : ℕ) (n : Node A)
        → before cs k ≡ some p
        → l.memory p ≡ some n
        → m.memory p ≡ some (node n.prev (at cs (k + 1)) n.value)
    pub right :
        (q : ℕ) (n : Node A)
        → at cs (k + 1) ≡ some q
        → l.memory q ≡ some n
        → m.memory q ≡ some (node (before cs k) n.next n.value)
    pub others :
        (a : ℕ)
        → at cs k ≢ some a
        → before cs k ≢ some a
        → at cs (k + 1) ≢ some a
        → m.memory a ≡ l.memory a
    pub head : m.head ≡ (if k == 0 then at cs (k + 1) else l.head)
    pub tail : m.tail ≡ (if k + 1 == length cs then before cs k else l.tail)
    pub size : m.size + 1 ≡ l.size
    pub used : m.used ≡ l.used

  module _ (cs : Cells A) (k : ℕ) (l m : LinkedList A) (h : Holds cs l)
      (s : IsUnlinked cs k l m) where
    -- A node with the same links but those around the one taken out.
    moved :
        (i a : ℕ) (u : A)
        → i ≢ k
        → get_elem? cs i ≡ some (a, u)
        → m.memory a
          ≡ some (
              node
                (if i == k + 1 then before cs k else before cs i)
                (if i + 1 == k then at cs (k + 1) else at cs (i + 1))
                u)
    moved i a u apart g = elim (ℕ_discrete (i + 1) k) [
      | yes e ↦
          let here : (i == k + 1) ≡ false = ground arith in
          let next : (i + 1 == k) ≡ true = ground arith in
          rw (here, next)
            (s.left a (node (before cs i) (at cs (i + 1)) u) (rw (← e) (before-get cs i a u g))
              (h.nodes i a u g))
      | no ne ↦ elim (ℕ_discrete i (k + 1)) [
        | yes e ↦
            let here : (i == k + 1) ≡ true = ground arith in
            let next : (i + 1 == k) ≡ false = ground arith in
            rw (here, next)
              (s.right a (node (before cs i) (at cs (i + 1)) u) (rw (← e) (at-get cs i a u g))
                (h.nodes i a u g))
        | no ne' ↦
            let here : (i == k + 1) ≡ false = ground arith in
            let next : (i + 1 == k) ≡ false = ground arith in
            rw (here, next)
              (s.others a (λ e. let (w, g') = at-some cs k a e in apart (h.distinct i k a u w g g'))
                  (λ e.
                    let (j, w, k_is, g') = before-some cs k a e in
                    ne (omega (arith, h.distinct i j a u w g g')))
                  (λ e.
                    let (w, g') = at-some cs (k + 1) a e in ne' (h.distinct i (k + 1) a u w g g'))
                ∙ h.nodes i a u g)
      ]
    ]

    relinked :
        (j a : ℕ) (u : A)
        → get_elem? (remove_range k (k + 1) cs) j ≡ some (a, u)
        → m.memory a
          ≡ some (
              node
                (before (remove_range k (k + 1) cs) j)
                (at (remove_range k (k + 1) cs) (j + 1))
                u)
    relinked j a u g =
        let one : k + 1 - k ≡ 1 = omega arith in
        let read =
          rw one at (
            sym (get_elem?-remove_range k (k + 1) cs j (omega arith) (omega (arith, s.room)))
            ∙ g) in
        let to_before = before-remove cs k j s.room in
        let to_next = at-remove cs k (j + 1) s.room in
        elim (dec_lt j k) [
          | yes lt ↦
              let e : get_elem? cs j ≡ some (a, u) = ground arith in
              moved j a u (omega arith) e ∙ same_node u (ground arith) (ground arith)
          | no ge ↦
              let e : get_elem? cs (j + 1) ≡ some (a, u) = ground arith in
              moved (j + 1) a u (omega arith) e ∙ same_node u (ground arith) (ground arith)
        ]

    -- The list holds what it held without the value at the place.
    pub unlinked-Holds : Holds (remove_range k (k + 1) cs) m
    unlinked-Holds =
        let one : k + 1 - k ≡ 1 = omega arith in
        let reads = λ (i : ℕ).
          rw one at (get_elem?-remove_range k (k + 1) cs i (omega arith) (omega (arith, s.room))) in
        let long = length-remove_range k (k + 1) cs (omega arith) (omega (arith, s.room)) in
        record {
          nodes = relinked;
          head = s.head ∙ ground (arith, h.head, at-remove cs k 0 s.room);
          tail =
              s.tail
              ∙ ground (
                arith,
                h.tail,
                s.room,
                long,
                before-remove cs k (length (remove_range k (k + 1) cs)) s.room,
              );
          size = omega (arith, s.size, h.size, long);
          distinct = λ i j a u w g g'. ground (
            arith,
            reads i,
            reads j,
            h.distinct i j a u w,
            h.distinct (i + 1) j a u w,
            h.distinct i (j + 1) a u w,
            h.distinct (i + 1) (j + 1) a u w,
          );
          owned = owned;
          below = λ i a u g. ground (arith, s.used, reads i, h.below i a u, h.below (i + 1) a u);
        }
      where
        placed :
            (i a : ℕ) (w : A)
            → get_elem? cs i ≡ some (a, w)
            → i ≢ k
            → (i : ℕ) × (w : A) × (get_elem? (remove_range k (k + 1) cs) i ≡ some (a, w))
        placed i a w g ne =
            let one : k + 1 - k ≡ 1 = omega arith in
            let reads = λ (i : ℕ).
              rw one at
                (get_elem?-remove_range k (k + 1) cs i (omega arith) (omega (arith, s.room))) in
            elim (dec_lt i k) [
              | yes lt ↦ (i, w, reads i ∙ ground arith)
              | no ge ↦
                  let back : i - 1 + 1 ≡ i = omega arith in (i - 1, w, reads (i - 1) ∙ ground arith)
            ]

        owned :
            (a : ℕ)
            → m.memory a ≢ none
            → (i : ℕ) × (w : A) × (get_elem? (remove_range k (k + 1) cs) i ≡ some (a, w))
        owned a live =
            let (i, w, g) = h.owned a (λ e. live (
              s.others a (λ b. let (w, g) = at-some cs k a b in cc (h.nodes k a w g))
                (λ b. let (j, w, _, g) = before-some cs k a b in cc (h.nodes j a w g))
                (λ b. let (w, g) = at-some cs (k + 1) a b in cc (h.nodes (k + 1) a w g))
              ∙ e)) in
            placed i a w g (λ e. live (s.gone a (rw (← e) (at-get cs i a w g))))
