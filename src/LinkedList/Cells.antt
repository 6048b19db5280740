-- ===== src/LinkedList/Cells.antt =====
-- What a list of include/ycetl/list.hpp holds: the addresses of its nodes and their values, in order.
use ycetl.Base.{
  ℕ, zero, suc, ◌+◌, ◌-◌, ◌≤◌, ◌<◌, ◌≡◌, ◌≢◌, refl, false, List, Option, none, some, inl, inr,
  Option-cases, arith, ◌==◌, ltb, leb, if◌then◌else◌, length, get_elem?, get_elem?-none,
  get_elem?-some, ◌⊎◌,
}
use native.Mathlib.Decide.{dec_lt}
use ycetl.Sequence.{insert_at, get_elem?-insert_at, remove_range, get_elem?-remove_range}
use ycetl.LinkedList.{Pointer, LinkedList, node}

-- A node's address and its value, for each node.
abbrev pub Cells : Type 0 → Type 0
Cells A = List (ℕ × A)

module _ {A : Type 0} where
  abbrev pub address : Option (ℕ × A) → Pointer
  address none = none
  address (some c) = some c.0

  -- The pointer to node `i`, null past the last.
  unfoldable pub at : Cells A → ℕ → Pointer
  at cs i = address (get_elem? cs i)

  -- The pointer to the node before `i`, null at the first.
  unfoldable pub before : Cells A → ℕ → Pointer
  unfolding at
  before cs i = if i == 0 then none else at cs (i - 1)

  -- Each node lies at its address with its value and its links; the nodes are distinct, the memory
  -- has no other, and the size is their number.
  pub record Holds (cs : Cells A) (l : LinkedList A) : Type 0 where
    pub nodes :
        (i a : ℕ) (v : A)
        → get_elem? cs i ≡ some (a, v)
        → l.memory a ≡ some (node (before cs i) (at cs (i + 1)) v)
    pub head : l.head ≡ at cs 0
    pub tail : l.tail ≡ before cs (length cs)
    pub size : l.size ≡ length cs
    pub distinct :
        (i j a : ℕ) (v w : A) → get_elem? cs i ≡ some (a, v) → get_elem? cs j ≡ some (a, w) → i ≡ j
    pub owned : (a : ℕ) → l.memory a ≢ none → (i : ℕ) × (v : A) × (get_elem? cs i ≡ some (a, v))
    pub below : (i a : ℕ) (v : A) → get_elem? cs i ≡ some (a, v) → a < l.used

  pub same_node :
      {p q n o : Pointer} (u : A) → p ≡ q → n ≡ o → some (node p n u) ≡ some (node q o u)
  same_node u e f = rw (e, f) refl

  pub same_cell :
      (a b : ℕ) (v u : A) → ◌≡◌ {A = Option (ℕ × A)} (some (a, v)) (some (b, u)) → (a ≡ b) × (v ≡ u)
  same_cell a b v u h = (cc h, cc h)

  pub at-some :
      (cs : Cells A) (i a : ℕ) → at cs i ≡ some a → (v : A) × (get_elem? cs i ≡ some (a, v))
  unfolding at
  at-some cs i a h = go (get_elem? cs i) refl h
    where
      go :
          (o : Option (ℕ × A))
          → get_elem? cs i ≡ o
          → address o ≡ some a
          → (v : A) × (get_elem? cs i ≡ some (a, v))
      go none e k = absurd (cc k)
      go (some (b, v)) e k = let same : b ≡ a = cc k in (v, rw (← same) e)

  pub at-get : (cs : Cells A) (i a : ℕ) (v : A) → get_elem? cs i ≡ some (a, v) → at cs i ≡ some a
  unfolding at
  at-get cs i a v h = rw h refl

  pub before-get :
      (cs : Cells A) (i a : ℕ) (v : A) → get_elem? cs i ≡ some (a, v) → before cs (i + 1) ≡ some a
  unfolding before
  before-get cs i a v h =
      let inner : (i + 1 == 0) ≡ false = ground arith in
      let this : i + 1 - 1 ≡ i = omega arith in rw (inner, this) (at-get cs i a v h)

  pub before-some :
      (cs : Cells A) (j a : ℕ)
      → before cs j ≡ some a
      → (i : ℕ) × (v : A) × (j ≡ i + 1) × (get_elem? cs i ≡ some (a, v))
  unfolding before
  before-some cs zero a h = absurd (cc h)
  before-some cs (suc j) a h =
      let inner : (suc j == 0) ≡ false = ground arith in
      let this : suc j - 1 ≡ j = omega arith in
      let (v, g) = at-some cs j a (rw (inner, this) at h) in (j, v, omega arith, g)

  -- Null is the pointer before the first and the one past the last, and no other.
  pub at-cases :
      (cs : Cells A) (j : ℕ)
      → j ≤ length cs
      → ((j ≡ length cs) × (at cs j ≡ none))
        ⊎ ((a : ℕ) × ((j == length cs) ≡ false) × (at cs j ≡ some a))
  unfolding at
  at-cases cs j le = elim (dec_lt j (length cs)) [
    | yes lt ↦ let ((a, v), e) = get_elem?-some cs j lt in inr (a, ground arith, rw e refl)
    | no ge ↦ inl (omega arith, rw (get_elem?-none cs j (omega arith)) refl)
  ]

  pub before-cases :
      (cs : Cells A) (j : ℕ)
      → j ≤ length cs
      → ((j ≡ 0) × (before cs j ≡ none)) ⊎ ((a : ℕ) × ((j == 0) ≡ false) × (before cs j ≡ some a))
  before-cases cs zero le = inl (refl, unfold before in refl)
  before-cases cs (suc j) le =
      let ((a, v), e) = get_elem?-some cs j (omega arith) in
      let next : j + 1 ≡ suc j = omega arith in
      inr (a, ground arith, rw next at (before-get cs j a v e))

  pub at-insert_at :
      (cs : Cells A) (k a : ℕ) (v : A) (j : ℕ)
      → k ≤ length cs
      → at (insert_at k (a, v) cs) j
        ≡ (if ltb j k then at cs j else if j == k then some a else at cs (j - 1))
  unfolding at
  at-insert_at cs k a v j h = rw (get_elem?-insert_at k (a, v) cs j h) (ground arith)

  pub before-insert_at :
      (cs : Cells A) (k a : ℕ) (v : A) (j : ℕ)
      → k ≤ length cs
      → before (insert_at k (a, v) cs) j
        ≡ (if ltb k j then if j == k + 1 then some a else before cs (j - 1) else before cs j)
  unfolding before
  before-insert_at cs k a v j h = ground (arith, at-insert_at cs k a v (j - 1) h)

  pub at-remove :
      (cs : Cells A) (k j : ℕ)
      → k < length cs
      → at (remove_range k (k + 1) cs) j ≡ (if ltb j k then at cs j else at cs (j + 1))
  unfolding at
  at-remove cs k j h =
      let one : k + 1 - k ≡ 1 = omega arith in
      rw (get_elem?-remove_range k (k + 1) cs j (omega arith) (omega arith), one) (ground arith)

  pub before-remove :
      (cs : Cells A) (k j : ℕ)
      → k < length cs
      → before (remove_range k (k + 1) cs) j ≡ (if leb j k then before cs j else before cs (j + 1))
  unfolding before
  before-remove cs k zero h = ground arith
  before-remove cs k (suc j) h =
      let this : suc j - 1 ≡ j = omega arith in
      let next : suc j + 1 - 1 ≡ j + 1 = omega arith in
      rw (this, next) (ground (arith, at-remove cs k j h))

  -- No node lies at an address that was not used yet.
  pub unused : (cs : Cells A) (l : LinkedList A) → Holds cs l → l.memory l.used ≡ none
  unused cs l h = elim (Option-cases (l.memory l.used)) [
    | inl e ↦ e
    | inr (n, e) ↦
        let (i, v, g) = h.owned l.used (λ (f : l.memory l.used ≡ none). absurd (cc)) in
        absurd (omega (arith, h.below i l.used v g))
  ]
