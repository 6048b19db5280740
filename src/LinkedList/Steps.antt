-- ===== src/LinkedList/Steps.antt =====
-- What the single writes of include/ycetl/list.hpp change.
use ycetl.Base.{ℕ, ◌≡◌, ◌≢◌, refl, ap, true, false, Option, none, some, arith, ◌==◌, ◌>>=◌, Returns}
use ycetl.LinkedList.{
  Pointer, Memory, LinkedList, Node, node, store, forward, backward, with_memory, with_head,
  with_tail,
}

module _ {A : Type 0} where
  pub store-same : (a : ℕ) (n : Option (Node A)) (m : Memory A) → store a n m a ≡ n
  store-same a n m = let e : (a == a) ≡ true = ground arith in rw e refl

  pub store-other : (a b : ℕ) (n : Option (Node A)) (m : Memory A) → a ≢ b → store a n m b ≡ m b
  store-other a b n m ne = let e : (a == b) ≡ false = ground arith in rw e refl

  stored :
      (a b : ℕ) (f : Node A → Node A) (n o : Node A) (m : Memory A)
      → ◌≡◌ {A = Pointer} (some a) (some b)
      → m a ≡ some n
      → m b ≡ some o
      → store a (some (f n)) m b ≡ some (f o)
  stored a b f n o m h e k =
      let here : a ≡ b = cc h in
      let same : n ≡ o = cc (here, e, k) in rw (here, same) (store-same b (some (f o)) m)

  -- `if (p) p->next = v; else _head = v;`
  pub record Forwards (p v : Pointer) (l m : LinkedList A) : Type 0 where
    pub hit :
        (a : ℕ) (n : Node A)
        → p ≡ some a
        → l.memory a ≡ some n
        → m.memory a ≡ some (node n.prev v n.value)
    pub miss : (b : ℕ) → p ≢ some b → m.memory b ≡ l.memory b
    pub on_null : p ≡ none → m.head ≡ v
    pub on_node : (a : ℕ) → p ≡ some a → m.head ≡ l.head
    pub tail : m.tail ≡ l.tail
    pub size : m.size ≡ l.size
    pub used : m.used ≡ l.used

  -- `if (p) p->prev = v; else _tail = v;`
  pub record Backwards (p v : Pointer) (l m : LinkedList A) : Type 0 where
    pub hit :
        (a : ℕ) (n : Node A)
        → p ≡ some a
        → l.memory a ≡ some n
        → m.memory a ≡ some (node v n.next n.value)
    pub miss : (b : ℕ) → p ≢ some b → m.memory b ≡ l.memory b
    pub on_null : p ≡ none → m.tail ≡ v
    pub on_node : (a : ℕ) → p ≡ some a → m.tail ≡ l.tail
    pub head : m.head ≡ l.head
    pub size : m.size ≡ l.size
    pub used : m.used ≡ l.used

  -- Both return if the pointer is null or points to a node.
  pub forward-Forwards :
      (p v : Pointer) (l : LinkedList A)
      → ((a : ℕ) → p ≡ some a → (n : Node A) × (l.memory a ≡ some n))
      → Returns (forward p v l) (Forwards p v l)
  unfolding forward
  forward-Forwards none v l live = (
    with_head v l,
    refl,
    record {
      hit = λ a n e. absurd (cc e);
      miss = λ b e. refl;
      on_null = λ e. refl;
      on_node = λ a e. absurd (cc e);
      tail = refl;
      size = refl;
      used = refl;
    },
  )
  forward-Forwards (some a) v l live =
      let (n, e) = live a refl in
      (
        with_memory (store a (some (node n.prev v n.value)) l.memory) l,
        rw (e, ◌>>=◌) refl,
        record {
          hit = λ b o same e'. stored a b (λ u. node u.prev v u.value) n o l.memory same e e';
          miss =
              λ b ne. store-other a b (some (node n.prev v n.value)) l.memory (λ e. ne (ap some e));
          on_null = λ e. absurd (cc e);
          on_node = λ b e. refl;
          tail = refl;
          size = refl;
          used = refl;
        },
      )

  pub backward-Backwards :
      (p v : Pointer) (l : LinkedList A)
      → ((a : ℕ) → p ≡ some a → (n : Node A) × (l.memory a ≡ some n))
      → Returns (backward p v l) (Backwards p v l)
  unfolding backward
  backward-Backwards none v l live = (
    with_tail v l,
    refl,
    record {
      hit = λ a n e. absurd (cc e);
      miss = λ b e. refl;
      on_null = λ e. refl;
      on_node = λ a e. absurd (cc e);
      head = refl;
      size = refl;
      used = refl;
    },
  )
  backward-Backwards (some a) v l live =
      let (n, e) = live a refl in
      (
        with_memory (store a (some (node v n.next n.value)) l.memory) l,
        rw (e, ◌>>=◌) refl,
        record {
          hit = λ b o same e'. stored a b (λ u. node v u.next u.value) n o l.memory same e e';
          miss =
              λ b ne. store-other a b (some (node v n.next n.value)) l.memory (λ e. ne (ap some e));
          on_null = λ e. absurd (cc e);
          on_node = λ b e. refl;
          head = refl;
          size = refl;
          used = refl;
        },
      )
