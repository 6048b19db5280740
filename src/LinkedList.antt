-- ===== src/LinkedList.antt =====
-- `list` of include/ycetl/list.hpp, a doubly linked list of nodes made with `new`. The memory holds
-- the nodes of one list; `new` takes the next unused address, and reading or writing through a null
-- or a deleted pointer is a fault.
pub mod Cells
pub mod Linked
pub mod Unlinked
pub mod Steps
pub mod Inserting
pub mod Middle
pub mod Removing
pub mod Ends
pub mod Copying
pub mod Building
pub mod RoundTrip
use ycetl.Base.{
  ℕ, zero, suc, ◌+◌, Bool, true, false, List, [], ◌∷◌, Option, none, some, ◌==◌, if◌then◌else◌,
  ◌>>=◌,
}
use ycetl.Size.{add_size, sub_size}

-- `node *`
abbrev pub Pointer : Type 0
Pointer = Option ℕ

pub record Node (A : Type 0) : Type 0 where
  pub value : A
  pub prev : Pointer
  pub next : Pointer

abbrev pub Memory : Type 0 → Type 0
Memory A = ℕ → Option (Node A)

pub record LinkedList (A : Type 0) : Type 0 where
  pub memory : Memory A
  pub used : ℕ
  pub head : Pointer
  pub tail : Pointer
  pub size : ℕ

module _ {A : Type 0} where
  -- `node(p, n, args...)`
  abbrev pub node : Pointer → Pointer → A → Node A
  node p n v = record { value = v; prev = p; next = n }

  abbrev pub empty : LinkedList A
  empty = record { memory = λ a. none; used = 0; head = none; tail = none; size = 0 }

  abbrev pub store : ℕ → Option (Node A) → Memory A → Memory A
  store a n m b = if a == b then n else m b

  abbrev pub with_memory : Memory A → LinkedList A → LinkedList A
  with_memory m l = record {
    memory = m;
    used = l.used;
    head = l.head;
    tail = l.tail;
    size = l.size;
  }

  abbrev pub with_head : Pointer → LinkedList A → LinkedList A
  with_head p l = record {
    memory = l.memory;
    used = l.used;
    head = p;
    tail = l.tail;
    size = l.size;
  }

  abbrev pub with_tail : Pointer → LinkedList A → LinkedList A
  with_tail p l = record {
    memory = l.memory;
    used = l.used;
    head = l.head;
    tail = p;
    size = l.size;
  }

  abbrev pub with_size : ℕ → LinkedList A → LinkedList A
  with_size n l = record {
    memory = l.memory;
    used = l.used;
    head = l.head;
    tail = l.tail;
    size = n;
  }

  -- `new node(p, n, v)`, at the address `l.used`
  unfoldable pub allocate : Pointer → Pointer → A → LinkedList A → LinkedList A
  allocate p n v l = record {
    memory = store l.used (some (node p n v)) l.memory;
    used = l.used + 1;
    head = l.head;
    tail = l.tail;
    size = l.size;
  }

  -- `delete n`
  unfoldable pub deallocate : ℕ → LinkedList A → LinkedList A
  deallocate a l = with_memory (store a none l.memory) l

  -- `if (p) p->next = v; else _head = v;`
  unfoldable pub forward : Pointer → Pointer → LinkedList A → Option (LinkedList A)
  forward none v l = some (with_head v l)
  forward (some a) v l = do
    n ← l.memory a
    some (with_memory (store a (some (node n.prev v n.value)) l.memory) l)

  -- `if (p) p->prev = v; else _tail = v;`
  unfoldable pub backward : Pointer → Pointer → LinkedList A → Option (LinkedList A)
  backward none v l = some (with_tail v l)
  backward (some a) v l = do
    n ← l.memory a
    some (with_memory (store a (some (node v n.next n.value)) l.memory) l)

  -- `prev ? prev->next : _head`
  unfoldable pub next_of : Pointer → LinkedList A → Option Pointer
  next_of none l = some l.head
  next_of (some a) l = do n ← l.memory a; some n.next

  unfoldable pub link_after : Pointer → ℕ → LinkedList A → Option (LinkedList A)
  unfolding next_of forward backward
  link_after prev fresh l = do
    next ← next_of prev l
    l₁ ← backward (some fresh) prev l
    l₂ ← forward (some fresh) next l₁
    l₃ ← forward prev (some fresh) l₂
    backward next (some fresh) l₃

  unfoldable pub unlink : ℕ → LinkedList A → Option (LinkedList A)
  unfolding forward backward
  unlink a l = do
    n ← l.memory a
    l₁ ← forward n.prev n.next l
    n₁ ← l₁.memory a
    backward n₁.next n₁.prev l₁

  -- The loop of `clear_nodes`; the fuel bounds the rounds.
  unfoldable pub clear_loop : ℕ → Pointer → LinkedList A → Option (LinkedList A)
  unfolding deallocate
  clear_loop fuel none l = some l
  clear_loop zero (some a) l = none
  clear_loop (suc fuel) (some a) l = do n ← l.memory a; clear_loop fuel n.next (deallocate a l)

  -- A list of `_size` nodes takes `_size` rounds.
  unfoldable pub clear_nodes : LinkedList A → Option (LinkedList A)
  unfolding clear_loop
  clear_nodes l = do
    l₁ ← clear_loop l.size l.head l
    some (with_size 0 (with_head none (with_tail none l₁)))

  -- `++it` and `--it`, for the iterator at a node or at `end()`
  unfoldable pub increment : Pointer → LinkedList A → Option Pointer
  increment none l = none
  increment (some a) l = do n ← l.memory a; some n.next

  unfoldable pub decrement : Pointer → LinkedList A → Option Pointer
  decrement none l = some l.tail
  decrement (some a) l = do n ← l.memory a; some n.prev

  -- `front` and `back`, at the head and at the tail
  unfoldable pub value_at : Pointer → LinkedList A → Option A
  value_at none l = none
  value_at (some a) l = do n ← l.memory a; some n.value

  unfoldable pub emplace_back : A → LinkedList A → Option (LinkedList A)
  unfolding allocate forward
  emplace_back v l = do
    l₁ ← forward l.tail (some l.used) (allocate l.tail none v l)
    some (with_size (add_size l₁.size 1) (with_tail (some l.used) l₁))

  unfoldable pub emplace_front : A → LinkedList A → Option (LinkedList A)
  unfolding allocate backward
  emplace_front v l = do
    l₁ ← backward l.head (some l.used) (allocate none l.head v l)
    some (with_size (add_size l₁.size 1) (with_head (some l.used) l₁))

  -- `unlink(n); delete n; --_size;`
  unfoldable pub remove : Pointer → LinkedList A → Option (LinkedList A)
  unfolding unlink deallocate
  remove none l = none
  remove (some a) l = do l₁ ← unlink a l; some (with_size (sub_size l₁.size 1) (deallocate a l₁))

  unfoldable pub pop_back : LinkedList A → Option (LinkedList A)
  unfolding remove
  pop_back l = remove l.tail l

  unfoldable pub pop_front : LinkedList A → Option (LinkedList A)
  unfolding remove
  pop_front l = remove l.head l

  -- With the iterator to the new element.
  unfoldable pub insert : Pointer → A → LinkedList A → Option (LinkedList A × Pointer)
  unfolding decrement allocate link_after
  insert pos v l = do
    prev ← decrement pos l
    l₁ ← link_after prev l.used (allocate none none v l)
    some (with_size (add_size l₁.size 1) l₁, some l.used)

  -- With the iterator to the element after.
  unfoldable pub erase : Pointer → LinkedList A → Option (LinkedList A × Pointer)
  unfolding increment remove
  erase pos l = do next ← increment pos l; l₁ ← remove pos l; some (l₁, next)

  -- `for (it = o.begin(); it != o.end(); ++it) push_back(*it);`, from `cur` on. The two lists have no
  -- node in common.
  unfoldable pub copy_loop : ℕ → Pointer → LinkedList A → LinkedList A → Option (LinkedList A)
  unfolding increment value_at emplace_back
  copy_loop fuel none o l = some l
  copy_loop zero (some a) o l = none
  copy_loop (suc fuel) (some a) o l = do
    v ← value_at (some a) o
    l₁ ← emplace_back v l
    next ← increment (some a) o
    copy_loop fuel next o l₁

  -- `list(const list &o)`
  unfoldable pub copy : LinkedList A → Option (LinkedList A)
  unfolding copy_loop
  copy o = copy_loop o.size o.head o empty

  -- `operator=(const list &o)`, of another list
  unfoldable pub copy_assign : LinkedList A → LinkedList A → Option (LinkedList A)
  unfolding clear_nodes copy_loop
  copy_assign o l = do l₁ ← clear_nodes l; copy_loop o.size o.head o l₁

  -- `list(list &&o)`: the new list, and `o` after.
  unfoldable pub move : LinkedList A → LinkedList A × LinkedList A
  move o = (o, empty)

  -- `operator=(list &&o)` between two lists: the list, which takes the nodes of `o`, and `o` after.
  unfoldable pub move_assign : LinkedList A → LinkedList A → Option (LinkedList A × LinkedList A)
  unfolding clear_nodes
  move_assign o l = clear_nodes l >>= (λ freed. some (o, empty))

  -- `for (const auto &v : il) push_back(v);`
  unfoldable pub push_all : List A → LinkedList A → Option (LinkedList A)
  unfolding emplace_back
  push_all [] l = some l
  push_all (v ∷ il) l = do l₁ ← emplace_back v l; push_all il l₁

  -- `list(std::initializer_list<T> il)`
  unfoldable pub from_list : List A → Option (LinkedList A)
  unfolding push_all
  from_list il = push_all il empty
