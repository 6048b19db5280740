-- ===== src/SharedPtr.antt =====
-- `shared_ptr` of include/ycetl/shared_ptr.hpp and `weak_ptr` of include/ycetl/weak_ptr.hpp, over
-- an explicit heap of control blocks and objects. The two classes have the same fields, Handle;
-- a State has the variables of both classes, which the operations name by their index, as the
-- code does by their address.
pub mod Counts
pub mod Steps
pub mod Owners
pub mod Laws
pub mod Adopting
use ycetl.Base.{
  ℕ, zero, suc, ◌+◌, Bool, true, false, List, [], ◌∷◌, ◌++◌, Option, none, some, ◌==◌,
  if◌then◌else◌, ◌>>=◌, get_elem?, set,
}
use ycetl.Size.{add_size, sub_size}

abbrev pub Pointer : Type 0
Pointer = Option ℕ

pub record ControlBlock : Type 0 where
  pub ref_count : ℕ
  pub weak_count : ℕ

pub record Handle : Type 0 where
  pub control_block : Pointer
  pub ptr : Pointer

pub record Heap (A : Type 0) : Type 0 where
  pub blocks : ℕ → Option ControlBlock
  pub objects : ℕ → Option A
  -- The address that the next `new` of a control block gives out.
  pub used : ℕ

pub record State (A : Type 0) : Type 0 where
  pub heap : Heap A
  pub shared : List Handle
  pub weak : List Handle

abbrev pub null : Handle
null = record { control_block = none; ptr = none }

module _ {A : Type 0} where
  abbrev pub write_block : ℕ → Option ControlBlock → Heap A → Heap A
  write_block b c h = record h { blocks = λ i. if i == b then c else h.blocks i }

  -- `delete ptr_`
  abbrev pub delete_object : Pointer → Heap A → Option (Heap A)
  delete_object none h = some h
  delete_object (some a) h =
      h.objects a >>= (λ o. some (record h { objects = λ i. if i == a then none else h.objects i }))

  -- `if (--weak_count_ == 0) delete control_block_;`
  abbrev pub unpin : ℕ → ControlBlock → Heap A → Heap A
  unpin b c h =
      let weaks = sub_size c.weak_count 1 in
      write_block b
        (if weaks == 0 then none else some (record { ref_count = c.ref_count; weak_count = weaks }))
        h

  -- `release_strong` past its test for a null block
  unfoldable pub drop_strong : ℕ → Pointer → Heap A → Option (Heap A × Handle)
  drop_strong b p h = do
    c ← h.blocks b
    let refs = sub_size c.ref_count 1
    let c' : ControlBlock = record { ref_count = refs; weak_count = c.weak_count }
    elim (refs == 0) [
      | true ↦ delete_object p h >>= (λ h'. some (unpin b c' h', null))
      | false ↦ some (write_block b (some c') h, record { control_block = none; ptr = p })
    ]

  unfoldable pub release_strong : Handle → Heap A → Option (Heap A × Handle)
  unfolding drop_strong
  release_strong s h = elim s.control_block [ none ↦ some (h, s) | some b ↦ drop_strong b s.ptr h ]

  unfoldable pub release_weak : Handle → Heap A → Option (Heap A × Handle)
  release_weak w h = elim w.control_block [
    | none ↦ some (h, w)
    | some b ↦ h.blocks b >>= (λ c. some (unpin b c h, null))
  ]

  -- `if (control_block_) ++control_block_->ref_count_;`
  unfoldable pub retain_strong : Pointer → Heap A → Option (Heap A)
  retain_strong none h = some h
  retain_strong (some b) h = do
    c ← h.blocks b
    let c' : ControlBlock = record { ref_count = add_size c.ref_count 1; weak_count = c.weak_count }
    some (write_block b (some c') h)

  -- `if (control_block_) ++control_block_->weak_count_;`
  unfoldable pub retain_weak : Pointer → Heap A → Option (Heap A)
  retain_weak none h = some h
  retain_weak (some b) h = do
    c ← h.blocks b
    let c' : ControlBlock = record { ref_count = c.ref_count; weak_count = add_size c.weak_count 1 }
    some (write_block b (some c') h)

  -- `shared_ptr(T *p)`, a new variable
  unfoldable pub adopt : Pointer → State A → State A
  adopt none st = record st { shared = st.shared ++ null ∷ [] }
  adopt (some a) st =
      let b = st.heap.used in
      let fresh : Heap A =
        write_block b (some (record { ref_count = 1; weak_count = 1 }))
          (record st.heap { used = b + 1 }) in
      record st {
        heap = fresh;
        shared = st.shared ++ record { control_block = some b; ptr = some a } ∷ [];
      }

  -- `shared_ptr(const shared_ptr &)`, a new variable
  unfoldable pub copy : ℕ → State A → Option (State A)
  unfolding retain_strong
  copy j st = do
    other ← get_elem? st.shared j
    h ← retain_strong other.control_block st.heap
    some (record st { heap = h; shared = st.shared ++ other ∷ [] })

  -- `shared_ptr(shared_ptr &&)`, a new variable
  unfoldable pub move : ℕ → State A → Option (State A)
  move j st = do
    other ← get_elem? st.shared j
    some (record st { shared = set st.shared j null ++ other ∷ [] })

  unfoldable pub copy_assign : (i j : ℕ) → State A → Option (State A)
  unfolding release_strong retain_strong
  copy_assign i j st = elim (i == j) [
    | true ↦ some st
    | false ↦ do
      self ← get_elem? st.shared i
      other ← get_elem? st.shared j
      (h, released) ← release_strong self st.heap
      h' ← retain_strong other.control_block h
      some (record st { heap = h'; shared = set st.shared i other })
  ]

  unfoldable pub move_assign : (i j : ℕ) → State A → Option (State A)
  unfolding release_strong
  move_assign i j st = elim (i == j) [
    | true ↦ some st
    | false ↦ do
      self ← get_elem? st.shared i
      other ← get_elem? st.shared j
      (h, released) ← release_strong self st.heap
      some (record st { heap = h; shared = set (set st.shared i other) j null })
  ]

  -- `~shared_ptr()`; the variable keeps the fields that it is left with.
  unfoldable pub destroy : ℕ → State A → Option (State A)
  unfolding release_strong
  destroy i st = do
    self ← get_elem? st.shared i
    (h, released) ← release_strong self st.heap
    some (record st { heap = h; shared = set st.shared i released })

  unfoldable pub use_count : Handle → Heap A → Option ℕ
  use_count s h = elim s.control_block [
    | none ↦ some 0
    | some b ↦ h.blocks b >>= (λ c. some c.ref_count)
  ]
