-- ===== src/WeakPtr.antt =====
-- `weak_ptr` of include/ycetl/weak_ptr.hpp, on the state that SharedPtr has for the variables of
-- both classes.
pub mod Observers
pub mod Laws
use ycetl.Base.{
  ℕ, Bool, true, false, List, [], ◌∷◌, ◌++◌, Option, none, some, ◌==◌, ◌>>=◌, get_elem?, set,
}
use ycetl.SharedPtr.{
  ControlBlock, Handle, Heap, State, null, release_weak, retain_weak, retain_strong, use_count,
}

module _ {A : Type 0} where
  -- `weak_ptr(const shared_ptr<T> &)`, a new variable
  unfoldable pub observe : ℕ → State A → Option (State A)
  unfolding retain_weak
  observe j st = do
    s ← get_elem? st.shared j
    h ← retain_weak s.control_block st.heap
    some (record st { heap = h; weak = st.weak ++ s ∷ [] })

  -- `weak_ptr(const weak_ptr &)`, a new variable
  unfoldable pub copy : ℕ → State A → Option (State A)
  unfolding retain_weak
  copy j st = do
    o ← get_elem? st.weak j
    h ← retain_weak o.control_block st.heap
    some (record st { heap = h; weak = st.weak ++ o ∷ [] })

  -- `weak_ptr(weak_ptr &&)`, a new variable
  unfoldable pub move : ℕ → State A → Option (State A)
  move j st = do o ← get_elem? st.weak j; some (record st { weak = set st.weak j null ++ o ∷ [] })

  -- What the assignments from a const reference share: the old block goes, the new one is pinned.
  unfoldable pub point_to : ℕ → Handle → State A → Option (State A)
  unfolding release_weak retain_weak
  point_to i o st = do
    self ← get_elem? st.weak i
    (h, released) ← release_weak self st.heap
    h' ← retain_weak o.control_block h
    some (record st { heap = h'; weak = set st.weak i o })

  unfoldable pub copy_assign : (i j : ℕ) → State A → Option (State A)
  unfolding point_to
  copy_assign i j st = elim (i == j) [
    | true ↦ some st
    | false ↦ get_elem? st.weak j >>= (λ o. point_to i o st)
  ]

  unfoldable pub move_assign : (i j : ℕ) → State A → Option (State A)
  unfolding release_weak
  move_assign i j st = elim (i == j) [
    | true ↦ some st
    | false ↦ do
      self ← get_elem? st.weak i
      o ← get_elem? st.weak j
      (h, released) ← release_weak self st.heap
      some (record st { heap = h; weak = set (set st.weak i o) j null })
  ]

  -- `operator=(const shared_ptr<T> &)`
  unfoldable pub assign_shared : (i j : ℕ) → State A → Option (State A)
  unfolding point_to
  assign_shared i j st = get_elem? st.shared j >>= (λ s. point_to i s st)

  -- `reset`, and `~weak_ptr()`, whose variable keeps the fields that it is left with
  unfoldable pub reset : ℕ → State A → Option (State A)
  unfolding release_weak
  reset i st = do
    self ← get_elem? st.weak i
    (h, released) ← release_weak self st.heap
    some (record st { heap = h; weak = set st.weak i released })

  unfoldable pub expired : Handle → Heap A → Option Bool
  unfolding use_count
  expired w h = use_count w h >>= (λ n. some (n == 0))

  -- `lock`, into a new variable
  unfoldable pub lock : ℕ → State A → Option (State A)
  unfolding expired retain_strong
  lock i st = do
    w ← get_elem? st.weak i
    gone ← expired w st.heap
    elim gone [
      | true ↦ some (record st { shared = st.shared ++ null ∷ [] })
      | false ↦
          retain_strong w.control_block st.heap
          >>= (λ h. some (record st { heap = h; shared = st.shared ++ w ∷ [] }))
    ]
