-- ===== src/UniquePtr.antt =====
-- `unique_ptr` of include/ycetl/unique_ptr.hpp, over an explicit memory of objects. A State has the
-- variables of the class, which the operations name by their index, as the code does by their
-- address.
pub mod Laws
use ycetl.Base.{
  ℕ, Bool, true, false, List, [], ◌∷◌, ◌++◌, Option, none, some, ◌==◌, if◌then◌else◌, ◌>>=◌,
  get_elem?, set,
}

abbrev pub Pointer : Type 0
Pointer = Option ℕ

pub record State (A : Type 0) : Type 0 where
  pub objects : ℕ → Option A
  pub pointers : List Pointer

module _ {A : Type 0} where
  -- `if (old) delete old;`
  abbrev pub delete_old : Pointer → State A → Option (State A)
  delete_old none st = some st
  delete_old (some a) st =
      st.objects a
      >>= (λ o. some (record st { objects = λ b. if b == a then none else st.objects b }))

  -- `unique_ptr(pointer)`, a new variable
  unfoldable pub adopt : Pointer → State A → State A
  adopt p st = record st { pointers = st.pointers ++ p ∷ [] }

  unfoldable pub reset : ℕ → Pointer → State A → Option (State A)
  reset i p st = do
    old ← get_elem? st.pointers i
    delete_old old (record st { pointers = set st.pointers i p })

  -- With the pointer.
  unfoldable pub release : ℕ → State A → Option (State A × Pointer)
  release i st = do
    p ← get_elem? st.pointers i
    some (record st { pointers = set st.pointers i none }, p)

  -- `unique_ptr(unique_ptr &&)`, a new variable
  unfoldable pub move : ℕ → State A → Option (State A)
  move j st = do
    p ← get_elem? st.pointers j
    some (record st { pointers = set st.pointers j none ++ p ∷ [] })

  unfoldable pub move_assign : (i j : ℕ) → State A → Option (State A)
  unfolding reset
  move_assign i j st = elim (i == j) [
    | true ↦ some st
    | false ↦ do
      p ← get_elem? st.pointers j
      st' ← reset i p st
      some (record st' { pointers = set st'.pointers j none })
  ]

  -- `operator=(nullptr_t)` and `~unique_ptr()`
  unfoldable pub destroy : ℕ → State A → Option (State A)
  unfolding reset
  destroy i st = reset i none st

  unfoldable pub swap : (i j : ℕ) → State A → Option (State A)
  swap i j st = do
    p ← get_elem? st.pointers i
    q ← get_elem? st.pointers j
    some (record st { pointers = set (set st.pointers i q) j p })
