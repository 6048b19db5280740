-- ===== src/SharedPtr/Laws.antt =====
-- The operations of include/ycetl/shared_ptr.hpp: an object lives as long as a variable owns it.
use ycetl.Base.{
  ℕ, zero, suc, ◌+◌, ◌<◌, ◌≡◌, ◌≢◌, refl, ◌∙◌, sym, ap, true, false, List, [], ◌∷◌, ◌++◌, none,
  some, arith, ◌==◌, if◌then◌else◌, Returns, Returns-bind, length, length-set, get_elem?,
  get_elem?-set, set, lt_of_get_elem?,
}
use mathlib.Core.Option.{some-injective}
use native.Mathlib.Decide.{ℕ_discrete}
use ycetl.Size.{size_mod}
use ycetl.Probe.Scan.{count-set}
use ycetl.SharedPtr
use ycetl.SharedPtr.{Handle, Heap, State, null, release_strong, retain_strong, destroy, copy_assign}
use ycetl.SharedPtr.Counts.{owns, owners}
use ycetl.SharedPtr.Owners.{Owns, append-Adds, set-Adds, retain-Owns, release-Released, last_owner}

module _ {A : Type 0} where
  pub set-set : (xs : List A) (i : ℕ) (x y : A) → set (set xs i x) i y ≡ set xs i y
  set-set [] i x y = refl
  set-set (z ∷ xs) zero x y = refl
  set-set (z ∷ xs) (suc i) x y = ap (λ t. z ∷ t) (set-set xs i x y)

  set-same : (xs : List A) (i : ℕ) (x : A) → get_elem? xs i ≡ some x → set xs i x ≡ xs
  set-same [] i x e = refl
  set-same (z ∷ xs) zero x e = ap (λ t. t ∷ xs) (sym (some-injective z x e))
  set-same (z ∷ xs) (suc i) x e = ap (λ t. z ∷ t) (set-same xs i x e)

pub owner-pos :
    (o : Handle) (xs : List Handle) (j b : ℕ)
    → get_elem? xs j ≡ some o
    → o.control_block ≡ some b
    → 0 < owners xs b
owner-pos o xs j b at e =
    let yes_owned : owns b o ≡ true = rw e (ground arith) in
    ground (arith, count-set (owns b) xs j o null at)

module _ {A : Type 0} where
  -- Of the objects only that of the handle is deleted, if the handle was the last owner.
  abbrev Deletes : Handle → (st st' : State A) → Type 0
  Deletes s st st' =
      (a : ℕ) → st'.heap.objects a ≡ (if last_owner s st.shared a then none else st.heap.objects a)

  -- Variable `i`, which had the handle, has no block any more, and every other variable is as it was;
  -- the counters count the variables that there are now.
  pub record Releases (target : ℕ → ℕ) (i : ℕ) (s : Handle) (st st' : State A) : Type 0 where
    pub left : Handle
    pub no_block : left.control_block ≡ none
    pub shared : st'.shared ≡ set st.shared i left
    pub weak : st'.weak ≡ st.weak
    pub kept : Owns target st'
    pub objects : Deletes s st st'

  module _ (target : ℕ → ℕ) (st : State A) (k : Owns target st)
      (small : length st.shared + length st.weak + 2 < size_mod) where
    -- Where the counters count fewer than 2 ^ 64 - 2 variables, the destruction of a `shared_ptr`
    -- does not fault; the variable has no control block any more, every other variable, the
    -- observers included, is as it was, and the counters count the variables that there are then;
    -- its object is deleted exactly if no other variable owns it, and no other object is.
    pub destroy-Releases :
        (i : ℕ) (s : Handle)
        → get_elem? st.shared i ≡ some s
        → Returns (destroy i st) (Releases target i s st)
    unfolding destroy
    destroy-Releases i s at =
        let (r, run, d) = release-Released target st k small i s at in
        Returns-bind _ s _ at (
          Returns-bind _ r _ run (
            _,
            refl,
            record {
              left = r.1;
              no_block = d.released;
              shared = refl;
              weak = refl;
              kept = d.kept r.1 d.released;
              objects = d.objects;
            },
          ))

    assign-apart :
        (i j : ℕ) (s o : Handle)
        → i ≢ j
        → get_elem? st.shared i ≡ some s
        → get_elem? st.shared j ≡ some o
        → Returns
            (copy_assign i j st)
            (λ st'. Owns target st' × Deletes s st st' × (st'.shared ≡ set st.shared i o))
    unfolding copy_assign
    assign-apart i j s o apart at at' =
        let test : (i == j) ≡ false = ground arith in
        let (r, run, d) = release-Released target st k small i s at in
        let cut : State A = record st { heap = r.0; shared = set st.shared i null } in
        let there : get_elem? (set st.shared i null) j ≡ some o =
          ground (arith, get_elem?-set st.shared i j null) in
        let empty_i : get_elem? (set st.shared i null) i ≡ some null =
          ground (arith, get_elem?-set st.shared i i null, lt_of_get_elem? st.shared i at) in
        let kept = d.kept null refl in
        let (h, run', (kept', objects)) =
          retain-Owns target cut kept (omega (arith, length-set st.shared i null)) o
            (set (set st.shared i null) i o) (set-Adds o null (set st.shared i null) i empty_i refl)
            (λ b e.
              (kept.shared_aims j b o there e, owner-pos o (set st.shared i null) j b there e)) in
        let twice = set-set st.shared i null o in
        rw (copy_assign, test)
          (Returns-bind _ s _ at (
            Returns-bind _ o _ at' (
              Returns-bind _ r _ run (
                Returns-bind _ h _ run'
                  (_, refl, (rw twice at kept', λ a. ap (λ f. f a) objects ∙ d.objects a, refl))))))

    -- Where the counters count fewer than 2 ^ 64 - 2 variables, copy assignment of a `shared_ptr`
    -- does not fault; the variable takes the handle of the other, the counters count the variables
    -- again, and an assignment to itself deletes nothing, any other only the object that no other
    -- variable owned.
    pub copy_assign-Owns :
        (i j : ℕ) (s o : Handle)
        → get_elem? st.shared i ≡ some s
        → get_elem? st.shared j ≡ some o
        → Returns (copy_assign i j st) (λ st'.
          Owns target st'
          × (st'.shared ≡ set st.shared i o)
          × ((a : ℕ)
              → st'.heap.objects a ≡ (
                  if i == j
                  then st.heap.objects a
                  else if last_owner s st.shared a
                  then none
                  else st.heap.objects a)))
    unfolding copy_assign
    copy_assign-Owns i j s o at at' = elim (ℕ_discrete i j) [
      | yes e ↦
          let test : (i == j) ≡ true = ground arith in
          let same : get_elem? st.shared i ≡ some o = rw e at' in
          (
            st,
            rw (copy_assign, test) refl,
            (k, sym (set-same st.shared i o same), λ a. rw test refl),
          )
      | no ne ↦
          let test : (i == j) ≡ false = ground arith in
          let (st', run, (kept, objects, shared)) = assign-apart i j s o ne at at' in
          (st', run, (kept, shared, λ a. objects a ∙ rw test refl))
    ]

    -- A second owner.
    pub copy-Owns :
        (j : ℕ) (o : Handle)
        → get_elem? st.shared j ≡ some o
        → Returns (SharedPtr.copy j st) (λ st'.
          Owns target st'
          × (st'.shared ≡ st.shared ++ o ∷ [])
          × (st'.heap.objects ≡ st.heap.objects))
    unfolding SharedPtr.copy
    copy-Owns j o at =
        let owned : (b : ℕ)
            → o.control_block ≡ some b
            → (o.ptr ≡ some (target b)) × (0 < owners st.shared b) =
          λ b e. (k.shared_aims j b o at e, owner-pos o st.shared j b at e) in
        let (h, run, (kept, objects)) =
          retain-Owns target st k small o (st.shared ++ o ∷ []) (append-Adds o st.shared) owned in
        Returns-bind _ o _ at (Returns-bind _ h _ run (_, refl, (kept, refl, objects)))
