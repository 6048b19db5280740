-- ===== src/WeakPtr/Observers.antt =====
-- The operations of include/ycetl/weak_ptr.hpp that move observers: no object is touched, and the
-- counters count the variables.
use ycetl.Base.{
  ℕ, ◌+◌, ◌<◌, ◌≡◌, refl, ◌∙◌, ap, false, List, [], ◌∷◌, ◌++◌, none, some, arith, ◌==◌,
  if◌then◌else◌, Returns, Returns-bind, length, length-set, get_elem?, get_elem?-set,
  lt_of_get_elem?, set, Option-cases, inl, inr,
}
use ycetl.Size.{size_mod}
use ycetl.Probe.Scan.{count-le-length}
use ycetl.SharedPtr.{Handle, Heap, State, null, retain_weak, release_weak}
use ycetl.SharedPtr.Counts.{owns, owners, Counts-eq_weak}
use ycetl.SharedPtr.Steps.{retain_weak-Counts, release_weak-Counts}
use ycetl.SharedPtr.Owners.{Owns, Adds, append-Adds, set-Adds, owners-set, Aims-set}
use ycetl.SharedPtr.Laws.{owner-pos, set-set}
use ycetl.WeakPtr
use ycetl.WeakPtr.{observe, reset, point_to, assign_shared, copy_assign}

module _ {A : Type 0} (target : ℕ → ℕ) (st : State A) (k : Owns target st)
    (small : length st.shared + length st.weak + 2 < size_mod) where
  retain_weak-Owns :
      (o : Handle) (ys : List Handle)
      → Adds o st.weak ys
      → ((b : ℕ)
          → o.control_block ≡ some b
          → (o.ptr ≡ some (target b)) × (0 < owners st.shared b + owners st.weak b))
      → Returns
          (retain_weak o.control_block st.heap)
          (λ h. Owns target (record st { heap = h; weak = ys }) × (h.objects ≡ st.heap.objects))
  retain_weak-Owns o ys adds owned = elim (Option-cases o.control_block) [
    | inl null_block ↦
        let same : (b : ℕ) → owners ys b ≡ owners st.weak b =
          λ b. adds.counts b ∙ (rw null_block (omega arith)) in
        (
          st.heap,
          rw null_block (unfold retain_weak in refl),
          (
            record {
              counted =
                  Counts-eq_weak target st.heap (owners st.shared) (owners st.weak) k.counted
                    (owners ys) same;
              shared_aims = k.shared_aims;
              weak_aims = adds.aims target k.weak_aims (λ b e. absurd (cc (null_block, e)));
            },
            refl,
          ),
        )
    | inr (b, e) ↦
        let (aim, pos) = owned b e in
        let grows : (i : ℕ) → owners ys i ≡ owners st.weak i + (if i == b then 1 else 0) =
          λ i. adds.counts i ∙ (rw e refl) in
        let (h, run, (counted, objects, used)) =
          retain_weak-Counts target st.heap (owners st.shared) (owners st.weak) k.counted b
            (owners ys) pos
            (omega (arith, count-le-length (owns b) st.weak, count-le-length (owns b) st.shared))
            grows in
        (
          h,
          rw e run,
          (
            record {
              counted = counted;
              shared_aims = k.shared_aims;
              weak_aims = adds.aims target k.weak_aims (λ b' e'. (owned b' e').0);
            },
            objects,
          ),
        )
  ]

  -- What `release_weak` of variable `i` leaves: the variable takes a value without a block.
  record Released (i : ℕ) (r : Heap A × Handle) : Type 0 where
    kept :
        (s' : Handle)
        → s'.control_block ≡ none
        → Owns target (record st { heap = r.0; weak = set st.weak i s' })
    objects : r.0.objects ≡ st.heap.objects
    released : r.1.control_block ≡ none

  release-block :
      (i b : ℕ) (w : Handle)
      → get_elem? st.weak i ≡ some w
      → w.control_block ≡ some b
      → Returns (release_weak (record { control_block = some b; ptr = w.ptr }) st.heap) (Released i)
  release-block i b w at e =
      let less : (c : ℕ)
          → owners (set st.weak i null) c + (if c == b then 1 else 0) ≡ owners st.weak c =
        λ c. rw e at (owners-set w null st.weak i at refl c) in
      let (r, run, (counted, objects, used, gone)) =
        release_weak-Counts target st.heap (owners st.shared) (owners st.weak) k.counted b
          (owners (set st.weak i null)) w.ptr (omega (arith, count-le-length (owns b) st.weak))
          less in
      (
        r,
        run,
        record {
          kept = λ s' e'. record {
            counted =
                Counts-eq_weak target r.0 (owners st.shared) (owners (set st.weak i null)) counted
                  (owners (set st.weak i s'))
                  (λ c. omega (
                    arith,
                    owners-set w s' st.weak i at e' c,
                    owners-set w null st.weak i at refl c,
                  ));
            shared_aims = k.shared_aims;
            weak_aims = Aims-set w s' st.weak i at e' target k.weak_aims;
          };
          objects = objects;
          released = ap (λ (s : Handle). s.control_block) gone;
        },
      )

  release-Released :
      (i : ℕ) (w : Handle)
      → get_elem? st.weak i ≡ some w
      → Returns (release_weak w st.heap) (Released i)
  unfolding release_weak
  release-Released i w at = elim (Option-cases w.control_block) [
    | inl e ↦ (
      (st.heap, w),
      rw e refl,
      record {
        kept = λ s' e'. record {
          counted =
              Counts-eq_weak target st.heap (owners st.shared) (owners st.weak) k.counted
                (owners (set st.weak i s'))
                (λ b.
                  let not_owned : owns b w ≡ false = rw e refl in
                  ground (arith, owners-set w s' st.weak i at e' b));
          shared_aims = k.shared_aims;
          weak_aims = Aims-set w s' st.weak i at e' target k.weak_aims;
        };
        objects = refl;
        released = e;
      },
    )
    | inr (b, e) ↦
        let (r, run, d) = release-block i b w at e in
        (r, ap (λ p. release_weak (record { control_block = p; ptr = w.ptr }) st.heap) e ∙ run, d)
  ]

  -- The variable lets go of its block, and no object is touched.
  pub reset-Owns :
      (i : ℕ) (w : Handle)
      → get_elem? st.weak i ≡ some w
      → Returns (reset i st) (λ st'. Owns target st' × (st'.heap.objects ≡ st.heap.objects))
  unfolding reset
  reset-Owns i w at =
      let (r, run, d) = release-Released i w at in
      Returns-bind _ w _ at (Returns-bind _ r _ run (_, refl, (d.kept r.1 d.released, d.objects)))

  -- An observer of what a variable owns.
  pub observe-Owns :
      (j : ℕ) (s : Handle)
      → get_elem? st.shared j ≡ some s
      → Returns (observe j st) (λ st'.
        Owns target st' × (st'.weak ≡ st.weak ++ s ∷ []) × (st'.heap.objects ≡ st.heap.objects))
  unfolding observe
  observe-Owns j s at =
      let (h, run, (kept, objects)) =
        retain_weak-Owns s (st.weak ++ s ∷ []) (append-Adds s st.weak)
          (λ b e. (k.shared_aims j b s at e, omega (arith, owner-pos s st.shared j b at e))) in
      Returns-bind _ s _ at (Returns-bind _ h _ run (_, refl, (kept, refl, objects)))

  -- A second observer.
  pub copy-Owns :
      (j : ℕ) (o : Handle)
      → get_elem? st.weak j ≡ some o
      → Returns (WeakPtr.copy j st) (λ st'.
        Owns target st' × (st'.weak ≡ st.weak ++ o ∷ []) × (st'.heap.objects ≡ st.heap.objects))
  unfolding WeakPtr.copy
  copy-Owns j o at =
      let (h, run, (kept, objects)) =
        retain_weak-Owns o (st.weak ++ o ∷ []) (append-Adds o st.weak)
          (λ b e. (k.weak_aims j b o at e, omega (arith, owner-pos o st.weak j b at e))) in
      Returns-bind _ o _ at (Returns-bind _ h _ run (_, refl, (kept, refl, objects)))

module _ {A : Type 0} (target : ℕ → ℕ) (st : State A) (k : Owns target st)
    (small : length st.shared + length st.weak + 2 < size_mod) where
  point_to-Owns :
      (i : ℕ) (w o : Handle)
      → get_elem? st.weak i ≡ some w
      → ((b : ℕ)
          → o.control_block ≡ some b
          → (o.ptr ≡ some (target b)) × (0 < owners st.shared b + owners (set st.weak i null) b))
      → Returns (point_to i o st) (λ st'.
        Owns target st' × (st'.weak ≡ set st.weak i o) × (st'.heap.objects ≡ st.heap.objects))
  unfolding point_to
  point_to-Owns i w o at owned =
      let (r, run, d) = release-Released target st k small i w at in
      let cut : State A = record st { heap = r.0; weak = set st.weak i null } in
      let empty_i : get_elem? (set st.weak i null) i ≡ some null =
        ground (arith, get_elem?-set st.weak i i null, lt_of_get_elem? st.weak i at) in
      let (h, run', (kept, objects)) =
        retain_weak-Owns target cut (d.kept null refl) (omega (arith, length-set st.weak i null)) o
          (set (set st.weak i null) i o) (set-Adds o null (set st.weak i null) i empty_i refl)
          owned in
      let twice = set-set st.weak i null o in
      Returns-bind _ w _ at (
        Returns-bind _ r _ run
          (Returns-bind _ h _ run' (_, refl, (rw twice at kept, refl, objects ∙ d.objects))))

  -- The variable observes what a variable owns, and no object is touched.
  pub assign_shared-Owns :
      (i j : ℕ) (w s : Handle)
      → get_elem? st.weak i ≡ some w
      → get_elem? st.shared j ≡ some s
      → Returns (assign_shared i j st) (λ st'.
        Owns target st' × (st'.weak ≡ set st.weak i s) × (st'.heap.objects ≡ st.heap.objects))
  unfolding assign_shared
  assign_shared-Owns i j w s at at' = Returns-bind _ s _ at' (
      point_to-Owns i w s at
        (λ b e. (k.shared_aims j b s at' e, omega (arith, owner-pos s st.shared j b at' e))))
