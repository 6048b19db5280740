-- ===== src/SharedPtr/Owners.antt =====
-- The variables that own and observe the objects of include/ycetl/shared_ptr.hpp and
-- include/ycetl/weak_ptr.hpp, and what a release and a retention do to them.
use ycetl.Base.{
  ℕ, ◌+◌, ◌<◌, ◌≡◌, refl, ◌∙◌, sym, ap, Bool, false, List, [], ◌∷◌, ◌++◌, none, some, arith, ◌==◌,
  if◌then◌else◌, Returns, Option-cases, inl, inr, get_elem?, length, set, get_elem?-set,
  lt_of_get_elem?,
}
use native.Mathlib.Decide.{ℕ_discrete}
use ycetl.Size.{size_mod}
use ycetl.Sequence.{get_elem?-snoc}
use ycetl.Probe.Scan.{count, count-set, count-snoc, count-le-length}
use ycetl.SharedPtr.{Handle, Heap, State, null, release_strong, retain_strong, drop_strong}
use ycetl.SharedPtr.Counts.{Counts, Counts-eq, owns, owners}
use ycetl.SharedPtr.Steps.{retain_strong-Counts, drop_strong-Drops}

-- Every variable with a block points at the object of the block.
abbrev pub Aims : (ℕ → ℕ) → List Handle → Type 0
Aims target xs =
    (i b : ℕ) (s : Handle)
    → get_elem? xs i ≡ some s
    → s.control_block ≡ some b
    → s.ptr ≡ some (target b)

-- The object goes when the handle is released: no other variable owns its block.
abbrev pub last_owner : Handle → List Handle → ℕ → Bool
last_owner s xs a = elim s.control_block [
  | none ↦ false
  | some b ↦ if owners xs b == 1 then elim s.ptr [ none ↦ false | some p ↦ a == p ] else false
]

-- The handle is added to the variables.
pub record Adds (o : Handle) (xs ys : List Handle) : Type 0 where
  pub counts : (b : ℕ) → owners ys b ≡ owners xs b + (if owns b o then 1 else 0)
  pub aims :
      (target : ℕ → ℕ)
      → Aims target xs
      → ((b : ℕ) → o.control_block ≡ some b → o.ptr ≡ some (target b))
      → Aims target ys

pub append-Adds : (o : Handle) (xs : List Handle) → Adds o xs (xs ++ o ∷ [])
append-Adds o xs = record {
  counts = λ b. count-snoc (owns b) xs o ∙ unfold count in ground arith;
  aims = λ target aims aim i b s at e. elim (ℕ_discrete i (length xs)) [
    | yes end ↦
        let same : s ≡ o = ground (arith, get_elem?-snoc xs o i) in
        rw same (aim b (sym (ap (λ (h : Handle). h.control_block) same) ∙ e))
    | no ne ↦ aims i b s (ground (arith, get_elem?-snoc xs o i)) e
  ];
}

-- A variable without a block takes the handle.
pub set-Adds :
    (o s : Handle) (xs : List Handle) (i : ℕ)
    → get_elem? xs i ≡ some s
    → s.control_block ≡ none
    → Adds o xs (set xs i o)
set-Adds o s xs i at e = record {
  counts = λ b.
      let not_owned : owns b s ≡ false = rw e refl in
      ground (arith, count-set (owns b) xs i s o at);
  aims = λ target aims aim j b t at' e'. elim (ℕ_discrete j i) [
    | yes same_index ↦
        let same : t ≡ o = ground (arith, get_elem?-set xs i j o, lt_of_get_elem? xs i at) in
        rw same (aim b (sym (ap (λ (h : Handle). h.control_block) same) ∙ e'))
    | no ne ↦ aims j b t (ground (arith, get_elem?-set xs i j o)) e'
  ];
}

last_owner-block :
    (s : Handle) (b p : ℕ) (xs : List Handle) (a : ℕ)
    → s.control_block ≡ some b
    → s.ptr ≡ some p
    → last_owner s xs a ≡ (if owners xs b == 1 then a == p else false)
last_owner-block s b p xs a e aim = rw (e, aim) refl

-- A variable loses its block.
module _ (s s' : Handle) (xs : List Handle) (i : ℕ) (at : get_elem? xs i ≡ some s)
    (e : s'.control_block ≡ none) where
  pub owners-set : (b : ℕ) → owners (set xs i s') b + (if owns b s then 1 else 0) ≡ owners xs b
  owners-set b =
      let not_owned : owns b s' ≡ false = rw e refl in
      ground (arith, count-set (owns b) xs i s s' at)

  pub Aims-set : (target : ℕ → ℕ) → Aims target xs → Aims target (set xs i s')
  Aims-set target aims j b t at' e' = elim (ℕ_discrete j i) [
    | yes same_index ↦
        let same : t ≡ s' = ground (arith, get_elem?-set xs i j s', lt_of_get_elem? xs i at) in
        absurd (cc (ap (λ (h : Handle). h.control_block) same, e, e'))
    | no ne ↦ aims j b t (ground (arith, get_elem?-set xs i j s')) e'
  ]

module _ {A : Type 0} where
  -- The counters of the blocks count the variables.
  pub record Owns (target : ℕ → ℕ) (st : State A) : Type 0 where
    pub counted : Counts target st.heap (owners st.shared) (owners st.weak)
    pub shared_aims : Aims target st.shared
    pub weak_aims : Aims target st.weak

  module _ (target : ℕ → ℕ) (st : State A) (k : Owns target st)
      (small : length st.shared + length st.weak + 2 < size_mod) where
    -- A new variable without a block.
    pub null-Owns : Owns target (record st { shared = st.shared ++ null ∷ [] })
    null-Owns =
        let adds = append-Adds null st.shared in
        record {
          counted =
              Counts-eq target st.heap (owners st.shared) (owners st.weak) k.counted
                (owners (st.shared ++ null ∷ [])) (λ b. adds.counts b ∙ omega arith);
          shared_aims = adds.aims target k.shared_aims (λ b e. absurd (cc e));
          weak_aims = k.weak_aims;
        }

    -- A new owner of a block that has one.
    pub retain-Owns :
        (o : Handle) (ys : List Handle)
        → Adds o st.shared ys
        → ((b : ℕ)
            → o.control_block ≡ some b
            → (o.ptr ≡ some (target b)) × (0 < owners st.shared b))
        → Returns
            (retain_strong o.control_block st.heap)
            (λ h. Owns target (record st { heap = h; shared = ys }) × (h.objects ≡ st.heap.objects))
    retain-Owns o ys adds owned = elim (Option-cases o.control_block) [
      | inl null_block ↦
          let same : (b : ℕ) → owners ys b ≡ owners st.shared b =
            λ b. adds.counts b ∙ (rw null_block (omega arith)) in
          (
            st.heap,
            rw null_block (unfold retain_strong in refl),
            (
              record {
                counted =
                    Counts-eq target st.heap (owners st.shared) (owners st.weak) k.counted
                      (owners ys) same;
                shared_aims = adds.aims target k.shared_aims (λ b e. absurd (cc (null_block, e)));
                weak_aims = k.weak_aims;
              },
              refl,
            ),
          )
      | inr (b, e) ↦
          let (aim, pos) = owned b e in
          let grows : (i : ℕ) → owners ys i ≡ owners st.shared i + (if i == b then 1 else 0) =
            λ i. adds.counts i ∙ (rw e refl) in
          let (h, run, (counted, objects, used)) =
            retain_strong-Counts target st.heap (owners st.shared) (owners st.weak) k.counted b
              (owners ys) pos (omega (arith, count-le-length (owns b) st.shared)) grows in
          (
            h,
            rw e run,
            (
              record {
                counted = counted;
                shared_aims = adds.aims target k.shared_aims (λ b' e'. (owned b' e').0);
                weak_aims = k.weak_aims;
              },
              objects,
            ),
          )
    ]

    release_strong-block :
        (s : Handle) (b a : ℕ) (h : Heap A)
        → s.control_block ≡ some b
        → s.ptr ≡ some a
        → release_strong s h ≡ drop_strong b (some a) h
    unfolding release_strong
    release_strong-block s b a h e aim i =
        release_strong (record { control_block = e i; ptr = aim i }) h

    -- What `release_strong` of variable `i` leaves: the variable takes a value without a block.
    pub record Released (i : ℕ) (s : Handle) (r : Heap A × Handle) : Type 0 where
      pub kept :
          (s' : Handle)
          → s'.control_block ≡ none
          → Owns target (record st { heap = r.0; shared = set st.shared i s' })
      pub objects :
          (a : ℕ) → r.0.objects a ≡ (if last_owner s st.shared a then none else st.heap.objects a)
      pub released : r.1.control_block ≡ none

    release-block :
        (i : ℕ) (s : Handle) (b : ℕ)
        → get_elem? st.shared i ≡ some s
        → s.control_block ≡ some b
        → s.ptr ≡ some (target b)
        → Returns (drop_strong b (some (target b)) st.heap) (Released i s)
    release-block i s b at e aim =
        let less : (c : ℕ)
            → owners (set st.shared i null) c + (if c == b then 1 else 0) ≡ owners st.shared c =
          λ c. rw e at (owners-set s null st.shared i at refl c) in
        let (r, run, d) =
          drop_strong-Drops target st.heap (owners st.shared) (owners st.weak) k.counted b
            (owners (set st.shared i null)) (omega (arith, count-le-length (owns b) st.shared))
            (omega (arith, count-le-length (owns b) st.weak)) less in
        (
          r,
          run,
          record {
            kept = λ s' e'. record {
              counted =
                  Counts-eq target r.0 (owners (set st.shared i null)) (owners st.weak) d.counted
                    (owners (set st.shared i s'))
                    (λ c. omega (
                      arith,
                      owners-set s s' st.shared i at e' c,
                      owners-set s null st.shared i at refl c,
                    ));
              shared_aims = Aims-set s s' st.shared i at e' target k.shared_aims;
              weak_aims = k.weak_aims;
            };
            objects = λ a.
                d.objects a
                ∙ (let l = last_owner-block s b (target b) st.shared a e aim in
                    rw l (ground (arith, less b)));
            released = d.released;
          },
        )

    pub release-Released :
        (i : ℕ) (s : Handle)
        → get_elem? st.shared i ≡ some s
        → Returns (release_strong s st.heap) (Released i s)
    unfolding release_strong
    release-Released i s at = elim (Option-cases s.control_block) [
      | inl null_block ↦ (
        (st.heap, s),
        rw null_block refl,
        record {
          kept = λ s' e'. record {
            counted =
                Counts-eq target st.heap (owners st.shared) (owners st.weak) k.counted
                  (owners (set st.shared i s'))
                  (λ b.
                    let not_owned : owns b s ≡ false = rw null_block refl in
                    ground (arith, owners-set s s' st.shared i at e' b));
            shared_aims = Aims-set s s' st.shared i at e' target k.shared_aims;
            weak_aims = k.weak_aims;
          };
          objects = λ a. rw null_block refl;
          released = null_block;
        },
      )
      | inr (b, e) ↦
          let aim = k.shared_aims i b s at e in
          let (r, run, d) = release-block i s b at e aim in
          (r, release_strong-block s b (target b) st.heap e aim ∙ run, d)
    ]
