-- ===== src/UniquePtr/Laws.antt =====
-- The operations of include/ycetl/unique_ptr.hpp: every object has one owner.
use ycetl.Base.{
  ℕ, ◌≡◌, ◌≢◌, refl, ◌∙◌, ap, false, Option, none, some, arith, ◌==◌, if◌then◌else◌, Returns,
  get_elem?, get_elem?-set, set, lt_of_get_elem?, length-set,
}
use native.Mathlib.Decide.{ℕ_discrete}
use ycetl.UniquePtr.{Pointer, State, delete_old, reset, move_assign}

module _ {A : Type 0} where
  -- Every variable that is not null points at an object that no other variable points at.
  pub record Owns (st : State A) : Type 0 where
    pub live :
        (i a : ℕ) → get_elem? st.pointers i ≡ some (some a) → (v : A) × (st.objects a ≡ some v)
    pub apart :
        (i j a : ℕ)
        → get_elem? st.pointers i ≡ some (some a)
        → get_elem? st.pointers j ≡ some (some a)
        → i ≡ j

  -- What the deletion of the old object leaves.
  abbrev pub without : Pointer → (ℕ → Option A) → ℕ → Option A
  without none objects a = objects a
  without (some b) objects a = if a == b then none else objects a

  module _ (st : State A) (k : Owns st) (i j : ℕ) (old p : Pointer)
      (at : get_elem? st.pointers i ≡ some old) (at' : get_elem? st.pointers j ≡ some p)
      (ne : i ≢ j) where
    abbrev moved : State A
    moved = record { objects = without old st.objects; pointers = set (set st.pointers i p) j none }

    -- Where the pointer of a variable was.
    origin :
        (l a : ℕ)
        → get_elem? moved.pointers l ≡ some (some a)
        → (m : ℕ) × (get_elem? st.pointers m ≡ some (some a))
          × (m ≢ i)
          × (m ≡ (if l == i then j else l))
          × (l ≢ j)
    origin l a e =
        let i_lt = lt_of_get_elem? st.pointers i at in
        let j_lt = lt_of_get_elem? st.pointers j at' in
        let same_length = length-set st.pointers i p in
        let there : l ≢ j = ground (arith, get_elem?-set (set st.pointers i p) j l none) in
        let before : get_elem? (set st.pointers i p) l ≡ some (some a) =
          ground (arith, get_elem?-set (set st.pointers i p) j l none) in
        elim (ℕ_discrete l i) [
          | yes e' ↦ (
            j,
            ground (arith, get_elem?-set st.pointers i l p),
            ground arith,
            ground arith,
            there,
          )
          | no ne' ↦ (l, ground (arith, get_elem?-set st.pointers i l p), ne', ground arith, there)
        ]

    moved-Owns : Owns moved
    moved-Owns = record {
      live = λ l a e.
          let (m, f, apart, g, there) = origin l a e in
          let (v, kept) = k.live m a f in (v, spared old m a v at f apart kept);
      apart = λ l l' a e e'.
          let (m, f, _, g, there) = origin l a e in
          let (m', f', _, g', there') = origin l' a e' in
          let same = k.apart m m' a f f' in ground arith;
    }
      where
        spared :
            (q : Pointer) (m a : ℕ) (v : A)
            → get_elem? st.pointers i ≡ some q
            → get_elem? st.pointers m ≡ some (some a)
            → m ≢ i
            → st.objects a ≡ some v
            → without q st.objects a ≡ some v
        spared none m a v here f apart kept = kept
        spared (some b) m a v here f apart kept = elim (ℕ_discrete a b) [
          | yes e ↦ absurd (apart (k.apart m i b (f ∙ ap (λ c. some (some c)) e) here))
          | no ne' ↦ let other : (a == b) ≡ false = ground arith in rw other kept
        ]

    delete_old-run :
        (q : Pointer)
        → get_elem? st.pointers i ≡ some q
        → delete_old q (record { objects = st.objects; pointers = set st.pointers i p })
          ≡ some (record { objects = without q st.objects; pointers = set st.pointers i p })
    delete_old-run none e = refl
    delete_old-run (some b) e = let (v, there) = k.live i b e in rw there refl

    -- Where every `unique_ptr` that is not null has an object of its own, move assignment between
    -- two of them does not fault and keeps this; the pointer moves, the other variable is null, and
    -- of the objects only that of the assigned variable is deleted.
    pub move_assign-Owns : Returns (move_assign i j st) (λ st'.
        Owns st'
        × (st'.pointers ≡ set (set st.pointers i p) j none)
        × ((a : ℕ) → st'.objects a ≡ without old st.objects a))
    unfolding move_assign reset
    move_assign-Owns =
        let test : (i == j) ≡ false = ground arith in
        let cut = delete_old-run old at in
        rw (move_assign, test, at', at, cut) (moved, refl, (moved-Owns, refl, λ a. refl))
