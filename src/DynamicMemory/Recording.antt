-- ===== src/DynamicMemory/Recording.antt =====
-- The array of recorded allocations of include/ycetl/typed_dynamic_memory.hpp: that it has room.
use ycetl.Base.{
  ℕ, zero, suc, ◌+◌, ◌*◌, ◌^◌, ◌≤◌, ◌<◌, ◌≡◌, refl, ◌∙◌, sym, ap, true, false, List, [], ◌∷◌, ◌++◌,
  some, arith, ◌==◌, ltb, leb, ◌>>=◌, Returns, get_elem?, get_elem?-some, get_elem?-set, length,
  length-set, length-replicate, lt_of_get_elem?, lt→ltb, Bool-cases, inl, inr, set, replicate,
}
use ycetl.Sequence.{get_elem?-snoc}
use mathlib.Core.Option.{some-injective}
use ycetl.Size.{mul_size}
use ycetl.DynamicMemory.{
  SizeAndPointer, Backend, unset, new, copy_entries, grow_vector, ensure_slot,
}

-- What the array has for a block: its address and its size.
abbrev pub entry : ℕ × ℕ → SizeAndPointer
entry b = record { ptr = some b.0; size = b.1 }

-- The array has the blocks, one after the other from its start.
pub record Records (v : List SizeAndPointer) (blocks : List (ℕ × ℕ)) : Type 0 where
  pub entries : (i : ℕ) (b : ℕ × ℕ) → get_elem? blocks i ≡ some b → get_elem? v i ≡ some (entry b)

-- The array of a backend with so many blocks, with what its counters say.
pub record Recorded (b : Backend) (v : List SizeAndPointer) (blocks : List (ℕ × ℕ)) : Type 0 where
  pub vector : b.vector ≡ some v
  pub records : Records v blocks
  pub width : length v ≡ b.vector_size
  pub taken : b.slots_taken ≡ length blocks
  pub fits : length blocks ≤ b.vector_size
  pub some_room : 0 < b.vector_size
  pub most : b.vector_size ≤ 100 + 2 * length blocks

-- The backend has recorded the blocks: it is new, and there are none, or it has an array of them.
pub data IsRecord (b : Backend) (blocks : List (ℕ × ℕ)) : Type 0 where
  untouched : b ≡ new → blocks ≡ [] → IsRecord b blocks
  kept : {v : List SizeAndPointer} → Recorded b v blocks → IsRecord b blocks

-- The loop ends, and the first entries are those of the old array.
copy_entries-same :
    (old w : List SizeAndPointer) (i rounds : ℕ)
    → i + rounds ≤ length old
    → length old ≤ length w
    → ((j : ℕ) → j < i → get_elem? w j ≡ get_elem? old j)
    → Returns
        (copy_entries old w i rounds)
        λ w'. (length w' ≡ length w) × ((j : ℕ) → j < i + rounds → get_elem? w' j ≡ get_elem? old j)
unfolding copy_entries
copy_entries-same old w i zero le wide same = (w, refl, (refl, λ j lt. same j (omega arith)))
copy_entries-same old w i (suc rounds) le wide same =
    let (e, at) = get_elem?-some old i (omega arith) in
    let inside : ltb i (length w) ≡ true = lt→ltb i (length w) (omega arith) in
    let (w', run, (len, rest)) =
      copy_entries-same old (set w i e) (i + 1) rounds (omega arith)
        (omega (arith, length-set w i e))
        (λ j lt. get_elem?-set w i j e ∙ ground (arith, inside, same j, at)) in
    (w', rw (at, ◌>>=◌, inside) run, (len ∙ length-set w i e, λ j lt. rest j (omega arith)))

-- With room for one more.
pub record Ready (b : Backend) (blocks : List (ℕ × ℕ)) : Type 0 where
  pub vector : List SizeAndPointer
  pub recorded : Recorded b vector blocks
  pub room : length blocks < length vector

grow_vector-Ready :
    (b : Backend) (v : List SizeAndPointer) (blocks : List (ℕ × ℕ))
    → Recorded b v blocks
    → length blocks < 2 ^ 62
    → b.vector_size ≤ length blocks
    → Returns (grow_vector b) (λ b'. Ready b' blocks)
unfolding grow_vector
grow_vector-Ready b v blocks r small full =
    let n = mul_size b.vector_size 2 in
    let twice : n ≡ 2 * b.vector_size = omega (arith, r.fits) in
    let len = length-replicate n unset in
    let (w, run, (len', same)) =
      copy_entries-same v (replicate n unset) 0 b.vector_size (omega (arith, r.width))
        (omega (arith, len, r.width)) (λ j lt. absurd (omega arith)) in
    (
      record b { vector = some w; vector_size = n },
      rw (r.vector, ◌>>=◌, run) refl,
      record {
        vector = w;
        recorded = record {
          vector = refl;
          records = record {
            entries = λ i e at.
                same i (omega (arith, lt_of_get_elem? blocks i at, r.fits))
                ∙ r.records.entries i e at;
          };
          width = len' ∙ len;
          taken = r.taken;
          fits = omega (arith, r.fits);
          some_room = omega (arith, r.some_room);
          most = omega (arith, r.fits);
        };
        room = omega (arith, len, len', r.fits, r.some_room);
      },
    )

ensure_slot-new : Returns (ensure_slot new) (λ b'. Ready b' [])
unfolding ensure_slot
ensure_slot-new =
    let len = length-replicate 100 unset in
    (
      _,
      refl,
      record {
        vector = replicate 100 unset;
        recorded = record {
          vector = refl;
          records = record { entries = λ i e at. absurd (cc at) };
          width = len;
          taken = refl;
          fits = omega arith;
          some_room = omega arith;
          most = omega arith;
        };
        room = omega (arith, len);
      },
    )

pub ensure_slot-Ready :
    (b : Backend) (blocks : List (ℕ × ℕ))
    → IsRecord b blocks
    → length blocks < 2 ^ 62
    → Returns (ensure_slot b) (λ b'. Ready b' blocks)
unfolding ensure_slot
ensure_slot-Ready b blocks (untouched e none_yet) small = rw (e, none_yet) ensure_slot-new
ensure_slot-Ready b blocks (kept {v} r) small =
    let used : (b.vector_size == 0) ≡ false = ground (arith, r.some_room) in
    elim (Bool-cases (leb b.vector_size b.slots_taken)) [
      | inl full ↦ rw (used, full) (grow_vector-Ready b v blocks r small (ground (arith, r.taken)))
      | inr free ↦ (
        b,
        rw (used, free) refl,
        record { vector = v; recorded = r; room = ground (arith, r.taken, r.width) },
      )
    ]

-- The next entry is written past the others.
pub Records-snoc :
    (v : List SizeAndPointer) (blocks : List (ℕ × ℕ)) (b : ℕ × ℕ)
    → Records v blocks
    → length blocks < length v
    → Records (set v (length blocks) (entry b)) (blocks ++ b ∷ [])
Records-snoc v blocks b r lt = record {
  entries = λ i c at.
      let inside : ltb (length blocks) (length v) ≡ true = lt→ltb _ _ lt in
      let split = sym (get_elem?-snoc blocks b i) ∙ at in
      get_elem?-set v (length blocks) i (entry b) ∙ elim (Bool-cases (ltb i (length blocks))) [
        | inl before ↦
            let other : (length blocks == i) ≡ false = ground arith in
            rw other (r.entries i c (rw before at split))
        | inr after ↦ elim (Bool-cases (i == length blocks)) [
          | inl last ↦
              let here : (length blocks == i) ≡ true = ground arith in
              let same : b ≡ c = some-injective _ _ (rw (after, last) at split) in
              rw (here, inside) (ap (λ x. some (entry x)) same)
          | inr past ↦ absurd (cc (rw (after, past) at split))
        ]
      ];
}
