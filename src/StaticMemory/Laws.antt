-- ===== src/StaticMemory/Laws.antt =====
-- What the allocator of include/ycetl/typed_static_memory.hpp hands out.
use ycetl.Base.{
  ℕ, ◌+◌, ◌-◌, ◌≤◌, ◌<◌, ◌≡◌, refl, ◌∙◌, ◌⊎◌, inl, inr, true, List, [], ◌∷◌, some, arith, ◌==◌, ltb,
  ◌>>=◌, if◌then◌else◌, Returns, length, set, length-set, get_elem?-set, lt→ltb, Bool-cases, ltb→lt,
  ltb→le,
}
use ycetl.Size.{add_size, sub_size}
use ycetl.StaticMemory.{StaticMemory, capacity, remaining_size, allocate, allocate_all, load, store}

-- Apart from null pointers, each block of at least one element starts where the one before ends, or
-- further on, from `low` up to `high`.
pub Ordered : (low high : ℕ) → List (ℕ × ℕ) → Type 0
Ordered low high [] = low ≤ high
Ordered low high (b ∷ blocks) =
    ((b.0 ≡ 0) × Ordered low high blocks)
    ⊎ ((0 < b.1) × (low ≤ b.0) × Ordered (b.0 + b.1) high blocks)

module _ {A : Type 0} where
  -- The storage has its fixed length, and the offset stands in it or at its end, past index 0.
  pub record IsMemory (m : StaticMemory A) : Type 0 where
    pub storage : length m.storage ≡ 1025
    pub low : 1 ≤ m.offset
    pub high : m.offset ≤ 1025

  -- What an allocation of `size` makes of `m`.
  pub record Allocated (size : ℕ) (m m' : StaticMemory A) (pointer : ℕ) : Type 0 where
    pub kept : IsMemory m'
    pub same : m'.storage ≡ m.storage
    pub outcome :
        ((pointer ≡ 0) × (m'.offset ≡ m.offset) × ((size ≡ 0) ⊎ (1025 < m.offset + size)))
        ⊎ ((0 < size) × (pointer ≡ m.offset) × (m'.offset ≡ m.offset + size))

  -- On a memory whose offset stands within its storage, an allocation keeps the storage and leaves
  -- such a memory; it returns the null pointer and keeps the offset exactly if the size is zero or
  -- does not fit, and the old offset, moved on by the size, if it does.
  pub allocate-Allocated :
      (size : ℕ) (m : StaticMemory A)
      → IsMemory m
      → Allocated size m (allocate size m).0 (allocate size m).1
  unfolding allocate remaining_size
  allocate-Allocated size m h =
      let left : sub_size capacity m.offset ≡ 1025 - m.offset = omega (arith, h.low, h.high) in
      elim (Bool-cases (size == 0)) [
        | inl t ↦
            let nothing : size ≡ 0 = ground arith in
            rw t (record { kept = h; same = refl; outcome = inl (refl, refl, inl nothing) })
        | inr t ↦ elim (Bool-cases (ltb (1025 - m.offset) size)) [
          | inl u ↦
              let over = ltb→lt _ _ u in
              rw (t, left, u)
                (record {
                  kept = h;
                  same = refl;
                  outcome = inl (refl, refl, inr (omega (arith, h.high)));
                })
          | inr u ↦
              let fits = ltb→le _ _ u in
              let pos : 0 < size = ground arith in
              let wrap : add_size m.offset size ≡ m.offset + size = omega (arith, h.high) in
              rw (t, left, u, wrap)
                (record {
                  kept = record {
                    storage = h.storage;
                    low = omega (arith, h.low);
                    high = omega (arith, h.high);
                  };
                  same = refl;
                  outcome = inr (pos, refl, refl);
                })
        ]
      ]

  -- On a memory whose offset stands within its storage, any sequence of allocations leaves such a
  -- memory, and, apart from null pointers, each block has at least one element and starts where the
  -- one before ends, or further on, between the old offset and the new one: no two blocks overlap.
  pub allocate_all-Ordered :
      (sizes : List ℕ) (m : StaticMemory A)
      → IsMemory m
      → IsMemory (allocate_all sizes m).0
        × Ordered m.offset (allocate_all sizes m).0.offset (allocate_all sizes m).1
  unfolding allocate_all Ordered
  allocate_all-Ordered [] m h = (h, omega arith)
  allocate_all-Ordered (size ∷ sizes) m h =
      let a = allocate-Allocated size m h in
      let (kept, rest) = allocate_all-Ordered sizes (allocate size m).0 a.kept in
      (
        kept,
        elim a.outcome [
          | inl (null, stays, why) ↦ inl (null, rw stays at rest)
          | inr (pos, here, moves) ↦
              let next : (allocate size m).0.offset ≡ (allocate size m).1 + size =
                omega (arith, here, moves) in
              inr (pos, omega (arith, here), rw next at rest)
        ],
      )

  -- An assignment within the storage is read back, and changes no other element.
  pub load-store :
      (p i q j : ℕ) (v : A) (m : StaticMemory A)
      → IsMemory m
      → p + i < 1025
      → q + j < 1025
      → Returns
          (store p i v m)
          λ m'. IsMemory m' × (load q j m' ≡ (if p + i == q + j then some v else load q j m))
  unfolding load store
  load-store p i q j v m h inside inside' =
      let here : add_size p i ≡ p + i = omega arith in
      let there : add_size q j ≡ q + j = omega arith in
      let writes : ltb (p + i) (length m.storage) ≡ true =
        lt→ltb (p + i) (length m.storage) (omega (arith, h.storage)) in
      let kept = length-set m.storage (p + i) v in
      (
        record m { storage = set m.storage (p + i) v },
        rw (here, writes, ◌>>=◌),
        (
          record { storage = kept ∙ h.storage; low = h.low; high = h.high },
          rw (there, get_elem?-set m.storage (p + i) (q + j) v) (ground arith),
        ),
      )
