-- ===== src/SharedPtr/Counts.antt =====
-- What the counters of a control block count, and how the steps of include/ycetl/shared_ptr.hpp
-- and include/ycetl/weak_ptr.hpp keep them.
use ycetl.Base.{
  ℕ, ◌+◌, ◌<◌, ◌≤◌, ◌≡◌, ◌≢◌, ◌∙◌, Bool, false, List, Option, none, some, arith, ◌==◌,
  if◌then◌else◌, Option-cases, inl, inr,
}
use native.Mathlib.Decide.{ℕ_discrete}
use ycetl.Probe.Scan.{count}
use ycetl.SharedPtr.{ControlBlock, Handle, Heap}

abbrev pub owns : ℕ → Handle → Bool
owns b s = elim s.control_block [ none ↦ false | some c ↦ b == c ]

-- How many variables have a block.
abbrev pub owners : List Handle → ℕ → ℕ
owners xs b = count (owns b) xs

-- A block that is there counts its owners, and its observers and one more while it has an owner;
-- one that is not there has neither.
unfoldable pub Fits : Option ControlBlock → (strong weak : ℕ) → Type 0
Fits none s w = (s ≡ 0) × (w ≡ 0)
Fits (some c) s w =
    (c.ref_count ≡ s) × (c.weak_count ≡ w + (if s == 0 then 0 else 1)) × (0 < c.weak_count)

module _ {A : Type 0} where
  -- Every block fits its owners and observers, and one with an owner has an object, `target b`,
  -- that no other such block has.
  pub record Counts (target : ℕ → ℕ) (h : Heap A) (strong weak : ℕ → ℕ) : Type 0 where
    pub fits : (b : ℕ) → Fits (h.blocks b) (strong b) (weak b)
    pub object : (b : ℕ) → 0 < strong b → (v : A) × (h.objects (target b) ≡ some v)
    pub apart : (b c : ℕ) → 0 < strong b → 0 < strong c → target b ≡ target c → b ≡ c
    pub fresh : (b : ℕ) → h.used ≤ b → strong b + weak b ≡ 0

  module _ (target : ℕ → ℕ) (h : Heap A) (strong weak : ℕ → ℕ) (k : Counts target h strong weak)
      (b : ℕ) where
    pub block-live :
        0 < strong b + weak b
        → (c : ControlBlock) × (h.blocks b ≡ some c) × Fits (some c) (strong b) (weak b)
    unfolding Fits
    block-live pos = elim (Option-cases (h.blocks b)) [
      | inl gone ↦ let (s, w) = rw gone at (k.fits b) in absurd (omega arith)
      | inr there ↦ (there.0, there.1, rw there.1 at (k.fits b))
    ]

    module _ (strong' weak' : ℕ → ℕ) where
      -- The block is written, and no other gains or loses an owner or an observer.
      pub write-Counts :
          (o : Option ControlBlock) (h' : Heap A)
          → ((i : ℕ) → h'.blocks i ≡ (if i == b then o else h.blocks i))
          → Fits o (strong' b) (weak' b)
          → ((i : ℕ) → i ≢ b → (strong' i ≡ strong i) × (weak' i ≡ weak i))
          → (0 < strong' b → 0 < strong b)
          → ((i : ℕ) → 0 < strong' i → h'.objects (target i) ≡ h.objects (target i))
          → h'.used ≡ h.used
          → 0 < strong b + weak b
          → Counts target h' strong' weak'
      write-Counts o h' blocks fits others owned objects used there = record {
        fits = λ i. elim (ℕ_discrete i b) [
          | yes e ↦ let here : h'.blocks i ≡ o = ground (arith, blocks i) in rw here (rw e fits)
          | no ne ↦
              let (s, w) = others i ne in
              let there : h'.blocks i ≡ h.blocks i = ground (arith, blocks i) in
              rw (there, s, w) (k.fits i)
        ];
        object = λ i p. let (v, at) = k.object i (was i p) in (v, objects i p ∙ at);
        apart = λ i j p q. k.apart i j (was i p) (was j q);
        fresh = λ i le. elim (ℕ_discrete i b) [
          | yes e ↦ absurd (omega (arith, k.fresh b (omega arith)))
          | no ne ↦ let (s, w) = others i ne in omega (arith, k.fresh i (omega arith))
        ];
      }
        where
          was : (i : ℕ) → 0 < strong' i → 0 < strong i
          was i p = elim (ℕ_discrete i b) [
            | yes e ↦ ground (arith, owned)
            | no ne ↦ let (s, w) = others i ne in omega arith
          ]

  -- Only the numbers matter.
  pub Counts-eq :
      (target : ℕ → ℕ) (h : Heap A) (strong weak : ℕ → ℕ)
      → Counts target h strong weak
      → (strong' : ℕ → ℕ) → ((b : ℕ) → strong' b ≡ strong b)
      → Counts target h strong' weak
  Counts-eq target h strong weak k strong' same = record {
    fits = λ b. rw (same b) (k.fits b);
    object = λ b p. k.object b (ground (arith, same b));
    apart = λ b c p q. k.apart b c (ground (arith, same b)) (ground (arith, same c));
    fresh = λ b le. ground (arith, same b, k.fresh b);
  }

  pub Counts-eq_weak :
      (target : ℕ → ℕ) (h : Heap A) (strong weak : ℕ → ℕ)
      → Counts target h strong weak
      → (weak' : ℕ → ℕ) → ((b : ℕ) → weak' b ≡ weak b)
      → Counts target h strong weak'
  Counts-eq_weak target h strong weak k weak' same = record {
    fits = λ b. rw (same b) (k.fits b);
    object = k.object;
    apart = k.apart;
    fresh = λ b le. ground (arith, same b, k.fresh b);
  }
