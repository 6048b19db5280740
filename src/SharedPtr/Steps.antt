-- ===== src/SharedPtr/Steps.antt =====
-- The steps of include/ycetl/shared_ptr.hpp and include/ycetl/weak_ptr.hpp on the counters of one
-- block keep what they count.
use ycetl.Base.{
  ℕ, ◌+◌, ◌<◌, ◌≡◌, ◌≢◌, refl, ap, true, false, Option, none, some, arith, ◌==◌, if◌then◌else◌,
  Returns, Returns-bind, Bool-cases, inl, inr,
}
use native.Mathlib.Decide.{ℕ_discrete}
use ycetl.Size.{size_mod, sub_size}
use ycetl.SharedPtr.{
  ControlBlock, Handle, Heap, null, drop_strong, release_weak, retain_strong, retain_weak,
}
use ycetl.SharedPtr.Counts.{Counts, Fits, block-live, write-Counts}

-- What `unpin` leaves of a block, with one pin less.
unpinned-Fits :
    (c : ControlBlock) (s w : ℕ)
    → c.ref_count ≡ s
    → c.weak_count ≡ 1 + w + (if s == 0 then 0 else 1)
    → c.weak_count < size_mod
    → Fits
        (if sub_size c.weak_count 1 == 0
          then none
          else some (record { ref_count = c.ref_count; weak_count = sub_size c.weak_count 1 }))
        s
        w
unfolding Fits
unpinned-Fits c s w refs weaks small = elim (Bool-cases (sub_size c.weak_count 1 == 0)) [
  | inl gone ↦ rw gone (ground arith, ground arith)
  | inr left ↦ rw left (refs, ground arith, ground arith)
]

module _ {A : Type 0} (target : ℕ → ℕ) (h : Heap A) (strong weak : ℕ → ℕ)
    (k : Counts target h strong weak) (b : ℕ) (counts : ℕ → ℕ) where
  -- One more owner of a block that has one.
  pub retain_strong-Counts :
      0 < strong b
      → strong b + 1 < size_mod
      → ((i : ℕ) → counts i ≡ strong i + (if i == b then 1 else 0))
      → Returns
          (retain_strong (some b) h)
          (λ r. Counts target r counts weak × (r.objects ≡ h.objects) × (r.used ≡ h.used))
  unfolding retain_strong Fits
  retain_strong-Counts pos small more =
      let (c, at, (refs, weaks, up)) = block-live target h strong weak k b (omega arith) in
      Returns-bind (h.blocks b) c _ at (
        _,
        refl,
        (
          write-Counts target h strong weak k b counts weak _ _ (λ i. refl) (ground (arith, more b))
              (λ i ne. (ground (arith, more i), refl)) (λ p. pos) (λ i p. refl) refl (omega arith),
          refl,
          refl,
        ),
      )

  -- One more observer of a block that is there.
  pub retain_weak-Counts :
      0 < strong b + weak b
      → weak b + 2 < size_mod
      → ((i : ℕ) → counts i ≡ weak i + (if i == b then 1 else 0))
      → Returns
          (retain_weak (some b) h)
          (λ r. Counts target r strong counts × (r.objects ≡ h.objects) × (r.used ≡ h.used))
  unfolding retain_weak Fits
  retain_weak-Counts pos small more =
      let (c, at, (refs, weaks, up)) = block-live target h strong weak k b pos in
      Returns-bind (h.blocks b) c _ at (
        _,
        refl,
        (
          write-Counts target h strong weak k b strong counts _ _ (λ i. refl)
              (ground (arith, more b)) (λ i ne. (refl, ground (arith, more i))) (λ p. p)
              (λ i p. refl) refl (omega arith),
          refl,
          refl,
        ),
      )

  -- One observer less.
  pub release_weak-Counts :
      (p : Option ℕ)
      → weak b + 1 < size_mod
      → ((i : ℕ) → counts i + (if i == b then 1 else 0) ≡ weak i)
      → Returns (release_weak (record { control_block = some b; ptr = p }) h) (λ r.
        Counts target r.0 strong counts
        × (r.0.objects ≡ h.objects)
        × (r.0.used ≡ h.used)
        × (r.1 ≡ null))
  unfolding release_weak Fits
  release_weak-Counts p small less =
      let (c, at, (refs, weaks, up)) =
        block-live target h strong weak k b (ground (arith, less b)) in
      Returns-bind (h.blocks b) c _ at (
        _,
        refl,
        (
          write-Counts target h strong weak k b strong counts _ _ (λ i. refl)
              (unpinned-Fits c (strong b) (counts b) refs (ground (arith, less b))
                (ground (arith, less b)))
              (λ i ne. (refl, ground (arith, less i))) (λ p. p) (λ i p. refl) refl
              (ground (arith, less b)),
          refl,
          refl,
          refl,
        ),
      )

  -- What `drop_strong` leaves: the object goes with the last owner.
  pub record Drops (r : Heap A × Handle) : Type 0 where
    pub counted : Counts target r.0 counts weak
    pub objects :
        (a : ℕ)
        → r.0.objects a
          ≡ (if counts b == 0 then (if a == target b then none else h.objects a) else h.objects a)
    pub used : r.0.used ≡ h.used
    pub released : r.1.control_block ≡ none

  module _ (small : strong b < size_mod) (wsmall : weak b + 1 < size_mod)
      (less : (i : ℕ) → counts i + (if i == b then 1 else 0) ≡ strong i) where
    drop-last :
        (c : ControlBlock) (v : A)
        → h.blocks b ≡ some c
        → Fits (some c) (strong b) (weak b)
        → h.objects (target b) ≡ some v
        → counts b ≡ 0
        → Returns (drop_strong b (some (target b)) h) Drops
    unfolding drop_strong Fits
    drop-last c v at (refs, weaks, up) there gone =
        let one : strong b ≡ 1 = ground (arith, less b) in
        let test : (sub_size c.ref_count 1 == 0) ≡ true = ground arith in
        Returns-bind (h.blocks b) c _ at (
          rw (test, there)
            (
              _,
              refl,
              record {
                counted =
                    write-Counts target h strong weak k b counts weak _ _ (λ i. refl)
                      (unpinned-Fits
                        (record { ref_count = sub_size c.ref_count 1; weak_count = c.weak_count })
                        (counts b) (weak b) (ground arith) (ground arith) (ground arith))
                      (λ i ne. (ground (arith, less i), refl)) (λ p. absurd (omega arith))
                      (λ i p.
                        let ne : i ≢ b = λ e. ground (arith, ap counts e) in
                        let apart : target i ≢ target b =
                          λ e. ne (k.apart i b (ground (arith, less i)) (omega arith) e) in
                        ground arith)
                      refl (omega arith);
                objects =
                    λ a. let zero_left : (counts b == 0) ≡ true = ground arith in rw zero_left refl;
                used = refl;
                released = refl;
              },
            ))

    drop-others :
        (c : ControlBlock)
        → h.blocks b ≡ some c
        → Fits (some c) (strong b) (weak b)
        → 0 < counts b
        → Returns (drop_strong b (some (target b)) h) Drops
    unfolding drop_strong Fits
    drop-others c at (refs, weaks, up) left =
        let more : strong b ≡ counts b + 1 = ground (arith, less b) in
        let test : (sub_size c.ref_count 1 == 0) ≡ false = ground arith in
        Returns-bind (h.blocks b) c _ at (
          rw test (
            _,
            refl,
            record {
              counted =
                  write-Counts target h strong weak k b counts weak _ _ (λ i. refl)
                    (ground arith, ground arith, up) (λ i ne. (ground (arith, less i), refl))
                    (λ p. omega arith) (λ i p. refl) refl (omega arith);
              objects = λ a. let still : (counts b == 0) ≡ false = ground arith in rw still refl;
              used = refl;
              released = refl;
            },
          ))

    -- One owner less.
    pub drop_strong-Drops : Returns (drop_strong b (some (target b)) h) Drops
    drop_strong-Drops =
        let owned : 0 < strong b = ground (arith, less b) in
        let (c, at, fit) = block-live target h strong weak k b (omega arith) in
        let (v, there) = k.object b owned in
        elim (ℕ_discrete (counts b) 0) [
          | yes gone ↦ drop-last c v at fit there gone
          | no left ↦ drop-others c at fit (omega arith)
        ]
