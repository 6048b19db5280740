-- ===== src/DynamicMemory/Owning.antt =====
-- The heap below include/ycetl/typed_dynamic_memory.hpp: which blocks are live.
use ycetl.Base.{
  ℕ, suc, ◌+◌, ◌≤◌, ◌≡◌, refl, ◌∙◌, ap, true, false, List, [], ◌∷◌, ◌++◌, Option, none, some, arith,
  ◌==◌, if◌then◌else◌, ◌>>=◌, Returns, get_elem?, length,
}
use ycetl.DynamicMemory.{SizeAndPointer, Heap, take_block, free_block, release_entries}
use ycetl.DynamicMemory.Recording.{entry}

-- No address is live that was not given out yet.
pub record IsHeap (h : Heap) : Type 0 where
  pub ahead : (a : ℕ) → h.used ≤ a → h.live a ≡ none

pub take_block-IsHeap : (size : ℕ) (h : Heap) → IsHeap h → IsHeap (take_block size h).0
unfolding take_block
take_block-IsHeap size h heap = record {
  ahead = λ a le.
      let past : h.used + 1 ≤ a = le in
      let other : (a == h.used) ≡ false = ground arith in rw other (heap.ahead a (omega arith));
}

-- The live blocks without the one at an address, and with one more.
abbrev pub without : ℕ → (ℕ → Option ℕ) → ℕ → Option ℕ
without p live a = if a == p then none else live a

abbrev pub with_block : ℕ → ℕ → (ℕ → Option ℕ) → ℕ → Option ℕ
with_block p size live a = if a == p then some size else live a

-- The blocks are live, each in its size, at addresses of their own, and apart from them the live
-- blocks are those of `before`.
unfoldable pub Owned : (before live : ℕ → Option ℕ) → List (ℕ × ℕ) → Type 0
Owned before live [] = (a : ℕ) → live a ≡ before a
Owned before live (b ∷ blocks) = (live b.0 ≡ some b.1) × Owned before (without b.0 live) blocks

Owned-congr :
    (before live live' : ℕ → Option ℕ) (blocks : List (ℕ × ℕ))
    → ((a : ℕ) → live' a ≡ live a)
    → Owned before live blocks
    → Owned before live' blocks
unfolding Owned
Owned-congr before live live' [] same o = λ a. same a ∙ o a
Owned-congr before live live' (b ∷ blocks) same o = (
  same b.0 ∙ o.0,
  Owned-congr before (without b.0 live) (without b.0 live') blocks (λ a. rw (same a) refl) o.1,
)

-- A block at an address that is not live comes last.
pub Owned-snoc :
    (before live : ℕ → Option ℕ) (blocks : List (ℕ × ℕ)) (p size : ℕ)
    → live p ≡ none
    → Owned before live blocks
    → Owned before (with_block p size live) (blocks ++ (p, size) ∷ [])
unfolding Owned
Owned-snoc before live [] p size free o = (ground arith, λ a. ground (arith, o a, free, o p))
Owned-snoc before live (b ∷ blocks) p size free o =
    let apart : (b.0 == p) ≡ false = ground (arith, o.0, free) in
    (
      rw apart o.0,
      Owned-congr before (with_block p size (without b.0 live))
          (without b.0 (with_block p size live)) (blocks ++ (p, size) ∷ [])
          (λ a. ground (arith, apart))
          (Owned-snoc before (without b.0 live) blocks p size (ground (arith, free)) o.1),
    )

-- The loop of the destructor frees each block once, and nothing else.
pub release_entries-Owned :
    (before : ℕ → Option ℕ) (v : List SizeAndPointer) (blocks : List (ℕ × ℕ)) (i : ℕ) (h : Heap)
    → ((j : ℕ) (b : ℕ × ℕ) → get_elem? blocks j ≡ some b → get_elem? v (i + j) ≡ some (entry b))
    → Owned before h.live blocks
    → Returns (release_entries v i (length blocks) h) (λ h'. (a : ℕ) → h'.live a ≡ before a)
unfolding release_entries free_block Owned
release_entries-Owned before v [] i h at o = (h, refl, o)
release_entries-Owned before v (b ∷ blocks) i h at o =
    let here : get_elem? v i ≡ some (entry b) = ap (get_elem? v) (omega arith) ∙ at 0 b refl in
    let same : (b.1 == b.1) ≡ true = ground arith in
    rw (here, ◌>>=◌, o.0, same)
      (release_entries-Owned before v blocks (i + 1) (record h { live = without b.0 h.live })
        (λ j c e. ap (get_elem? v) (omega arith) ∙ at (suc j) c e) o.1)
