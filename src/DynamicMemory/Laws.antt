-- ===== src/DynamicMemory/Laws.antt =====
-- What the memory of include/ycetl/typed_dynamic_memory.hpp does from its construction to its
-- destruction.
use ycetl.Base.{
  ℕ, zero, suc, ◌+◌, ◌^◌, ◌<◌, ◌≡◌, refl, ◌∙◌, sym, ap, true, false, List, [], ◌∷◌, ◌++◌, Option,
  none, some, arith, ◌==◌, ◌>>=◌, Returns, Returns-map, get_elem?, length, length-append,
  length-set, ltb, lt→ltb, set,
}
use mathlib.Core.List.{append-nil, append_assoc}
use ycetl.Size.{add_size}
use ycetl.DynamicMemory.{Heap, Backend, new, take_block, allocate, deallocate, destroy}
use ycetl.DynamicMemory.Recording.{
  entry, IsRecord, untouched, kept, ensure_slot-Ready, Records-snoc,
}
use ycetl.DynamicMemory.Owning.{IsHeap, take_block-IsHeap, Owned, Owned-snoc, release_entries-Owned}

pub data Request : Type 0 where
  take : ℕ → Request
  give : Option ℕ → ℕ → Request

-- One call after the other, with the pointers that `allocate` returned.
unfoldable pub session : List Request → Heap → Backend → Option (Heap × Backend × List (Option ℕ))
session [] h b = some (h, b, [])
session (take size ∷ calls) h b = do
  (h', b', p) ← allocate size h b
  (h'', b'', ps) ← session calls h' b'
  some (h'', b'', p ∷ ps)
session (give ptr size ∷ calls) h b = let (h', b') = deallocate ptr size h b in session calls h' b'

-- The pointers answer the calls: null for no element, else the address of the next block, of the
-- size asked for.
pub data Answers : List Request → List (Option ℕ) → List (ℕ × ℕ) → Type 0 where
  done : Answers [] [] []
  nothing :
      {calls : List Request} {ps : List (Option ℕ)} {blocks : List (ℕ × ℕ)}
      → Answers calls ps blocks
      → Answers (take 0 ∷ calls) (none ∷ ps) blocks
  block :
      {calls : List Request} {ps : List (Option ℕ)} {blocks : List (ℕ × ℕ)} (p size : ℕ)
      → 0 < size
      → Answers calls ps blocks
      → Answers (take size ∷ calls) (some p ∷ ps) ((p, size) ∷ blocks)
  given :
      {calls : List Request} {ps : List (Option ℕ)} {blocks : List (ℕ × ℕ)} (ptr : Option ℕ)
      (size : ℕ)
      → Answers calls ps blocks
      → Answers (give ptr size ∷ calls) ps blocks

-- A heap and a backend that has recorded its blocks, and owns them.
pub record IsMemory (before : ℕ → Option ℕ) (h : Heap) (b : Backend) (blocks : List (ℕ × ℕ))
    : Type 0 where
  pub heap : IsHeap h
  pub recorded : IsRecord b blocks
  pub owned : Owned before h.live blocks

-- What an allocation of at least one element does.
allocate-IsMemory :
    (before : ℕ → Option ℕ) (size : ℕ) (h : Heap) (b : Backend) (blocks : List (ℕ × ℕ))
    → 0 < size
    → length blocks < 2 ^ 62
    → IsMemory before h b blocks
    → Returns
        (allocate size h b)
        (λ r. IsMemory before r.0 r.1 (blocks ++ (h.used, size) ∷ []) × (r.2 ≡ some h.used))
unfolding allocate take_block
allocate-IsMemory before size h b blocks pos small m =
    let (b', run, ready) = ensure_slot-Ready b blocks m.recorded small in
    let r = ready.recorded in
    let here : ltb b'.slots_taken (length ready.vector) ≡ true =
      lt→ltb _ _ (omega (arith, ready.room, r.taken)) in
    let some_size : (size == 0) ≡ false = ground arith in
    let more = length-append blocks ((h.used, size) ∷ []) in
    (
      (
        (take_block size h).0,
        record b' {
          vector = some (set ready.vector b'.slots_taken (entry (h.used, size)));
          slots_taken = add_size b'.slots_taken 1;
        },
        some h.used,
      ),
      rw (some_size, run, ◌>>=◌, r.vector, here) refl,
      (
        record {
          heap = take_block-IsHeap size h m.heap;
          recorded = kept (record {
            vector = refl;
            records =
                rw r.taken (Records-snoc ready.vector blocks (h.used, size) r.records ready.room);
            width = length-set ready.vector b'.slots_taken (entry (h.used, size)) ∙ r.width;
            taken = omega (arith, more, r.taken);
            fits = omega (arith, more, ready.room, r.width);
            some_room = r.some_room;
            most = omega (arith, more, r.most);
          });
          owned =
              Owned-snoc before h.live blocks h.used size (m.heap.ahead h.used (omega arith))
                m.owned;
        },
        refl,
      ),
    )

take_none : (h : Heap) (b : Backend) → allocate 0 h b ≡ some (h, b, none)
unfolding allocate
take_none h b = refl

session-IsMemory :
    (before : ℕ → Option ℕ) (calls : List Request) (h : Heap) (b : Backend) (blocks : List (ℕ × ℕ))
    → length blocks + length calls < 2 ^ 62
    → IsMemory before h b blocks
    → Returns (session calls h b) λ r.
      (blocks' : List (ℕ × ℕ)) × IsMemory before r.0 r.1 (blocks ++ blocks')
      × Answers calls r.2 blocks'
unfolding session deallocate
session-IsMemory before [] h b blocks small m = (_, refl, ([], rw (append-nil blocks) m, done))
session-IsMemory before (give ptr size ∷ calls) h b blocks small m =
    Returns-map _ (λ r (blocks', m', a). (blocks', m', given ptr size a))
      (session-IsMemory before calls h b blocks (omega arith) m)
session-IsMemory before (take zero ∷ calls) h b blocks small m =
    let (r, run, (blocks', m', a)) = session-IsMemory before calls h b blocks (omega arith) m in
    ((r.0, r.1, none ∷ r.2), rw (take_none h b, ◌>>=◌, run) refl, (blocks', m', nothing a))
session-IsMemory before (take (suc n) ∷ calls) h b blocks small m =
    let (s, taken, (m', p)) =
      allocate-IsMemory before (suc n) h b blocks (omega arith) (omega arith) m in
    let more = length-append blocks ((h.used, suc n) ∷ []) in
    let (r, run, (blocks', m'', a)) =
      session-IsMemory before calls s.0 s.1 (blocks ++ (h.used, suc n) ∷ []) (omega (arith, more))
        m' in
    (
      (r.0, r.1, s.2 ∷ r.2),
      rw (taken, ◌>>=◌, run) refl,
      (
        (h.used, suc n) ∷ blocks',
        rw (sym (append_assoc blocks ((h.used, suc n) ∷ []) blocks')) m'',
        rw p (block h.used (suc n) (omega arith) a),
      ),
    )

destroy-IsMemory :
    (before : ℕ → Option ℕ) (h : Heap) (b : Backend) (blocks : List (ℕ × ℕ))
    → IsMemory before h b blocks
    → Returns (destroy h b) (λ h'. (a : ℕ) → h'.live a ≡ before a)
unfolding destroy Owned
destroy-IsMemory before h b blocks m = elim m.recorded [
  | untouched e none_yet ↦ (h, rw e refl, rw none_yet at m.owned)
  | kept {v} r ↦
      rw (r.vector, r.taken)
        (release_entries-Owned before v blocks 0 h
          (λ j c at. ap (get_elem? v) (omega arith) ∙ r.records.entries j c at) m.owned)
]

-- On a heap in which no address past the last one given out is live, a new memory answers fewer
-- than 2 ^ 62 calls of `allocate` and `deallocate` without a fault: with null for no element and
-- else with the address of a block, the blocks are live in the sizes asked for whatever
-- `deallocate` was called with, each at an address of its own, and apart from them the heap is as
-- it was; the destructor then does not fault and leaves the heap with the live blocks that it had
-- before the first call.
pub session-Released :
    (calls : List Request) (h : Heap)
    → IsHeap h
    → length calls < 2 ^ 62
    → Returns (session calls h new) λ r.
      ((blocks : List (ℕ × ℕ)) × Answers calls r.2 blocks × Owned h.live r.0.live blocks)
      × Returns (destroy r.0 r.1) (λ h'. (a : ℕ) → h'.live a ≡ h.live a)
unfolding Owned
session-Released calls h heap small =
    Returns-map (session calls h new)
      (λ r (blocks, m, a). ((blocks, a, m.owned), destroy-IsMemory h.live r.0 r.1 blocks m))
      (session-IsMemory h.live calls h new [] (omega arith)
        (record { heap = heap; recorded = untouched refl refl; owned = λ a. refl }))
