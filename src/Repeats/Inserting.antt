-- ===== src/Repeats/Inserting.antt =====
-- `insert_impl` of include/ycetl/unordered_multiset.hpp and unordered_multimap.hpp.
use ycetl.Base.{
  ℕ, zero, suc, ◌+◌, ◌^◌, ◌<◌, ◌≡◌, refl, ◌∙◌, inl, inr, Bool, true, false, List, some, arith, ◌==◌,
  if◌then◌else◌, ◌>>=◌, Returns, length, get_elem?, Bool-cases, lt_of_get_elem?, lt→ltb, write,
}
use native.Mathlib.Decide.{dec_lt}
use ycetl.Size.{add_size}
use ycetl.Rounds.{modulo, round, unround, modulo-round}
use ycetl.Probe.{Hashed, Slot, Table, is_filled, is_empty, matches, fill, maybe_grow}
use ycetl.Probe.Scan.{count-set, count-lt-length, count-le-length}
use ycetl.Probe.Change.{change-IsReached}
use ycetl.Probe.Inserting.{full_slot, write_reads}
use ycetl.Probe.Laws.{modulo-home}
use ycetl.Probe.Seek.{probe-slot}
use ycetl.Probe.Valid.{home, home-lt}
use ycetl.Repeats.{free_loop, insert, iterator}
use ycetl.Repeats.Erasing.{IsBag, occurrences}
use ycetl.Repeats.Lookup.{iterator-here}
use ycetl.Repeats.Rehash.{maybe_grow-Grows, OfEntries-unfilled}

module _ {K E : Type 0} ⦃o : Hashed K⦄ (key : E → K) where
  -- The slots up to `d` places on from `h` are filled.
  abbrev Full : List (Slot E) → (h d : ℕ) → Type 0
  Full slots h d =
      (q : ℕ) (s : Slot E)
      → q < d
      → get_elem? slots (round h q (length slots)) ≡ some s
      → is_filled s.state ≡ true

  -- The first slot from `h` on that is not filled.
  record IsFree (slots : List (Slot E)) (h i : ℕ) : Type 0 where
    place : ℕ
    slot : Slot E
    inside : place < length slots
    index : i ≡ round h place (length slots)
    here : get_elem? slots i ≡ some slot
    free : is_filled slot.state ≡ false
    before : Full slots h place

  free_loop-IsFree :
      (slots : List (Slot E)) (h rounds p j : ℕ) (u : Slot E)
      → length slots < 2 ^ 62
      → h < length slots
      → p + rounds ≡ length slots
      → get_elem? slots j ≡ some u
      → is_filled u.state ≡ false
      → Full slots h p
      → Returns (free_loop key slots h rounds p) (IsFree slots h)
  unfolding free_loop
  free_loop-IsFree slots h zero p j u bound lt end at free full =
      let (d, below, e) = unround h j (length slots) lt (lt_of_get_elem? slots j at) in
      absurd (cc (full d u (omega arith) (rw e at), free))
  free_loop-IsFree slots h (suc rounds) p j u bound lt end at free full =
      let n = length slots in
      let below : p < n = omega arith in
      let (s, here) = probe-slot key slots h p lt below in
      let index = modulo-round h p n lt (omega arith) bound in
      elim (Bool-cases (is_filled s.state)) [
        | inr t ↦ (
          round h p n,
          rw (index, ◌>>=◌, here, t) refl,
          record {
            place = p;
            slot = s;
            inside = below;
            index = refl;
            here = here;
            free = t;
            before = full;
          },
        )
        | inl t ↦
            let (i, run, f) =
              free_loop-IsFree slots h rounds (p + 1) j u bound lt (omega arith) at free
                (step s here t) in
            (i, rw (index, ◌>>=◌, here, t) run, f)
      ]
    where
      step :
          (s : Slot E)
          → get_elem? slots (round h p (length slots)) ≡ some s
          → is_filled s.state ≡ true
          → Full slots h (p + 1)
      step s here t q s' lt' at' = elim (dec_lt q p) [
        | yes earlier ↦ full q s' earlier at'
        | no not_earlier ↦
            let q=p : q ≡ p = omega arith in
            let at'' : get_elem? slots (round h p (length slots)) ≡ some s' = rw (← q=p) at' in
            ground arith
      ]

  -- What `insert` makes of a table, with the iterator.
  pub record Adds (e : E) (t : Table E) (r : Table E × ℕ) : Type 0 where
    pub kept : IsBag key r.0
    pub counts :
        (q : K) → occurrences key q r.0 ≡ occurrences key q t + (if o.equal (key e) q then 1 else 0)
    pub size : r.0.size ≡ t.size + 1
    pub here : get_elem? r.0.slots r.1 ≡ some (full_slot key e)

  fill-Adds :
      (e : E) (t : Table E) (i : ℕ)
      → IsBag key t
      → IsFree t.slots (home key (key e) (length t.slots)) i
      → Returns (fill key i e t) (λ t'. Adds e t (t', i))
  unfolding fill occurrences
  fill-Adds e t i bag f =
      let x = full_slot key e in
      let full : Slot E → Bool = λ s. is_filled s.state in
      let lt = lt_of_get_elem? t.slots i f.here in
      let free = f.free in
      let most = count-le-length full t.slots in
      let counted = count-set full t.slots i f.slot x f.here in
      let none_there : ◌≡◌ {A = ℕ} (if is_filled f.slot.state then 1 else 0) 0 = rw free refl in
      let more : add_size t.size 1 ≡ t.size + 1 =
        omega (arith, bag.size, bag.reached.bound, most) in
      (
        _,
        rw (lt→ltb i (length t.slots) lt, ◌>>=◌) refl,
        record {
          kept = record {
            reached = change-IsReached key t.slots i x bag.reached refl (λ _. (
              f.place,
              f.inside,
              f.index,
              λ q s before at. filled-nonempty s (f.before q s before at),
            ));
            size = omega (arith, more, bag.size, counted, none_there);
          };
          counts = λ q.
              let gone = OfEntries-unfilled key (matches key q) f.slot (λ s m. ground arith) free in
              ground (arith, count-set (matches key q) t.slots i f.slot x f.here);
          size = more;
          here = write_reads key t.slots i x f.slot f.here;
        },
      )
    where
      filled-nonempty : (s : Slot E) → is_filled s.state ≡ true → is_empty s.state ≡ false
      filled-nonempty s t = ground arith

  insert-run :
      (blank e : E) (t t' : Table E) (h i : ℕ) (t'' : Table E)
      → maybe_grow key blank t ≡ some t'
      → modulo (o.hash (key e)) (length t'.slots) ≡ some h
      → free_loop key t'.slots h (length t'.slots) 0 ≡ some i
      → (i == length t'.slots) ≡ false
      → fill key i e t' ≡ some t''
      → iterator i t'' ≡ some i
      → insert key blank e t ≡ some (t'', i)
  unfolding insert
  insert-run blank e t t' h i t'' grow start run test write stay =
      rw (grow, ◌>>=◌, start, run, test, write, stay) refl

  -- On a table in which keys may repeat, of fewer than 2 ^ 57 slots, `insert` always adds the
  -- entry: it returns such a table, in which the key has one entry more and every key that is not
  -- equal to it as many as before, the size grows by one, and the iterator is the index of a slot
  -- that holds the entry.
  pub insert-Adds :
      (blank e : E) (t : Table E)
      → IsBag key t
      → length t.slots < 2 ^ 57
      → Returns (insert key blank e t) (Adds e t)
  unfolding insert
  insert-Adds blank e t bag small =
      let (t', run, g) = maybe_grow-Grows key blank t bag small in
      let pos : 0 < length t'.slots = omega (arith, g.room) in
      let n = length t'.slots in
      let h = home key (key e) n in
      let (j, u, at, unfilled) =
        count-lt-length (λ s. is_filled s.state) t'.slots (omega (arith, g.room, g.kept.size)) in
      let (i, run', f) =
        free_loop-IsFree t'.slots h n 0 j u g.kept.reached.bound (home-lt key (key e) n pos)
          (omega arith) at unfilled (λ q s lt. absurd (omega arith)) in
      let (t'', run'', p) = fill-Adds e t' i g.kept f in
      let in_range : (i == n) ≡ false = ground (arith, lt_of_get_elem? t'.slots i f.here) in
      let stay = iterator-here key t'' i (full_slot key e) p.here refl in
      (
        (t'', i),
        insert-run blank e t t' h i t'' run (modulo-home key (key e) n pos) run' in_range run''
            stay,
        record {
          kept = p.kept;
          counts = λ q. p.counts q ∙ rw (g.same q) refl;
          size = omega (arith, p.size, g.size);
          here = p.here;
        },
      )
