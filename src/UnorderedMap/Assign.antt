-- ===== src/UnorderedMap/Assign.antt =====
-- `insert_or_assign` and `clear` of include/ycetl/unordered_map.hpp.
use ycetl.Base.{
  ℕ, zero, suc, ◌^◌, ◌<◌, ◌≡◌, refl, ◌∙◌, sym, ap, inr, Bool, true, false, not, List, [], ◌∷◌, map,
  Option, none, some, arith, if◌then◌else◌, ◌>>=◌, Returns, length, get_elem?, set, lt_of_get_elem?,
  is_some, lt→ltb,
}
use ycetl.Rounds.{unround}
use ycetl.Probe.{Hashed, Slot, at_key, at_slot, nowhere, is_filled, matches, seek_key}
use ycetl.Probe.Scan.{first-Lacks, count-Lacks}
use ycetl.Probe.Inserting.{HasEmpty, Stores, seek_key-Outcome, fill-Stores}
use ycetl.Probe.Growth.{IsUnderLoad, maybe_grow-Grown}
use ycetl.Probe.Laws.{stored-match}
use ycetl.Probe.Reassign.{reassign-IsTable, reassign-values}
use ycetl.Probe.Seek.{Outcome}
use ycetl.Probe.Valid.{stored, home, home-lt}
use ycetl.UnorderedMap.{UnorderedMap, key_of, insert_or_assign, assign_second, clear, vacate}
use ycetl.UnorderedMap.Laws.{IsMap, value_in, second, second-if}

module _ {K V : Type 0} ⦃o : Hashed K⦄ where
  -- What assigning `v` under `k` makes of a map.
  pub record Assigns (k : K) (v : V) (t : UnorderedMap K V) (r : UnorderedMap K V × ℕ × Bool)
      : Type 0 where
    pub kept : IsMap r.0
    pub values : (q : K) → value_in q r.0 ≡ (if o.equal k q then some v else value_in q t)
    pub added : r.2 ≡ not (is_some (value_in k t))

  pick :
      (b : Bool) (x y : Option (Slot (K × V))) (v : V)
      → second x ≡ some v
      → second (if b then x else y) ≡ (if b then some v else second y)
  pick true x y v e = e
  pick false x y v e = refl

  stored-at :
      (k : K) (t : UnorderedMap K V) (i : ℕ) (s : Slot (K × V)) (v : V)
      → IsMap t
      → get_elem? t.slots i ≡ some s
      → matches key_of k s ≡ true
      → Returns (assign_second i v t) λ t'. Assigns k v t (t', i, false)
  unfolding assign_second
  stored-at k t i s v table at m =
      let x : Slot (K × V) = record s { entry = (s.entry.0, v) } in
      let there = stored-match key_of k t i s table.valid at m in
      (
        record t { slots = set t.slots i x },
        rw (at, ◌>>=◌, lt→ltb i (length t.slots) (lt_of_get_elem? t.slots i at)),
        record {
          kept = reassign-IsTable key_of t i x s table at refl refl;
          values = λ q.
              ap second (reassign-values key_of k q t i x s table at refl refl m)
              ∙ pick (o.equal k q) _ _ v refl;
          added = rw there;
        },
      )

  stored-new :
      (k : K) (v : V) (t t' : UnorderedMap K V) (i : ℕ)
      → value_in k t ≡ none
      → Stores key_of (k, v) t (t', i, true)
      → Assigns k v t (t', i, true)
  stored-new k v t t' i gone st = record {
    kept = st.kept;
    values = λ q. ap second (st.values q) ∙ second-if (o.equal k q) _ _ _ ∙ rw gone (ground arith);
    added = rw gone;
  }

  none_of : (x : Option (Slot (K × V))) → true ≡ not (is_some x) → second x ≡ none
  none_of none e = refl
  none_of (some s) e = absurd (cc e)

  grown-Assigns :
      (k : K) (v : V) (t t' : UnorderedMap K V) (r : UnorderedMap K V × ℕ × Bool)
      → ((q : K) → stored key_of q t' ≡ stored key_of q t)
      → Assigns k v t' r
      → Assigns k v t r
  grown-Assigns k v t t' r same a = record {
    kept = a.kept;
    values = λ q. a.values q ∙ rw (same q);
    added = a.added ∙ rw (same k);
  }

  -- On a map of fewer than 2 ^ 57 slots which, if it has slots and is under the load limit, has an
  -- empty one, `insert_or_assign` returns: the result is a map again, the key has the new value and
  -- every other key the value that it had, and the flag says whether the key was new.
  pub insert_or_assign-Assigns :
      (blank : K × V) (k : K) (v : V) (t : UnorderedMap K V)
      → IsMap t
      → length t.slots < 2 ^ 57
      → (0 < length t.slots → IsUnderLoad key_of t → HasEmpty key_of t)
      → Returns (insert_or_assign blank k v t) (Assigns k v t)
  unfolding insert_or_assign Outcome
  insert_or_assign-Assigns blank k v t table small spare =
      let (t', grown, g) = maybe_grow-Grown key_of blank t table small spare in
      let (j, s, at, free) = g.room in
      let lt = lt_of_get_elem? t'.slots j at in
      let pos : 0 < length t'.slots = omega arith in
      let (stop, run, outcome) = seek_key-Outcome key_of k t' g.kept.valid pos in
      let wider = λ (r : UnorderedMap K V × ℕ × Bool). grown-Assigns k v t t' r g.values in
      elim stop
          as (λ x.
            seek_key (key_of {V = V}) k t' ≡ some x
            → Outcome (key_of {V = V}) k t'.slots (home (key_of {V = V}) k (length t'.slots)) x
            → Returns (insert_or_assign blank k v t) (Assigns k v t)) [
              | at_key i ↦ λ run (s', at', m).
                  let (t'', run', a) = stored-at k t' i s' v g.kept at' m in
                  ((t'', i, false), rw (grown, ◌>>=◌, run, run'), wider (t'', i, false) a)
              | at_slot i ↦ λ run (d, s', target, passed, inside, stopped, free').
                  let (t'', run', (same, st)) =
                    fill-Stores key_of (k, v) t' i d g.kept pos target passed
                      (inr (s', inside, stopped, free')) in
                  (
                    (t'', i, true),
                    rw (grown, ◌>>=◌, run, run'),
                    wider (t'', i, true) (stored-new k v t' t'' i (none_of _ st.added) st),
                  )
              | nowhere ↦ λ run passed.
                  let (d, below, e') =
                    unround (home (key_of {V = V}) k (length t'.slots)) j (length t'.slots)
                      (home-lt (key_of {V = V}) k (length t'.slots) pos) lt in
                  absurd (cc (passed d s below (rw e' at)).0)
            ]
        run outcome

  abbrev filled_in : Option (Slot (K × V)) → Bool
  filled_in none = false
  filled_in (some s) = is_filled s.state

  vacated :
      (xs : List (Slot (K × V))) (i : ℕ) (s : Slot (K × V))
      → get_elem? (map vacate xs) i ≡ some s
      → is_filled s.state ≡ false
  vacated [] i s at = absurd (cc at)
  vacated (x ∷ xs) zero s at = sym (ap filled_in at)
  vacated (x ∷ xs) (suc i) s at = vacated xs i s at

  length-vacated : (xs : List (Slot (K × V))) → length (map vacate xs) ≡ length xs
  length-vacated [] = refl
  length-vacated (x ∷ xs) = ap suc (length-vacated xs)

  -- `clear` of a map leaves a map that has no key, with as many slots.
  pub clear-IsMap :
      (t : UnorderedMap K V)
      → IsMap t
      → IsMap (clear t)
        × ((q : K) → value_in q (clear t) ≡ none)
        × (length (clear t).slots ≡ length t.slots)
  unfolding clear stored
  clear-IsMap t table =
      let gone = vacated t.slots in
      let len = length-vacated t.slots in
      (
        record {
          valid = record {
            bound = omega (arith, len, table.valid.bound);
            reach = λ d p s s' lt before at full at'. absurd (cc (gone _ s at));
            unique = λ i j s s' at at' full full' eq. absurd (cc (gone i s at));
          };
          size = sym (count-Lacks (λ s. is_filled s.state) (map vacate t.slots) gone);
        },
        λ q.
            ap second
              (first-Lacks (matches key_of q) (map vacate t.slots) (λ i s at. rw (gone i s at))),
        len,
      )
