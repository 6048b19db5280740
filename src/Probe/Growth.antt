-- ===== src/Probe/Growth.antt =====
-- `maybe_grow` and `insert` of include/ycetl/unordered_map.hpp and unordered_set.hpp.
use native.Mathlib.Decide.{dec_lt}
use ycetl.Base.{
  ℕ, ◌+◌, ◌*◌, ◌^◌, ◌≤◌, ◌<◌, ◌≡◌, refl, ◌∙◌, sym, ap, inl, inr, false, none, some, arith, ◌==◌,
  ◌>>=◌, Returns, length, get_elem?, Bool-cases, lt_of_get_elem?, ltb, ltb→le,
}
use ycetl.Size.{npos, add_size, mul_size}
use ycetl.Probe.{Hashed, Slot, Table, empty, is_filled, is_empty, fresh, rehash, maybe_grow, insert}
use ycetl.Probe.Scan.{first-Lacks, count-lt-length, count-le-length, count-Lacks}
use ycetl.Probe.Inserting.{HasEmpty, Stores, insert_slot-Stores, insert_slot-lost}
use ycetl.Probe.Place.{NoTombstones}
use ycetl.Probe.Rehash.{rehash-Rehashed, fresh-IsValid, fresh-slot, not_filled}
use ycetl.Probe.Valid.{IsTable, stored}

module _ {K E : Type 0} ⦃o : Hashed K⦄ (key : E → K) where
  -- Whether `maybe_grow` leaves a table with slots alone.
  abbrev pub IsUnderLoad : Table E → Type 0
  IsUnderLoad t = (t.size + 1) * 100 ≤ length t.slots * 70

  -- What `maybe_grow` makes of a table.
  pub record Grown (t t' : Table E) : Type 0 where
    pub kept : IsTable key t'
    pub values : (q : K) → stored key q t' ≡ stored key q t
    pub room : HasEmpty key t'

  HasEmpty-clean :
      (t : Table E)
      → IsTable key t
      → NoTombstones key t.slots
      → t.size < length t.slots
      → HasEmpty key t
  HasEmpty-clean t table clean lt =
      let (i, s, at, f) =
        count-lt-length (λ s. is_filled s.state) t.slots (omega (arith, table.size)) in
      (i, s, at, clean i s at ∙ rw f)

  size-le : (t : Table E) → IsTable key t → t.size ≤ length t.slots
  size-le t table = omega (arith, table.size, count-le-length (λ s. is_filled s.state) t.slots)

  -- The products of the load test do not wrap.
  pub load_test :
      (t : Table E)
      → t.size ≤ length t.slots
      → length t.slots < 2 ^ 57
      → ltb (mul_size (length t.slots) 70) (mul_size (add_size t.size 1) 100)
        ≡ ltb (length t.slots * 70) ((t.size + 1) * 100)
  load_test t most small =
      let add : add_size t.size 1 ≡ t.size + 1 = omega arith in
      let left : mul_size (t.size + 1) 100 ≡ (t.size + 1) * 100 = omega arith in
      let right : mul_size (length t.slots) 70 ≡ length t.slots * 70 = omega arith in
      rw (add, left, right)

  fresh-Grown :
      (blank : E) (t : Table E)
      → IsTable key t
      → length t.slots ≡ 0
      → Grown t (record t { slots = fresh key blank 8 })
  unfolding stored fresh
  fresh-Grown blank t table nil =
      let new = fresh key blank 8 in
      let most = count-le-length (λ s. is_filled s.state) t.slots in
      let none_filled : (i : ℕ) (s : Slot E)
          → get_elem? new i ≡ some s
          → is_filled s.state ≡ false =
        λ i s at. not_filled key s (fresh-slot key blank 8 i s at) in
      let zero = count-Lacks (λ s. is_filled s.state) new none_filled in
      record {
        kept = record {
          valid = fresh-IsValid key blank 8 (omega arith);
          size = omega (arith, table.size);
        };
        values = λ q.
            first-Lacks _ new (λ i s at. rw (none_filled i s at))
            ∙ sym (
                first-Lacks _ t.slots
                  (λ i s at. absurd (omega (arith, lt_of_get_elem? t.slots i at))));
        room = (0, record { state = empty; entry = blank }, refl, refl);
      }

  -- `maybe_grow` keeps what is stored, and leaves an empty slot, if a table under the load limit has
  -- one to begin with.
  pub maybe_grow-Grown :
      (blank : E) (t : Table E)
      → IsTable key t
      → length t.slots < 2 ^ 57
      → (0 < length t.slots → IsUnderLoad t → HasEmpty key t)
      → Returns (maybe_grow key blank t) (Grown t)
  unfolding maybe_grow
  maybe_grow-Grown blank t table small spare =
      let most = count-le-length (λ s. is_filled s.state) t.slots in
      elim (dec_lt 0 (length t.slots)) [
        | no nil ↦
            let e : length t.slots ≡ 0 = omega arith in
            (record t { slots = fresh key blank 8 }, rw e, fresh-Grown blank t table e)
        | yes pos ↦
            let some_slots : (length t.slots == 0) ≡ false = ground arith in
            elim (Bool-cases (ltb (length t.slots * 70) ((t.size + 1) * 100))) [
              | inr under ↦ (
                t,
                rw (some_slots, load_test t (size-le t table) small, under),
                record { kept = table; values = λ q. refl; room = spare pos (ltb→le _ _ under) },
              )
              | inl over ↦
                  let twice : mul_size (length t.slots) 2 ≡ length t.slots * 2 = omega arith in
                  let (t', run, r) =
                    rehash-Rehashed key blank (length t.slots * 2) t table
                      (omega (arith, table.size)) (omega arith) in
                  (
                    t',
                    rw (some_slots, load_test t (size-le t table) small, over)
                        (ap (λ n. rehash key blank n t) twice ∙ run),
                    record {
                      kept = r.kept;
                      values = r.values;
                      room =
                          HasEmpty-clean t' r.kept r.clean
                            (omega (arith, r.capacity, r.size, table.size));
                    },
                  )
            ]
      ]

  -- On a table of fewer than 2 ^ 57 slots which, if it has slots and is under the load limit, has
  -- an empty one, `insert` returns: the result is a table again, an entry with a new key is stored
  -- and every other key keeps its slot's contents, an entry with a key that is there changes no
  -- lookup, the flag says whether the key was new, and the index is that of the key.
  pub insert-Stores :
      (blank e : E) (t : Table E)
      → IsTable key t
      → length t.slots < 2 ^ 57
      → (0 < length t.slots → IsUnderLoad t → HasEmpty key t)
      → Returns (insert key blank e t) (Stores key e t)
  unfolding insert
  insert-Stores blank e t table small spare =
      let (t', run, g) = maybe_grow-Grown blank t table small spare in
      let (r, run', st) = insert_slot-Stores key e t' g.kept g.room in
      (
        r,
        rw (run, ◌>>=◌) run',
        record {
          kept = st.kept;
          values = λ q. st.values q ∙ rw (g.values q, g.values (key e));
          added = st.added ∙ rw (g.values (key e));
          index = st.index;
        },
      )

  -- On a table of fewer than 2 ^ 57 slots, under the load limit, with no empty slot, `insert` of an
  -- entry with a new key returns `npos` and `false` and stores nothing.
  pub insert-lost :
      (blank e : E) (t : Table E)
      → IsTable key t
      → length t.slots < 2 ^ 57
      → IsUnderLoad t
      → ((j : ℕ) (s : Slot E) → get_elem? t.slots j ≡ some s → is_empty s.state ≡ false)
      → stored key (key e) t ≡ none
      → insert key blank e t ≡ some (t, npos, false)
  unfolding insert maybe_grow
  insert-lost blank e t table small under used gone =
      let some_slots : (length t.slots == 0) ≡ false = ground arith in
      let t' : ltb (length t.slots * 70) ((t.size + 1) * 100) ≡ false = ground arith in
      rw (some_slots, load_test t (size-le t table) small, t', ◌>>=◌)
        (insert_slot-lost key e t table (omega arith) used gone)
