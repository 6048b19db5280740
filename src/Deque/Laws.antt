-- ===== src/Deque/Laws.antt =====
-- The ring buffer of include/ycetl/deque.hpp behaves as a double-ended queue.
use ycetl.Base.{
  ℕ, zero, suc, ◌+◌, ◌*◌, ◌-◌, ◌^◌, ◌<◌, ◌≡◌, refl, sym, ap, ◌∙◌, List, [], ◌∷◌, ◌++◌, some, arith,
  ◌==◌, ltb, if◌then◌else◌, ◌>>=◌, Returns, Returns-map, length, get_elem?, lt_of_get_elem?,
  get_elem?-set, length-set, set, length-append, true, false, lt→ltb,
}
use ycetl.Size.{add_size, sub_size}
use ycetl.Sequence.{get_elem?-snoc}
use ycetl.Deque.{Deque, cap, tail_index, front, back, push_back, push_front, pop_front, pop_back}
use ycetl.Deque.Index.{Spans}
use ycetl.Rounds.{round, modulo-round, mod-round, modulo}
use ycetl.Deque.Growth.{ensure_room-Spans}

-- One place back round the ring.
abbrev before : ℕ → ℕ → ℕ
before h n = if h == 0 then n - 1 else h - 1

modulo-before :
    (h n : ℕ) → h < n → n < 2 ^ 62 → modulo (sub_size (add_size h n) 1) n ≡ some (before h n)
unfolding modulo
modulo-before h n lt small =
    let wrap : sub_size (add_size h n) 1 ≡ h + (n - 1) = omega arith in
    rw (wrap, mod-round h (n - 1) n lt (omega arith)) (ground arith)

round-before : (h i n : ℕ) → h < n → i < n → round (before h n) (suc i) n ≡ round h i n
round-before h i n lt lt' = ground arith

round_zero : (h n : ℕ) → h < n → round h 0 n ≡ h
round_zero h n lt = ground arith

round-round : (h i n : ℕ) → h < n → i + 1 < n + 1 → round (round h 1 n) i n ≡ round h (suc i) n
round-round h i n lt lt' = ground arith

module _ {A : Type 0} where
  append-Spans :
      {d : Deque A} {xs : List A} (v : A)
      → Spans d xs
      → d.size < cap d
      → Spans
          (record d { buf = set d.buf (round d.head d.size (cap d)) v; size = d.size + 1 })
          (xs ++ v ∷ [])
  append-Spans {d} {xs} v h lt =
      let j = round d.head d.size (cap d) in
      let len = length-set d.buf j v in
      record {
        size = omega (arith, h.size, length-append xs (v ∷ []));
        room = omega arith;
        head = omega (arith, h.head);
        reads = λ i w e. rw len (
            ground (
              arith,
              h.size,
              h.head,
              h.reads i w,
              get_elem?-snoc xs v i,
              get_elem?-set d.buf j (round d.head i (cap d)) v,
            ));
      }

  round-lt :
      {d : Deque A} {xs : List A}
      → Spans d xs
      → (i : ℕ) → i < cap d
      → round d.head i (cap d) < cap d
  round-lt {d} h i lt = ground (arith, h.head)

  tail_index-round :
      {d : Deque A} {xs : List A}
      → Spans d xs
      → d.size < cap d
      → cap d < 2 ^ 62
      → tail_index d ≡ some (round d.head d.size (cap d))
  unfolding tail_index
  tail_index-round {d} h lt small =
      let nonempty : (cap d == 0) ≡ false = ground arith in
      rw (nonempty, modulo-round d.head d.size (cap d) (omega (arith, h.head)) (omega arith) small)

  -- `push_back` grows a full ring only, to twice its size.
  pub push_back-cap :
      (blank v : A) {d : Deque A} {xs : List A}
      → Spans d xs
      → cap d < 2 ^ 61
      → Returns (push_back blank v d) λ d'.
        Spans d' (xs ++ v ∷ [])
        × (cap d' ≡ (if d.size == cap d then if cap d == 0 then 8 else 2 * cap d else cap d))
  unfolding push_back
  push_back-cap blank v {d} h small =
      let (d', run, (k, free, c, s)) = ensure_room-Spans blank h (omega arith) in
      let limit : cap d' < 2 ^ 62 = ground arith in
      let wrap : add_size d'.size 1 ≡ d'.size + 1 = omega arith in
      let j = round d'.head d'.size (cap d') in
      (
        record d' { buf = set d'.buf j v; size = d'.size + 1 },
        rw (
          run,
          ◌>>=◌,
          tail_index-round k free limit,
          lt→ltb j (cap d') (round-lt k d'.size free),
          wrap,
        ),
        (append-Spans v k free, length-set d'.buf j v ∙ c),
      )

  -- On a deque that holds `xs` in a ring of fewer than 2 ^ 61 slots, `push_back` returns a deque
  -- that holds `xs` and then the new element, whether or not the ring must grow.
  pub push_back-Spans :
      (blank v : A) {d : Deque A} {xs : List A}
      → Spans d xs
      → cap d < 2 ^ 61
      → Returns (push_back blank v d) λ d'. Spans d' (xs ++ v ∷ [])
  push_back-Spans blank v {d} h small =
      Returns-map (push_back blank v d) (λ d' r. r.0) (push_back-cap blank v h small)

  prepend-Spans :
      {d : Deque A} {xs : List A} (v : A)
      → Spans d xs
      → d.size < cap d
      → let j = before d.head (cap d) in
        Spans (record { buf = set d.buf j v; head = j; size = d.size + 1 }) (v ∷ xs)
  prepend-Spans {d} {xs} v h lt =
      let j = before d.head (cap d) in
      let len = length-set d.buf j v in
      record {
        size = omega (arith, h.size);
        room = omega arith;
        head = ground (arith, h.head);
        reads = reads;
      }
    where
      reads :
          (i : ℕ) (w : A)
          → get_elem? (v ∷ xs) i ≡ some w
          → get_elem?
              (set d.buf (before d.head (cap d)) v)
              (round (before d.head (cap d)) i (length (set d.buf (before d.head (cap d)) v)))
            ≡ some w
      reads zero w e =
          let j = before d.head (cap d) in
          let inside : j < cap d = ground (arith, h.head) in
          rw (length-set d.buf j v, round_zero j (cap d) inside)
            (get_elem?-set d.buf j j v ∙ ground arith)
      reads (suc i) w e =
          let j = before d.head (cap d) in
          let below = lt_of_get_elem? xs i e in
          let back =
            round-before d.head i (cap d) (omega (arith, h.head)) (omega (arith, h.size)) in
          rw (length-set d.buf j v, back)
            (get_elem?-set d.buf j (round d.head i (cap d)) v
              ∙ ground (arith, h.head, h.size, h.reads i w e))

  -- On a deque that holds `xs` in a ring of fewer than 2 ^ 61 slots, `push_front` returns a deque
  -- that holds the new element and then `xs`, whether or not the ring must grow.
  pub push_front-Spans :
      (blank v : A) {d : Deque A} {xs : List A}
      → Spans d xs
      → cap d < 2 ^ 61
      → Returns (push_front blank v d) λ d'. Spans d' (v ∷ xs)
  unfolding push_front
  push_front-Spans blank v {d} h small =
      let (d', run, (k, free, c, s)) = ensure_room-Spans blank h (omega arith) in
      let limit : cap d' < 2 ^ 62 = ground arith in
      let wrap : add_size d'.size 1 ≡ d'.size + 1 = omega arith in
      let j = before d'.head (cap d') in
      let inside : ltb j (cap d') ≡ true = ground (arith, k.head) in
      (
        record { buf = set d'.buf j v; head = j; size = d'.size + 1 },
        rw (run, ◌>>=◌, modulo-before d'.head (cap d') (omega (arith, k.head)) limit, inside, wrap),
        prepend-Spans v k free,
      )

  -- On a deque that holds an element and then `xs`, in a ring of fewer than 2 ^ 62 slots,
  -- `pop_front` returns a deque that holds `xs`.
  pub pop_front-Spans :
      {d : Deque A} (x : A) {xs : List A}
      → Spans d (x ∷ xs)
      → cap d < 2 ^ 62
      → Returns (pop_front d) λ d'. Spans d' xs
  unfolding pop_front
  pop_front-Spans {d} x {xs} h small =
      let j = round d.head 1 (cap d) in
      let n : sub_size d.size 1 ≡ length xs = omega (arith, h.size, h.room) in
      (
        record d { head = j; size = length xs },
        rw (
          modulo-round d.head 1 (cap d) (omega (arith, h.size, h.room, h.head))
              (omega (arith, h.size, h.room)) small,
          ◌>>=◌,
          n,
        ),
        record {
          size = refl;
          room = omega (arith, h.size, h.room);
          head = ground (arith, h.size, h.room, h.head);
          reads = λ i w e.
              let below = lt_of_get_elem? xs i e in
              rw
                (round-round d.head i (cap d) (omega (arith, h.size, h.room, h.head))
                  (omega (arith, h.size, h.room)))
                (h.reads (suc i) w e);
        },
      )

  -- On a deque that holds `xs` and then an element, in a ring of fewer than 2 ^ 62 slots,
  -- `pop_back` leaves a deque that holds `xs`.
  pub pop_back-Spans :
      {d : Deque A} {xs : List A} (x : A)
      → Spans d (xs ++ x ∷ [])
      → cap d < 2 ^ 62
      → Spans (pop_back d) xs
  unfolding pop_back
  pop_back-Spans {d} {xs} x h small =
      let len = length-append xs (x ∷ []) in
      record {
        size = omega (arith, h.size, h.room, len);
        room = omega (arith, h.size, h.room, len);
        head = h.head;
        reads =
            λ i w e. h.reads i w (ground (arith, get_elem?-snoc xs x i, lt_of_get_elem? xs i e));
      }

  -- `front` reads the first element.
  pub front-Spans : {d : Deque A} (x : A) (xs : List A) → Spans d (x ∷ xs) → front d ≡ some x
  unfolding front
  front-Spans {d} x xs h =
      ap (get_elem? d.buf) (sym (round_zero d.head (cap d) (omega (arith, h.size, h.room, h.head))))
      ∙ h.reads 0 x refl

  -- On a deque that holds `xs` and then an element, in a ring of fewer than 2 ^ 62 slots, `back`
  -- reads that element.
  pub back-Spans :
      {d : Deque A} (xs : List A) (x : A)
      → Spans d (xs ++ x ∷ [])
      → cap d < 2 ^ 62
      → back d ≡ some x
  unfolding back
  back-Spans {d} xs x h small =
      let len = length-append xs (x ∷ []) in
      let wrap : sub_size (add_size d.head d.size) 1 ≡ d.head + length xs =
        omega (arith, h.size, h.room, h.head) in
      let wrap' : add_size d.head (length xs) ≡ d.head + length xs =
        omega (arith, h.size, h.room, h.head) in
      let j =
        modulo-round d.head (length xs) (cap d) (omega (arith, h.size, h.room, h.head))
          (omega (arith, h.size, h.room)) small in
      rw (wrap, ← wrap', j, ◌>>=◌)
        (h.reads (length xs) x (get_elem?-snoc xs x (length xs) ∙ ground arith))
