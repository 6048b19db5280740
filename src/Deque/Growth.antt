-- ===== src/Deque/Growth.antt =====
-- `grow` of include/ycetl/deque.hpp lays the elements out from index 0.
use ycetl.Base.{
  ℕ, zero, suc, ◌+◌, ◌*◌, ◌^◌, ◌≤◌, ◌<◌, ◌≡◌, refl, ◌∙◌, List, arith, ◌==◌, ltb, if◌then◌else◌,
  ◌>>=◌, Returns, length, get_elem?, lt_of_get_elem?, get_elem?-some, get_elem?-set, length-set,
  set, replicate, length-replicate, true, Bool-cases, inl, inr, ltb→lt, ltb→le, lt→ltb,
}
use ycetl.Size.{add_size, mul_size}
use ycetl.Deque.{Deque, cap, relay, grow, ensure_room, initial_capacity}
use ycetl.Deque.Index.{Spans, at-Spans}

module _ {A : Type 0} where
  relay_lem :
      (rounds i : ℕ) {d : Deque A} {xs : List A} (fresh : List A)
      → Spans d xs
      → cap d < 2 ^ 62
      → i + rounds ≡ length xs
      → length xs ≤ length fresh
      → ((j : ℕ) → j < i → get_elem? fresh j ≡ get_elem? xs j)
      → Returns (relay rounds i d fresh) λ out.
        (length out ≡ length fresh) × ((j : ℕ) → j < length xs → get_elem? out j ≡ get_elem? xs j)
  unfolding relay
  relay_lem zero i fresh h small end room done = (fresh, refl, (refl, λ j lt. done j (omega arith)))
  relay_lem (suc rounds) i {d} {xs} fresh h small end room done =
      let (x, e) = get_elem?-some xs i (omega arith) in
      let (out, run, (len, reads)) =
        relay_lem rounds (i + 1) (set fresh i x) h small (omega arith)
          (omega (arith, length-set fresh i x))
          (λ j lt. ground (arith, get_elem?-set fresh i j x, done j)) in
      (
        out,
        rw (at-Spans h small i x e, ◌>>=◌, lt→ltb i (length fresh) (omega arith)) run,
        (len ∙ length-set fresh i x, reads),
      )

  -- Growing keeps the elements, and starts the ring at 0.
  pub grow-Spans :
      (blank : A) (n : ℕ) {d : Deque A} {xs : List A}
      → Spans d xs
      → cap d < 2 ^ 62
      → d.size ≤ n
      → Returns (grow blank n d) λ d'. Spans d' xs × (cap d' ≡ n) × (d'.size ≡ d.size)
  unfolding grow
  grow-Spans blank n {d} {xs} h small le =
      let len = length-replicate n blank in
      let (out, run, (same, reads)) =
        relay_lem d.size 0 (replicate n blank) h small (omega (arith, h.size))
          (omega (arith, h.size)) (λ j lt. absurd (omega arith)) in
      (
        record d { buf = out; head = 0 },
        rw run,
        (
          record {
            size = h.size;
            room = omega arith;
            head = omega arith;
            reads = λ i v e.
                let lt = lt_of_get_elem? xs i e in
                let fits : ltb (0 + i) (length out) ≡ true =
                  lt→ltb (0 + i) (length out) (omega (arith, h.size)) in
                let zero_add : 0 + i ≡ i = omega arith in rw (fits, zero_add) (reads i lt ∙ e);
          },
          same ∙ len,
          refl,
        ),
      )

  -- `ensure_room` leaves a free slot; it grows a full ring only, to twice its size.
  pub ensure_room-Spans :
      (blank : A) {d : Deque A} {xs : List A}
      → Spans d xs
      → cap d < 2 ^ 62
      → Returns (ensure_room blank d) λ d'.
        Spans d' xs
        × (d'.size < cap d')
        × (cap d' ≡ (if d.size == cap d then if cap d == 0 then 8 else 2 * cap d else cap d))
        × (d'.size ≡ d.size)
  unfolding ensure_room
  ensure_room-Spans blank {d} h small =
      let wrap : add_size d.size 1 ≡ d.size + 1 = omega (arith, h.room) in
      elim (Bool-cases (ltb (cap d) (d.size + 1))) [
        | inl t ↦
            let full : d.size ≡ cap d = omega (arith, h.room, ltb→lt (cap d) (d.size + 1) t) in
            let bigger : d.size ≤ (if cap d == 0 then initial_capacity else mul_size (cap d) 2) =
              ground arith in
            let (d', run, (k, c, s)) = grow-Spans blank _ h small bigger in
            (d', rw (wrap, t) run, (k, ground arith, ground arith, s))
        | inr t ↦
            let free = ltb→le (cap d) (d.size + 1) t in
            (d, rw (wrap, t), (h, omega arith, ground arith, refl))
      ]
