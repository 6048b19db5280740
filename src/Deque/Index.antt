-- ===== src/Deque/Index.antt =====
-- The indices round the ring, and the sequence that a deque of include/ycetl/deque.hpp holds.
use ycetl.Rounds.{round, modulo-round}
use ycetl.Base.{
  ℕ, ◌-◌, ◌^◌, ◌≤◌, ◌<◌, ◌≡◌, List, some, arith, ◌>>=◌, length, get_elem?, lt_of_get_elem?,
}
use ycetl.Deque.{Deque, cap, at}

module _ {A : Type 0} where
  -- Read round the ring from the head, the buffer holds the elements of `xs`.
  pub record Spans (d : Deque A) (xs : List A) : Type 0 where
    pub size : d.size ≡ length xs
    pub room : d.size ≤ cap d
    pub head : d.head ≤ cap d - 1
    pub reads :
        (i : ℕ) (v : A)
        → get_elem? xs i ≡ some v
        → get_elem? d.buf (round d.head i (cap d)) ≡ some v

  -- `operator[]` reads the element at its index.
  pub at-Spans :
      {d : Deque A} {xs : List A}
      → Spans d xs
      → cap d < 2 ^ 62
      → (i : ℕ) (v : A) → get_elem? xs i ≡ some v
      → at i d ≡ some v
  unfolding at
  at-Spans {d} {xs} h small i v e =
      rw
        (
          modulo-round d.head i (cap d)
              (omega (arith, h.size, h.room, h.head, lt_of_get_elem? xs i e))
              (omega (arith, h.size, h.room, lt_of_get_elem? xs i e)) small,
          ◌>>=◌,
        )
        (h.reads i v e)
