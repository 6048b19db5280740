-- ===== src/Examples/Rings.antt =====
-- Runs of include/ycetl/deque.hpp.
use ycetl.Base.{ℕ, zero, suc, ◌≡◌, refl, [], ◌∷◌, Option, some, ◌>>=◌, Returns, arith, get_elem?}
use ycetl.Deque.{Deque, at, push_back, push_front, pop_front}
use ycetl.Rounds.{modulo, round}
use ycetl.Deque.Index.{Spans}
use ycetl.Deque.Ends.{push-Spans}

-- 7 and 8 round the end of a buffer of three.
abbrev pub wrapped : Deque ℕ
wrapped = record { buf = 8 ∷ 0 ∷ 7 ∷ []; head = 2; size = 2 }

wrapped-reads :
    (i v : ℕ) → get_elem? (7 ∷ 8 ∷ []) i ≡ some v → get_elem? wrapped.buf (round 2 i 3) ≡ some v
wrapped-reads zero v e = e
wrapped-reads (suc zero) v e = e
wrapped-reads (suc (suc i)) v e = absurd (cc e)

pub wrapped-Spans : Spans wrapped (7 ∷ 8 ∷ [])
wrapped-Spans = record {
  size = refl;
  room = omega arith;
  head = omega arith;
  reads = wrapped-reads;
}

push-Spans_example :
    Returns (push_front 0 9 wrapped) (λ d'. Spans d' (9 ∷ 7 ∷ 8 ∷ []))
    × Returns (push_back 0 9 wrapped) (λ d'. Spans d' (7 ∷ 8 ∷ 9 ∷ []))
push-Spans_example = push-Spans 0 9 wrapped-Spans (omega arith)

-- Four elements in a ring of three: it grows, and starts again at 0.
session_run : Option (ℕ × ℕ × ℕ)
unfolding push_front push_back pop_front at modulo
session_run = do
  a ← push_front 0 6 wrapped
  b ← push_back 0 9 a
  c ← pop_front b
  x ← at 2 c
  some (x, c.head, c.size)

session : session_run ≡ some (9, 1, 3)
unfolding session_run
session = refl
