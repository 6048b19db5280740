-- ===== src/Queue/Laws.antt =====
-- `queue` of include/ycetl/queue.hpp is first in, first out.
use ycetl.Base.{
  ℕ, suc, ◌+◌, ◌*◌, ◌^◌, ◌≤◌, ◌<◌, ◌≡◌, List, [], ◌∷◌, ◌++◌, some, arith, Returns, Returns-map,
  length, length-append, ◌>>=◌, ap, sym, Option-cases, inl, inr,
}
use mathlib.Core.Option.{some-injective}
use ycetl.Rounds.{modulo}
use ycetl.Size.{add_size}
use ycetl.Adapter.{Command, run, order, Implements, run-order}
use ycetl.Deque.{Deque, cap}
use ycetl.Deque.Index.{Spans}
use ycetl.Deque.Laws.{push_back-cap, pop_front-Spans, front-Spans}
use ycetl.Queue.{Queue, push, pop, front, adapter}

-- The new element comes last.
abbrev pub join_back : {A : Type 0} → A → List A → List A
join_back v xs = xs ++ v ∷ []

module _ {A : Type 0} (blank : A) (most : ℕ) (small : most < 2 ^ 61) where
  -- The queue holds the elements, and its ring does not outgrow the bound in so many pushes.
  record Within (n : ℕ) (q : Queue A) (xs : List A) : Type 0 where
    holds : Spans q xs
    ring : cap q ≤ most
    room : 2 * (length xs + n) + 8 ≤ most

  push-Within :
      (n : ℕ) (v : A) (q : Queue A) (xs : List A)
      → Within (suc n) q xs
      → Returns (push blank v q) (λ q'. Within n q' (join_back v xs))
  unfolding push
  push-Within n v q xs w =
      let (q', run, (h, c)) = push_back-cap blank v w.holds (omega (arith, w.ring)) in
      let more = length-append xs (v ∷ []) in
      (
        q',
        run,
        record {
          holds = h;
          ring = ground (arith, w.ring, w.room, w.holds.size);
          room = omega (arith, more, w.room);
        },
      )

  pop_cap : (q q' : Queue A) → pop q ≡ some q' → cap q' ≡ cap q
  unfolding pop
  pop_cap q q' run = elim (Option-cases (modulo (add_size q.head 1) (cap q))) [
    | inl fault ↦ absurd (cc (rw (fault, ◌>>=◌) at run))
    | inr (j, e) ↦ ap (λ (d : Deque A). cap d) (sym (some-injective _ _ (rw (e, ◌>>=◌) at run)))
  ]

  pop-Within :
      (n : ℕ) (x : A) (q : Queue A) (xs : List A)
      → Within (suc n) q (x ∷ xs)
      → (front q ≡ some x) × Returns (pop q) (λ q'. Within n q' xs)
  unfolding pop front
  pop-Within n x q xs w =
      let (q', run, h) = pop_front-Spans x w.holds (omega (arith, w.ring)) in
      let same = pop_cap q q' run in
      (
        front-Spans x xs w.holds,
        (q', run, record { holds = h; ring = omega (arith, w.ring); room = omega (arith, w.room) }),
      )

  Within-adapter : Implements (adapter blank) join_back Within
  Within-adapter = record {
    push = λ n v q xs w. push-Within n v q xs w;
    peek = λ n q x xs w. (pop-Within n x q xs w).0;
    pop = λ n q x xs w. (pop-Within n x q xs w).1;
  }

  -- A run of pushes and pops on a queue that holds `xs`, in a ring of at most `most` slots, `most`
  -- below 2 ^ 61, does what it does on a plain sequence which takes the new elements at its end and
  -- gives the first: where the run on the sequence never pops it empty, and twice the elements and
  -- commands are at most `most` less 8, no operation faults, every pop takes out what `front` read
  -- just before, these are the elements that the sequence gave, in their order, and the queue holds
  -- what the sequence has at the end.
  pub run-fifo :
      (cs : List (Command A)) (q : Queue A) (xs ys out : List A)
      → Spans q xs
      → cap q ≤ most
      → 2 * (length xs + length cs) + 8 ≤ most
      → order join_back cs xs ≡ some (ys, out)
      → Returns (run (adapter blank) cs q) (λ r. Spans r.0 ys × (r.1 ≡ out))
  run-fifo cs q xs ys out h ring room e =
      Returns-map (run (adapter blank) cs q) (λ r k. (k.0.holds, k.1))
        (run-order (adapter blank) join_back Within Within-adapter cs q xs ys out
          (record { holds = h; ring = ring; room = room }) e)
