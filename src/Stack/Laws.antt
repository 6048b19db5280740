-- ===== src/Stack/Laws.antt =====
-- `stack` of include/ycetl/stack.hpp is last in, first out.
use ycetl.Base.{
  ℕ, suc, ◌+◌, ◌*◌, ◌^◌, ◌≤◌, ◌<◌, ◌≡◌, refl, ◌∙◌, ap, List, [], ◌∷◌, ◌++◌, some, arith, Returns,
  Returns-map, length, length-append, get_elem?,
}
use mathlib.Core.List.{reverse, reverse-cons}
use ycetl.Adapter.{Command, run, order, Implements, run-order}
use ycetl.DynamicArray
use ycetl.DynamicArray.{DynamicArray, grown, outside}
use ycetl.DynamicArray.Contents.{Holds, at-Holds}
use ycetl.DynamicArray.Growth.{push_back-Pushed}
use ycetl.DynamicArray.Resizing.{pop_back-Holds}
use ycetl.Size.{sub_size}
use ycetl.Stack.{Stack, push, pop, top, adapter}

-- The new element comes first.
abbrev pub join_front : {A : Type 0} → A → List A → List A
join_front v xs = v ∷ xs

length-reverse : {A : Type 0} (xs : List A) → length (reverse xs) ≡ length xs
length-reverse [] = refl
length-reverse (x ∷ xs) =
    let split = length-append (reverse xs) (x ∷ []) in
    ap length (reverse-cons x xs) ∙ omega (arith, split, length-reverse xs)

get_elem?-last : {A : Type 0} (xs : List A) (x : A) → get_elem? (xs ++ x ∷ []) (length xs) ≡ some x
get_elem?-last [] x = refl
get_elem?-last (y ∷ xs) x = get_elem?-last xs x

module _ {A : Type 0} (most : ℕ) (small : most < 2 ^ 63) where
  -- The array holds the elements, the top last, and does not outgrow the bound in so many pushes.
  record Within (n : ℕ) (s : Stack A) (xs : List A) : Type 0 where
    holds : Holds s (reverse xs)
    block : s.capacity ≤ most
    room : 2 * (length xs + n) + 4 ≤ most

  push-Within :
      (n : ℕ) (v : A) (s : Stack A) (xs : List A)
      → Within (suc n) s xs
      → Returns (push (outside v) s) (λ s'. Within n s' (join_front v xs))
  unfolding push grown
  push-Within n v s xs w =
      let (s', run, p) = push_back-Pushed v w.holds (omega (arith, w.block)) in
      let len = length-reverse xs in
      (
        s',
        run,
        record {
          holds = rw (reverse-cons v xs) p.holds;
          block = ground (arith, p.capacity, w.block, w.room, w.holds.size);
          room = omega (arith, w.room);
        },
      )

  pop-Within :
      (n : ℕ) (x : A) (s : Stack A) (xs : List A)
      → Within (suc n) s (x ∷ xs)
      → (top s ≡ some x) × Returns (pop s) (λ s'. Within n s' xs)
  unfolding pop top
  pop-Within n x s xs w =
      let h : Holds s (reverse xs ++ x ∷ []) = rw (reverse-cons x xs) at w.holds in
      let len = length-append (reverse xs) (x ∷ []) in
      let last : sub_size s.size 1 ≡ length (reverse xs) = omega (arith, h.size, h.room, w.block) in
      let (s', run, (h', c, clean)) = pop_back-Holds x h (omega (arith, h.room, w.block)) in
      (
        ap (λ i. DynamicArray.at i s) last
            ∙ at-Holds h (length (reverse xs)) (omega arith)
            ∙ get_elem?-last (reverse xs) x,
        (
          s',
          run,
          record { holds = h'; block = omega (arith, w.block); room = omega (arith, w.room) },
        ),
      )

  Within-adapter : Implements (adapter {A = A}) join_front Within
  Within-adapter = record {
    push = λ n v s xs w. push-Within n v s xs w;
    peek = λ n s x xs w. (pop-Within n x s xs w).0;
    pop = λ n s x xs w. (pop-Within n x s xs w).1;
  }

  -- A run of pushes, of objects outside the stack, and pops on a stack that holds `xs`, the last
  -- pushed first, with a capacity of at most `most`, `most` below 2 ^ 63, does what it does on a
  -- plain sequence which takes the new elements at its front and gives the first: where the run on
  -- the sequence never pops it empty, and twice the elements and commands are at most `most` less
  -- 4, no operation faults, every pop takes out what `top` read just before, these are the elements
  -- that the sequence gave, in their order, and the stack holds what the sequence has at the end.
  pub run-lifo :
      (cs : List (Command A)) (s : Stack A) (xs ys out : List A)
      → Holds s (reverse xs)
      → s.capacity ≤ most
      → 2 * (length xs + length cs) + 4 ≤ most
      → order join_front cs xs ≡ some (ys, out)
      → Returns (run adapter cs s) (λ r. Holds r.0 (reverse ys) × (r.1 ≡ out))
  run-lifo cs s xs ys out h block room e =
      Returns-map (run adapter cs s) (λ r k. (k.0.holds, k.1))
        (run-order adapter join_front Within Within-adapter cs s xs ys out
          (record { holds = h; block = block; room = room }) e)
