-- ===== src/Adapter.antt =====
-- What include/ycetl/queue.hpp and stack.hpp share: a run of pushes and pops on an adapter, against
-- a plain sequence.
use ycetl.Base.{
  ℕ, suc, ◌≡◌, refl, ◌∙◌, ap, List, [], ◌∷◌, Option, none, some, ◌>>=◌, Returns, length,
  Option-cases, inl, inr,
}
use mathlib.Core.Option.{some-injective}

pub data Command (A : Type 0) : Type 0 where
  put : A → Command A
  get : Command A

-- The operations of an adapter; `peek` reads what `pop` takes.
pub record Adapter (A S : Type 0) : Type 0 where
  pub push : A → S → Option S
  pub pop : S → Option S
  pub peek : S → Option A

module _ {A : Type 0} where
  -- A run of the commands, with the elements that its pops took.
  unfoldable pub run : {S : Type 0} → Adapter A S → List (Command A) → S → Option (S × List A)
  run a [] s = some (s, [])
  run a (put v ∷ cs) s = do s' ← a.push v s; run a cs s'
  run a (get ∷ cs) s = do x ← a.peek s; s' ← a.pop s; (s'', out) ← run a cs s'; some (s'', x ∷ out)

  -- The same on a sequence, from whose front the elements are taken; `join` adds one.
  unfoldable pub order :
      (A → List A → List A) → List (Command A) → List A → Option (List A × List A)
  order join [] xs = some (xs, [])
  order join (put v ∷ cs) xs = order join cs (join v xs)
  order join (get ∷ cs) [] = none
  order join (get ∷ cs) (x ∷ xs) = do (ys, out) ← order join cs xs; some (ys, x ∷ out)

-- The adapter acts as the sequence, for as many commands as the number says.
pub record Implements {A S : Type 0} (a : Adapter A S) (join : A → List A → List A)
    (R : ℕ → S → List A → Type 0) : Type 0 where
  pub push :
      (n : ℕ) (v : A) (s : S) (xs : List A)
      → R (suc n) s xs
      → Returns (a.push v s) (λ s'. R n s' (join v xs))
  pub peek : (n : ℕ) (s : S) (x : A) (xs : List A) → R (suc n) s (x ∷ xs) → a.peek s ≡ some x
  pub pop :
      (n : ℕ) (s : S) (x : A) (xs : List A)
      → R (suc n) s (x ∷ xs)
      → Returns (a.pop s) (λ s'. R n s' xs)

module _ {A S : Type 0} (a : Adapter A S) (join : A → List A → List A) (R : ℕ → S → List A → Type 0)
    (laws : Implements a join R) where
  -- The run on the adapter takes what the run on the sequence takes.
  pub run-order :
      (cs : List (Command A)) (s : S) (xs ys out : List A)
      → R (length cs) s xs
      → order join cs xs ≡ some (ys, out)
      → Returns (run a cs s) (λ r. R 0 r.0 ys × (r.1 ≡ out))
  unfolding run order
  run-order [] s xs ys out r e =
      let same : ◌≡◌ {A = List A × List A} (xs, []) (ys, out) = some-injective _ _ e in
      (
        (s, []),
        refl,
        (rw (ap (λ (p : List A × List A). p.0) same) at r, ap (λ (p : List A × List A). p.1) same),
      )
  run-order (put v ∷ cs) s xs ys out r e =
      let (s', run', r') = laws.push (length cs) v s xs r in
      rw (run', ◌>>=◌) (run-order cs s' (join v xs) ys out r' e)
  run-order (get ∷ cs) s [] ys out r e = absurd (cc e)
  run-order (get ∷ cs) s (x ∷ xs) ys out r e = elim (Option-cases (order join cs xs)) [
    | inl fault ↦ absurd (cc (rw (fault, ◌>>=◌) at e))
    | inr (p, rest) ↦
        let same : ◌≡◌ {A = List A × List A} (p.0, x ∷ p.1) (ys, out) =
          some-injective _ _ (rw (rest, ◌>>=◌) at e) in
        let here = laws.peek (length cs) s x xs r in
        let (s', gone, r') = laws.pop (length cs) s x xs r in
        let (q, run', (left, took)) = run-order cs s' xs p.0 p.1 r' rest in
        (
          (q.0, x ∷ q.1),
          rw (here, gone, ◌>>=◌, run') refl,
          (
            rw (ap (λ (c : List A × List A). c.0) same) at left,
            ap (λ t. x ∷ t) took ∙ ap (λ (c : List A × List A). c.1) same,
          ),
        )
  ]
