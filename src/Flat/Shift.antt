-- ===== src/Flat/Shift.antt =====
-- The erase of a whole run takes out the elements from its first to before its last.
use ycetl.Base.{
  ℕ, zero, suc, ◌+◌, ◌-◌, ◌≤◌, ◌≡◌, refl, ◌∙◌, ap, false, Bool-cases, inl, inr, List, some, arith,
  ◌==◌, ltb, leb, ◌&&◌, if◌then◌else◌, ◌>>=◌, Returns, length, get_elem?, get_elem?-some,
  get_elem?-none, get_elem?-set, length-set, set, take, lt→ltb, ext_get_elem?,
}
use ycetl.Sequence.{remove_range, get_elem?-remove_range, get_elem?-take, length-take}
use ycetl.Flat.{shift_down, pop_times, drop_last, erase_run}

module _ {A : Type 0} where
  -- The loop moves the elements after `j + removed` down, and leaves the others.
  shift_down_lem :
      (removed rounds j : ℕ) (xs : List A)
      → j + removed + rounds ≤ length xs
      → Returns (shift_down removed rounds j xs) λ ys.
        (length ys ≡ length xs)
        × ((k : ℕ)
            → get_elem? ys k ≡ (
                if leb j k && ltb k (j + rounds)
                then get_elem? xs (k + removed)
                else get_elem? xs k))
  unfolding shift_down
  shift_down_lem removed zero j xs h = (xs, refl, (refl, λ k. ground arith))
  shift_down_lem removed (suc rounds) j xs h =
      let (x, e) = get_elem?-some xs (j + removed) (omega arith) in
      let (ys, run, (len, reads)) =
        shift_down_lem removed rounds (j + 1) (set xs j x) (omega (arith, length-set xs j x)) in
      (
        ys,
        rw (e, ◌>>=◌, lt→ltb j (length xs) (omega arith)) run,
        (
          len ∙ length-set xs j x,
          λ k. ground (arith, reads k, get_elem?-set xs j k x, get_elem?-set xs j (k + removed) x),
        ),
      )

  pop_times-eq :
      (n : ℕ) (xs : List A) → n ≤ length xs → pop_times n xs ≡ some (take (length xs - n) xs)
  unfolding pop_times drop_last
  pop_times-eq zero xs h = ap some (
      ext_get_elem? _ _
        (λ k. rw (get_elem?-take (length xs - 0) xs k) (ground (arith, get_elem?-none xs k))))
  pop_times-eq (suc n) xs h =
      let filled : (length xs == 0) ≡ false = ground arith in
      let shorter : length (take (length xs - 1) xs) ≡ length xs - 1 =
        omega (arith, length-take (length xs - 1) xs) in
      let left : length xs - 1 - n ≡ length xs - suc n = omega arith in
      rw (filled, ◌>>=◌, pop_times-eq n (take (length xs - 1) xs) (omega arith), shorter, left)
        (ap some (
          ext_get_elem? _ _ (λ k.
            rw
              (
                get_elem?-take (length xs - suc n) (take (length xs - 1) xs) k,
                get_elem?-take (length xs - 1) xs k,
                get_elem?-take (length xs - suc n) xs k,
              )
              (ground arith))))

  -- Erasing a run in range does not fault, and removes its elements and no other.
  pub erase_run-eq :
      (lo hi : ℕ) (xs : List A)
      → lo ≤ hi
      → hi ≤ length xs
      → erase_run lo hi xs ≡ some (remove_range lo hi xs, hi - lo)
  unfolding erase_run
  erase_run-eq lo hi xs le room =
      let (ys, run, (len, reads)) =
        shift_down_lem (hi - lo) (length xs - (hi - lo) - lo) lo xs (omega arith) in
      let cut : take (length xs - (hi - lo)) ys ≡ remove_range lo hi xs = ext_get_elem? _ _ (λ k.
        rw (get_elem?-take (length xs - (hi - lo)) ys k, get_elem?-remove_range lo hi xs k le room)
          (ground (arith, reads k, get_elem?-none xs k, get_elem?-none xs (k + (hi - lo))))) in
      elim (Bool-cases (lo == hi)) [
        | inl t ↦
            let none_left : hi - lo ≡ 0 = ground arith in
            rw (t, none_left) (ap (λ zs. some (zs, 0)) (unmoved none_left))
        | inr t ↦
            rw (t, run, ◌>>=◌, pop_times-eq (hi - lo) ys (omega arith), ◌>>=◌, len)
              (ap (λ zs. some (zs, hi - lo)) cut)
      ]
    where
      unmoved : hi - lo ≡ 0 → xs ≡ remove_range lo hi xs
      unmoved none_left = ext_get_elem? _ _ (λ k.
          let same : k + (hi - lo) ≡ k = omega arith in
          rw (get_elem?-remove_range lo hi xs k le room, same) (ground arith))
