-- ===== src/Flat/Gap.antt =====
-- The order-preserving erase takes one element out.
use ycetl.Base.{
  ℕ, zero, suc, ◌+◌, ◌-◌, ◌<◌, ◌≡◌, refl, ◌∙◌, ap, false, List, some, arith, ◌==◌, ltb, leb, ◌&&◌,
  if◌then◌else◌, ◌>>=◌, Returns, length, get_elem?, get_elem?-some, get_elem?-none, get_elem?-set,
  length-set, set, lt→ltb, ext_get_elem?,
}
use ycetl.Sequence.{remove_range, get_elem?-remove_range, get_elem?-take}
use ycetl.Flat.{shift_left, drop_last, erase_at}

module _ {A : Type 0} where
  -- The loop moves the elements after `j` down by one, and leaves the others.
  shift_left_lem :
      (rounds j : ℕ) (xs : List A)
      → j + rounds < length xs
      → Returns (shift_left rounds j xs) λ ys.
        (length ys ≡ length xs)
        × ((k : ℕ)
            → get_elem? ys k
              ≡ (if leb j k && ltb k (j + rounds) then get_elem? xs (k + 1) else get_elem? xs k))
  unfolding shift_left
  shift_left_lem zero j xs h = (xs, refl, (refl, λ k. ground arith))
  shift_left_lem (suc rounds) j xs h =
      let (x, e) = get_elem?-some xs (j + 1) (omega arith) in
      let (ys, run, (len, reads)) =
        shift_left_lem rounds (j + 1) (set xs j x) (omega (arith, length-set xs j x)) in
      (
        ys,
        rw (e, ◌>>=◌, lt→ltb j (length xs) (omega arith)) run,
        (
          len ∙ length-set xs j x,
          λ k. ground (arith, reads k, get_elem?-set xs j k x, get_elem?-set xs j (k + 1) x),
        ),
      )

  -- Erasing at an index in range does not fault, and removes the element there and no other.
  pub erase_at-eq :
      (i : ℕ) (xs : List A) → i < length xs → erase_at i xs ≡ some (remove_range i (i + 1) xs)
  unfolding erase_at drop_last
  erase_at-eq i xs h =
      let (ys, run, (len, reads)) = shift_left_lem (length xs - 1 - i) i xs (omega arith) in
      let filled : (length ys == 0) ≡ false = ground arith in
      let one : i + 1 - i ≡ 1 = omega arith in
      rw (run, ◌>>=◌, filled)
        (ap some (
          ext_get_elem? _ _ (λ k.
            rw
              (
                get_elem?-take,
                get_elem?-remove_range i (i + 1) xs k (omega arith) (omega arith),
                one,
              )
              (ground (arith, reads k, get_elem?-none xs k, get_elem?-none xs (k + 1))))))
