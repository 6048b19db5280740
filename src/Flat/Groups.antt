-- ===== src/Flat/Groups.antt =====
-- What the operations of the sorted containers with repeated keys do to the elements of each key.
use ycetl.Base.{
  ℕ, zero, suc, ◌+◌, ◌-◌, ◌≤◌, ◌<◌, ◌≡◌, refl, ◌∙◌, sym, ap, true, false, not, List, [], ◌∷◌, ◌++◌,
  some, arith, if◌then◌else◌, ◌>>=◌, ◌⊎◌, length, get_elem?, get_elem?-some, take, drop, Bool-cases,
  inl, inr, lt_of_get_elem?, ext_get_elem?, lt→ltb, ltb-false,
}
use mathlib.Core.List.{append-nil}
use native.Mathlib.Decide.{dec_lt}
use ycetl.Order.{Order, less, equivalent, equivalent_trans}
use ycetl.Sequence.{
  insert_at, get_elem?-insert_at, remove_range, get_elem?-remove_range, get_elem?-take,
  get_elem?-drop, length-take, length-drop,
}
use ycetl.Flat.{partition_point, hit}
use ycetl.Flat.Search.{partition_point-IsCut}
use ycetl.Flat.Runs.{
  matching, IsOrdered, IsLower, IsUpper, IsOrdered-IsPartitioned, IsOrdered-upper, matching-append,
  matching-none, matching-all, matching_congr, matching-take, matching-drop, run, run-equivalent,
}

module _ {A : Type 0} where
  split_at : (n : ℕ) (xs : List A) → take n xs ++ drop n xs ≡ xs
  split_at zero xs = refl
  split_at (suc n) [] = refl
  split_at (suc n) (x ∷ xs) = ap (λ ys. x ∷ ys) (split_at n xs)

  split_run : (lo hi : ℕ) (xs : List A) → lo ≤ hi → run lo hi xs ++ drop hi xs ≡ drop lo xs
  split_run lo hi xs le =
      ap (λ ys. run lo hi xs ++ ys) (sym later) ∙ split_at (hi - lo) (drop lo xs)
    where
      later : drop (hi - lo) (drop lo xs) ≡ drop hi xs
      later = ext_get_elem? _ _ (λ k.
          let far : lo + (hi - lo + k) ≡ hi + k = omega arith in
          rw
            (
              get_elem?-drop (hi - lo) (drop lo xs) k,
              get_elem?-drop lo xs (hi - lo + k),
              get_elem?-drop hi xs k,
              far,
            )
            refl)

  from_head : (xs : List A) (x : A) → get_elem? xs 0 ≡ some x → (rest : List A) × (xs ≡ x ∷ rest)
  from_head [] x h = absurd (cc h)
  from_head (y ∷ xs) x h = (xs, cc h)

  empty_of : (xs : List A) → length xs ≡ 0 → xs ≡ []
  empty_of [] h = refl
  empty_of (x ∷ xs) h = absurd (omega arith)

module _ {E K : Type 0} ⦃o : Order K⦄ (key : E → K) where
  -- The new element is the last under its key, and the other keys have what they had.
  pub record Appends (e : E) (xs ys : List E) : Type 0 where
    pub kept : IsOrdered key ys
    pub groups :
        (q : K)
        → matching key q ys ≡ matching key q xs ++ (if equivalent (key e) q then e ∷ [] else [])

  -- The key has no element, and the other keys have what they had.
  pub record Clears (k : K) (xs ys : List E) : Type 0 where
    pub kept : IsOrdered key ys
    pub groups : (q : K) → matching key q ys ≡ (if equivalent k q then [] else matching key q xs)

  module _ (xs : List E) (ordered : IsOrdered key xs) where
    insert_at-IsOrdered :
        (n : ℕ) (e : E) → IsUpper key (key e) xs n → IsOrdered key (insert_at n e xs)
    insert_at-IsOrdered n e up i j x y lt at at' =
        let a = sym (get_elem?-insert_at n e xs i up.bound) ∙ at in
        let b = sym (get_elem?-insert_at n e xs j up.bound) ∙ at' in
        ground (
          arith,
          a,
          b,
          ordered i j x y,
          ordered i (j - 1) x y,
          ordered (i - 1) (j - 1) x y,
          up.below i x,
          up.above (j - 1) y,
          o.irreflexive (key e),
          o.transitive (key e) (key y) (key e),
        )

    pub insert_at-Appends :
        (n : ℕ) (e : E) → IsUpper key (key e) xs n → Appends e xs (insert_at n e xs)
    unfolding insert_at matching
    insert_at-Appends n e up = record {
      kept = insert_at-IsOrdered n e up;
      groups = λ q.
          matching-append key q (take n xs) (e ∷ drop n xs)
          ∙ elim (Bool-cases (equivalent (key e) q)) [
            | inl t ↦
                let none_after : matching key q (drop n xs) ≡ [] =
                  sym (matching_congr key (key e) q (drop n xs) t)
                  ∙ matching-drop key (key e) xs n up in
                rw (t, none_after)
                  (ap (λ ys. ys ++ e ∷ [])
                    (sym (append-nil (matching key q (take n xs)))
                      ∙ ap (λ ys. matching key q (take n xs) ++ ys) (sym none_after)
                      ∙ whole q))
            | inr t ↦ rw (t, append-nil (matching key q xs)) (whole q)
          ];
    }
      where
        whole :
            (q : K) → matching key q (take n xs) ++ matching key q (drop n xs) ≡ matching key q xs
        whole q =
            sym (matching-append key q (take n xs) (drop n xs))
            ∙ ap (matching key q) (split_at n xs)

    module _ (k : K) (lo hi : ℕ) (low : IsLower key k xs lo) (up : IsUpper key k xs hi) where
      pub lower_le_upper : lo ≤ hi
      lower_le_upper = elim (dec_lt hi lo) [
        | no ge ↦ omega arith
        | yes lt ↦
            let (e, at) = get_elem?-some xs hi (omega (arith, low.bound)) in
            absurd (
              ground (
                arith,
                low.below hi e lt at,
                up.above hi e (omega arith) at,
                o.transitive k (key e) k,
                o.irreflexive k,
              ))
      ]

      -- The elements under the key are those between the cuts.
      pub matching-run : matching key k xs ≡ run lo hi xs
      matching-run =
          ap (matching key k) (sym (split_at lo xs))
          ∙ matching-append key k (take lo xs) (drop lo xs)
          ∙ ap (λ ys. ys ++ matching key k (drop lo xs)) (matching-take key k xs lo low)
          ∙ ap (matching key k) (sym (split_run lo hi xs lower_le_upper))
          ∙ matching-append key k (run lo hi xs) (drop hi xs)
          ∙ ap (λ ys. matching key k (run lo hi xs) ++ ys) (matching-drop key k xs hi up)
          ∙ append-nil (matching key k (run lo hi xs))
          ∙ matching-all key k (run lo hi xs) (run-equivalent key k xs lo hi low up)

      pub remove_range-Clears : Clears k xs (remove_range lo hi xs)
      unfolding remove_range
      remove_range-Clears = record { kept = closed; groups = groups }
        where
          closed : IsOrdered key (remove_range lo hi xs)
          closed i j x y lt at at' = ground (
            arith,
            get_elem?-remove_range lo hi xs i lower_le_upper up.bound,
            get_elem?-remove_range lo hi xs j lower_le_upper up.bound,
            ordered i j x y,
            ordered i (j + (hi - lo)) x y,
            ordered (i + (hi - lo)) (j + (hi - lo)) x y,
          )

          groups :
              (q : K)
              → matching key q (remove_range lo hi xs)
                ≡ (if equivalent k q then [] else matching key q xs)
          groups q =
              matching-append key q (take lo xs) (drop hi xs) ∙ elim (Bool-cases (equivalent k q)) [
                | inl t ↦
                    rw
                      (
                        t,
                        sym (matching_congr key k q (take lo xs) t),
                        sym (matching_congr key k q (drop hi xs) t),
                        matching-take key k xs lo low,
                        matching-drop key k xs hi up,
                      )
                      refl
                | inr t ↦ rw t (
                    sym (
                      ap (matching key q) (sym (split_at lo xs))
                      ∙ matching-append key q (take lo xs) (drop lo xs)
                      ∙ ap (λ ys. matching key q (take lo xs) ++ ys)
                          (ap (matching key q) (sym (split_run lo hi xs lower_le_upper))
                            ∙ matching-append key q (run lo hi xs) (drop hi xs)
                            ∙ ap (λ ys. ys ++ matching key q (drop hi xs)) (others q t))))
              ]
            where
              others : (q : K) → equivalent k q ≡ false → matching key q (run lo hi xs) ≡ []
              others q t = matching-none key q (run lo hi xs) (λ i e at.
                  sym (equivalent_trans (key e) k q (run-equivalent key k xs lo hi low up i e at))
                  ∙ t)

  module _ (k : K) (xs : List E) where
    -- The code finds the first element under the key, and says so.
    abbrev pub Heads : ℕ → Type 0
    Heads n =
        (e : E) × (rest : List E) × (matching key k xs ≡ e ∷ rest)
        × (get_elem? xs n ≡ some e)
        × (hit (λ f. less k (key f)) n xs ≡ some true)

    -- There is no element under the key, and the code says so.
    abbrev pub Lacks : ℕ → Type 0
    Lacks n = (matching key k xs ≡ []) × (hit (λ f. less k (key f)) n xs ≡ some false)

    -- Where the two binary searches end.
    pub record Bounds (lo hi : ℕ) : Type 0 where
      pub lower : partition_point (λ e. less (key e) k) xs ≡ some lo
      pub upper : partition_point (λ e. not (less k (key e))) xs ≡ some hi
      pub low : IsLower key k xs lo
      pub up : IsUpper key k xs hi
      pub le : lo ≤ hi
      pub size : hi ≡ lo + length (matching key k xs)

    pub bounds : IsOrdered key xs → (lo : ℕ) × (hi : ℕ) × Bounds lo hi
    bounds ordered =
        let (lo, lower, low) =
          partition_point-IsCut (λ e. less (key e) k) xs
            (IsOrdered-IsPartitioned key k xs ordered) in
        let (hi, upper, up) =
          partition_point-IsCut (λ e. not (less k (key e))) xs (IsOrdered-upper key k xs ordered) in
        let le = lower_le_upper xs ordered k lo hi low up in
        (
          lo,
          hi,
          record {
            lower = lower;
            upper = upper;
            low = low;
            up = up;
            le = le;
            size =
                rw (matching-run xs ordered k lo hi low up)
                  (omega (arith, length-take (hi - lo) (drop lo xs), length-drop lo xs, up.bound));
          },
        )

    pub hit_cases : (ordered : IsOrdered key xs) (lo hi : ℕ) → Bounds lo hi → Heads lo ⊎ Lacks lo
    unfolding hit
    hit_cases ordered lo hi b = elim (dec_lt lo hi) [
      | yes lt ↦
          let (e, at) = get_elem?-some xs lo (omega (arith, b.up.bound)) in
          let (rest, is) = from_head (matching key k xs) e (head-run e at lt) in
          inl (
            e,
            rest,
            is,
            at,
            rw (lt→ltb lo (length xs) (lt_of_get_elem? xs lo at), at, ◌>>=◌)
                (ground (arith, b.up.below lo e lt at)),
          )
      | no ge ↦ inr (empty_of (matching key k xs) (omega (arith, b.size)), past ge)
    ]
      where
        head-run :
            (e : E) → get_elem? xs lo ≡ some e → lo < hi → get_elem? (matching key k xs) 0 ≡ some e
        head-run e at lt =
            let first : lo + 0 ≡ lo = omega arith in
            rw
              (
                matching-run xs ordered k lo hi b.low b.up,
                get_elem?-take (hi - lo) (drop lo xs) 0,
                get_elem?-drop lo xs 0,
                first,
              )
              (ground arith)

        past : ¬ (lo < hi) → hit (λ f. less k (key f)) lo xs ≡ some false
        past ge = elim (dec_lt lo (length xs)) [
          | no out ↦ rw (ltb-false lo (length xs) (omega arith))
          | yes lt ↦
              let (e, at) = get_elem?-some xs lo lt in
              rw (lt→ltb lo (length xs) lt, at, ◌>>=◌)
                (ground (arith, b.up.above lo e (omega (arith, b.le)) at))
        ]
