-- ===== src/Sequence.antt =====
-- What a sequence container promises: insertion, removal and resizing of lists. The containers of
-- include/ycetl that stand on `dynamic_array` use it through these.
use Prim.Native.Nat.{min}
use ycetl.Base.{
  ℕ, zero, suc, ◌+◌, ◌-◌, ◌≤◌, ◌≡◌, refl, ap, ◌∙◌, ◌⊎◌, inl, inr, true, false, Bool-cases, ltb→le,
  List, [], ◌∷◌, ◌++◌, none, some, arith, ◌==◌, ltb, if◌then◌else◌, length, get_elem?, take, drop,
  replicate, length-append, get_elem?-append, length-replicate, get_elem?-replicate,
}

-- An index before `i`, or `i + k`.
lt_or_ge : (j i : ℕ) → (ltb j i ≡ true) ⊎ ((k : ℕ) × (j - i ≡ k) × (ltb j i ≡ false) × (j ≡ i + k))
lt_or_ge j i = elim (Bool-cases (ltb j i)) [
  | inl t ↦ inl t
  | inr t ↦ inr (j - i, refl, t, omega (arith, ltb→le j i t))
]

module _ {ℓ} {A : Type ℓ} where
  pub length-take : (n : ℕ) (xs : List A) → length (take n xs) ≡ min n (length xs)
  length-take zero xs = omega arith
  length-take (suc n) [] = omega arith
  length-take (suc n) (x ∷ xs) = omega (arith, length-take n xs)

  pub length-drop : (n : ℕ) (xs : List A) → length (drop n xs) ≡ length xs - n
  length-drop zero xs = omega arith
  length-drop (suc n) [] = omega arith
  length-drop (suc n) (x ∷ xs) = omega (arith, length-drop n xs)

  pub get_elem?-take :
      (n : ℕ) (xs : List A) (j : ℕ)
      → get_elem? (take n xs) j ≡ (if ltb j n then get_elem? xs j else none)
  get_elem?-take zero xs j = ground arith
  get_elem?-take (suc n) [] j = ground arith
  get_elem?-take (suc n) (x ∷ xs) zero = ground arith
  get_elem?-take (suc n) (x ∷ xs) (suc j) = ground (arith, get_elem?-take n xs j)

  pub get_elem?-drop :
      (n : ℕ) (xs : List A) (j : ℕ) → get_elem? (drop n xs) j ≡ get_elem? xs (n + j)
  get_elem?-drop zero xs j = let e : 0 + j ≡ j = omega arith in rw e
  get_elem?-drop (suc n) [] j = refl
  get_elem?-drop (suc n) (x ∷ xs) j =
      let e : suc n + j ≡ suc (n + j) = omega arith in rw e (get_elem?-drop n xs j)

  -- `v` before index `i`
  unfoldable pub insert_at : ℕ → A → List A → List A
  insert_at i v xs = take i xs ++ v ∷ drop i xs

  -- without the indices from `first` to before `last`
  unfoldable pub remove_range : ℕ → ℕ → List A → List A
  remove_range first last xs = take first xs ++ drop last xs

  -- cut, or filled up with `v`
  unfoldable pub resized : ℕ → A → List A → List A
  resized n v xs = take n xs ++ replicate (n - length xs) v

  pub length-insert_at :
      (i : ℕ) (v : A) (xs : List A) → i ≤ length xs → length (insert_at i v xs) ≡ length xs + 1
  unfolding insert_at
  length-insert_at i v xs h =
      omega (arith, length-append (take i xs) (v ∷ drop i xs), length-take i xs, length-drop i xs)

  pub get_elem?-insert_at :
      (i : ℕ) (v : A) (xs : List A) (j : ℕ)
      → i ≤ length xs
      → get_elem? (insert_at i v xs) j
        ≡ (if ltb j i then get_elem? xs j else if j == i then some v else get_elem? xs (j - 1))
  unfolding insert_at
  get_elem?-insert_at i v xs j h =
      let len : length (take i xs) ≡ i = omega (arith, length-take i xs) in
      rw (get_elem?-append (take i xs) (v ∷ drop i xs) j, len)
        (elim (lt_or_ge j i) [
          | inl t ↦ rw t (get_elem?-take i xs j ∙ rw t)
          | inr (k, d, f, e) ↦ rw (f, d, e) (tail k)
        ])
    where
      tail :
          (k : ℕ)
          → get_elem? (v ∷ drop i xs) k ≡ (if i + k == i then some v else get_elem? xs (i + k - 1))
      tail zero = ground arith
      tail (suc k) =
          let e : i + suc k - 1 ≡ i + k = omega arith in
          rw (e, get_elem?-drop i xs k) (ground arith)

  pub length-remove_range :
      (first last : ℕ) (xs : List A)
      → first ≤ last
      → last ≤ length xs
      → length (remove_range first last xs) + (last - first) ≡ length xs
  unfolding remove_range
  length-remove_range first last xs h k = omega (
    arith,
    length-append (take first xs) (drop last xs),
    length-take first xs,
    length-drop last xs,
  )

  pub get_elem?-remove_range :
      (first last : ℕ) (xs : List A) (j : ℕ)
      → first ≤ last
      → last ≤ length xs
      → get_elem? (remove_range first last xs) j
        ≡ (if ltb j first then get_elem? xs j else get_elem? xs (j + (last - first)))
  unfolding remove_range
  get_elem?-remove_range first last xs j h k =
      let len : length (take first xs) ≡ first = omega (arith, length-take first xs) in
      rw (get_elem?-append (take first xs) (drop last xs) j, len)
        (elim (lt_or_ge j first) [
          | inl t ↦ rw t (get_elem?-take first xs j ∙ rw t)
          | inr (i, d, f, e) ↦
              rw (f, d, e) (get_elem?-drop last xs i ∙ ap (get_elem? xs) (omega arith))
        ])

  pub length-resized : (n : ℕ) (v : A) (xs : List A) → length (resized n v xs) ≡ n
  unfolding resized
  length-resized n v xs = omega (
    arith,
    length-append (take n xs) (replicate (n - length xs) v),
    length-take n xs,
    length-replicate (n - length xs) v,
  )

module _ {A : Type 0} where
  pub get_elem?-snoc :
      (xs : List A) (v : A) (j : ℕ)
      → get_elem? (xs ++ v ∷ []) j
        ≡ (if ltb j (length xs) then get_elem? xs j else if j == length xs then some v else none)
  get_elem?-snoc xs v j =
      rw (get_elem?-append xs (v ∷ []) j)
        (elim (lt_or_ge j (length xs)) [ inl t ↦ rw t | inr (k, d, f, e) ↦ rw (f, d, e) (tail k) ])
    where
      tail : (k : ℕ) → get_elem? (v ∷ []) k ≡ (if length xs + k == length xs then some v else none)
      tail zero = ground arith
      tail (suc k) = ground arith

  pub get_elem?-resized :
      (n : ℕ) (v : A) (xs : List A) (j : ℕ)
      → get_elem? (resized n v xs) j
        ≡ (if ltb j n then if ltb j (length xs) then get_elem? xs j else some v else none)
  unfolding resized
  get_elem?-resized n v xs j = rw (get_elem?-append (take n xs) (replicate (n - length xs) v) j) (
      ground (
        arith,
        length-take n xs,
        get_elem?-take n xs j,
        get_elem?-replicate (n - length xs) v (j - length (take n xs)),
      ))
