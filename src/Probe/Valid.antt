-- ===== src/Probe/Valid.antt =====
-- What makes the slots of include/ycetl/unordered_map.hpp and unordered_set.hpp a table: every
-- filled slot is reached by a probe for its key, and no two have equal keys.
use native.Mathlib.Nat.{mod-lt}
use ycetl.Base.{
  ℕ, ◌%◌, ◌^◌, ◌<◌, ◌≡◌, ap, ◌⊎◌, inl, inr, true, false, List, Option, some, arith, length,
  get_elem?, Bool-cases, lt_of_get_elem?,
}
use native.Mathlib.Decide.{dec_lt}
use ycetl.Rounds.{round, unround}
use ycetl.Probe.{Hashed, Slot, Table, is_filled, is_empty, matches}
use ycetl.Probe.Scan.{first, count, Lacks}

module _ {K E : Type 0} ⦃o : Hashed K⦄ (key : E → K) where
  -- The slot where the probes for a key start, of `n`.
  abbrev pub home : K → ℕ → ℕ
  home k n = o.hash k % n

  -- Every filled slot is reached by a probe for its key; keys may repeat.
  pub record IsReached (slots : List (Slot E)) : Type 0 where
    pub bound : length slots < 2 ^ 62
    pub reach :
        (d p : ℕ) (s s' : Slot E)
        → d < length slots
        → p < d
        → get_elem? slots (round (home (key s.entry) (length slots)) d (length slots)) ≡ some s
        → is_filled s.state ≡ true
        → get_elem? slots (round (home (key s.entry) (length slots)) p (length slots)) ≡ some s'
        → is_empty s'.state ≡ false

  pub record IsValid (slots : List (Slot E)) : Type 0 where
    pub bound : length slots < 2 ^ 62
    pub reach :
        (d p : ℕ) (s s' : Slot E)
        → d < length slots
        → p < d
        → get_elem? slots (round (home (key s.entry) (length slots)) d (length slots)) ≡ some s
        → is_filled s.state ≡ true
        → get_elem? slots (round (home (key s.entry) (length slots)) p (length slots)) ≡ some s'
        → is_empty s'.state ≡ false
    pub unique :
        (i j : ℕ) (s s' : Slot E)
        → get_elem? slots i ≡ some s
        → get_elem? slots j ≡ some s'
        → is_filled s.state ≡ true
        → is_filled s'.state ≡ true
        → o.equal (key s.entry) (key s'.entry) ≡ true
        → i ≡ j

  pub IsValid-IsReached : {slots : List (Slot E)} → IsValid slots → IsReached slots
  IsValid-IsReached valid = record { bound = valid.bound; reach = valid.reach }

  -- A table whose size counts its filled slots.
  pub record IsTable (t : Table E) : Type 0 where
    pub valid : IsValid t.slots
    pub size : t.size ≡ count (λ s. is_filled s.state) t.slots

  -- The reference definition of a lookup: a scan of all the slots, wherever they stand.
  unfoldable pub stored : K → Table E → Option (Slot E)
  stored k t = first (matches key k) t.slots

  -- The slots up to `d` places on from `h` were passed by a probe for `k`.
  abbrev pub Passed : K → List (Slot E) → (h d : ℕ) → Type 0
  Passed k slots h d =
      (q : ℕ) (s : Slot E)
      → q < d
      → get_elem? slots (round h q (length slots)) ≡ some s
      → (is_empty s.state ≡ false) × (matches key k s ≡ false)

  pub matches-split :
      (k : K) (s : Slot E)
      → matches key k s ≡ true
      → (is_filled s.state ≡ true) × (o.equal (key s.entry) k ≡ true)
  matches-split k s t = (ground arith, ground arith)

  -- The probe came round, or ended at an empty slot.
  abbrev pub Ends : List (Slot E) → (h d : ℕ) → Type 0
  Ends slots h d =
      (d ≡ length slots)
      ⊎ ((s : Slot E) × (d < length slots)
          × (get_elem? slots (round h d (length slots)) ≡ some s)
          × (is_empty s.state ≡ true))

  pub home-lt : (k : K) (n : ℕ) → 0 < n → home k n < n
  home-lt k n pos = mod-lt (o.hash k) pos

  -- A probe that passed by all the slots it saw, to its end, shows that the key is nowhere.
  pub Passed-Lacks :
      (k : K) {slots : List (Slot E)} (d : ℕ)
      → IsReached slots
      → 0 < length slots
      → Passed k slots (home k (length slots)) d
      → Ends slots (home k (length slots)) d
      → Lacks (matches key k) slots
  Passed-Lacks k {slots} d valid pos passed ends i s at = elim (Bool-cases (matches key k s)) [
    | inr t ↦ t
    | inl t ↦
        let n = length slots in
        let (full, same) = matches-split k s t in
        let homes : home (key s.entry) n ≡ home k n = ap (λ c. c % n) (o.hash_equal _ _ same) in
        let (d', lt, e) = unround (home k n) i n (home-lt k n pos) (lt_of_get_elem? slots i at) in
        let there : get_elem? slots (round (home k n) d' n) ≡ some s = rw e at in
        absurd (elim (dec_lt d' d) [
          | yes before ↦ cc (passed d' s before there).1
          | no after ↦ elim ends [
            | inl all ↦ omega arith
            | inr (s', lt', stop, free) ↦ elim (dec_lt d d') [
              | yes past ↦
                  let seen = valid.reach d' d s s' lt past (rw homes there) full (rw homes stop) in
                  cc seen
              | no not_past ↦
                  let d=d' : d ≡ d' = omega arith in
                  clash s s' (ap (λ c. get_elem? slots (round (home k n) c n)) d=d') stop there full
                    free
            ]
          ]
        ])
  ]
    where
      clash :
          (s s' : Slot E) {c c' : Option (Slot E)}
          → c ≡ c'
          → c ≡ some s'
          → c' ≡ some s
          → is_filled s.state ≡ true
          → is_empty s'.state ≡ true
          → ⊥
      clash s s' e stop there full free = ground arith
