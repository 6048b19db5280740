-- ===== src/Rounds.antt =====
-- Indices round a ring of slots, as include/ycetl/deque.hpp and the probe loops of
-- include/ycetl/unordered_map.hpp and unordered_set.hpp compute them.
use native.Mathlib.Nat.{mod-eq_of_lt, mod-eq-sub-mod}
use native.Mathlib.Decide.{dec_lt}
use ycetl.Base.{
  ℕ, ◌+◌, ◌-◌, ◌%◌, ◌^◌, ◌≤◌, ◌<◌, ◌≡◌, ◌∙◌, Option, none, some, arith, ◌==◌, ltb, if◌then◌else◌,
  ltb-false, lt→ltb,
}
use ycetl.Size.{add_size}

-- A remainder by the number of slots, which is a fault if there are none.
unfoldable pub modulo : ℕ → ℕ → Option ℕ
modulo i n = if n == 0 then none else some (i % n)

-- The index `i` places on from `h` in a ring of `n`.
abbrev pub round : (h i n : ℕ) → ℕ
round h i n = if ltb (h + i) n then h + i else h + i - n

pub mod-round : (h i n : ℕ) → h < n → i ≤ n → (h + i) % n ≡ round h i n
mod-round h i n lt le = elim (dec_lt (h + i) n) [
  | yes p ↦ rw (lt→ltb (h + i) n p) (mod-eq_of_lt p)
  | no p ↦
      rw (ltb-false (h + i) n (omega arith))
        (mod-eq-sub-mod {n = h + i} {m = n} (omega arith) ∙ mod-eq_of_lt (omega arith))
]

pub modulo-round :
    (h i n : ℕ) → h < n → i ≤ n → n < 2 ^ 62 → modulo (add_size h i) n ≡ some (round h i n)
unfolding modulo
modulo-round h i n lt le small =
    let wrap : add_size h i ≡ h + i = omega arith in rw (wrap, mod-round h i n lt le) (ground arith)

-- Every slot is some number of places on from `h`.
pub unround : (h i n : ℕ) → h < n → i < n → (d : ℕ) × (d < n) × (round h d n ≡ i)
unround h i n lt lt' = elim (dec_lt i h) [
  | yes p ↦ (i + n - h, omega arith, ground arith)
  | no p ↦ (i - h, omega arith, ground arith)
]

pub round-lt-length : (h d n : ℕ) → h < n → d < n → round h d n < n
round-lt-length h d n lt lt' = ground arith
