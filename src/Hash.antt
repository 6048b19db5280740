-- ===== src/Hash.antt =====
-- include/ycetl/hash.hpp: words of 64 bits are numbers below 2 ^ 64, and a string is the list of its
-- bytes.
pub mod Steps
pub mod Laws
use Prim.Native.Nat.{bit_xor}
use ycetl.Base.{ℕ, ◌+◌, ◌-◌, ◌*◌, ◌/◌, ◌%◌, ◌^◌, List, [], ◌∷◌}
use ycetl.Size.{size_mod, add_size, mul_size}

abbrev pub offset_basis : ℕ
offset_basis = 14695981039346656037

abbrev pub prime : ℕ
prime = 1099511628211

-- `h ^= byte; h *= prime;`
unfoldable pub absorb : ℕ → ℕ → ℕ
absorb h byte = mul_size (bit_xor h byte) prime

-- The loop of `fnv1a_hash`, over the bytes left.
unfoldable pub fnv1a_loop : ℕ → List ℕ → ℕ
fnv1a_loop h [] = h
fnv1a_loop h (byte ∷ str) = fnv1a_loop (absorb h byte) str

unfoldable pub fnv1a_hash : List ℕ → ℕ
unfolding fnv1a_loop absorb
fnv1a_hash str = fnv1a_loop offset_basis str

-- `x << k`
abbrev pub shift_left : ℕ → ℕ → ℕ
shift_left x k = x * 2 ^ k % size_mod

-- `x ^ (x >> k)`
unfoldable pub xor_shift : ℕ → ℕ → ℕ
xor_shift k x = bit_xor x (x / 2 ^ k)

-- `(~x) + (x << 21)`
unfoldable pub mix_first : ℕ → ℕ
mix_first x = add_size (size_mod - 1 - x) (shift_left x 21)

-- `(x + (x << 3)) + (x << 8)`
unfoldable pub mix_third : ℕ → ℕ
mix_third x = add_size (add_size x (shift_left x 3)) (shift_left x 8)

-- `(x + (x << 2)) + (x << 4)`
unfoldable pub mix_fifth : ℕ → ℕ
mix_fifth x = add_size (add_size x (shift_left x 2)) (shift_left x 4)

-- `x + (x << 31)`
unfoldable pub mix_last : ℕ → ℕ
mix_last x = add_size x (shift_left x 31)

unfoldable pub mix64 : ℕ → ℕ
unfolding xor_shift mix_first mix_third mix_fifth mix_last
mix64 x =
    mix_last (xor_shift 28 (mix_fifth (xor_shift 14 (mix_third (xor_shift 24 (mix_first x))))))
