-- ===== src/Size.antt =====
-- `std::size_t` on a 64-bit target: arithmetic modulo 2 ^ 64.
use ycetl.Base.{ℕ, ◌+◌, ◌-◌, ◌*◌, ◌%◌, ◌^◌}

abbrev pub size_mod : ℕ
size_mod = 2 ^ 64

abbrev pub add_size : ℕ → ℕ → ℕ
add_size a b = (a + b) % size_mod

abbrev pub sub_size : ℕ → ℕ → ℕ
sub_size a b = (a + size_mod - b) % size_mod

abbrev pub mul_size : ℕ → ℕ → ℕ
mul_size a b = a * b % size_mod

-- `size_type(-1)`
abbrev pub npos : ℕ
npos = size_mod - 1
