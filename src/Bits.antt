-- ===== src/Bits.antt =====
-- The binary digits of the machine words of include/ycetl/bitset.hpp: what `&`, `|`, `^`, `~`, the
-- shifts and the masks do to each digit.
pub mod Digits
pub mod Masks
pub mod Ones
use ycetl.Base.{ℕ, zero, suc, ◌/◌, ◌%◌, Bool, ◌==◌}

abbrev pub testbit : ℕ → ℕ → Bool
testbit a zero = a % 2 == 1
testbit a (suc j) = testbit (a / 2) j
