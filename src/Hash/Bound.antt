-- ===== src/Hash/Bound.antt =====
-- A masked hash stays inside the table.
use Prim.Native.Nat.{digits, bit_and, bit_and-bitwise, min}
use sngrep.Common.{ℕ, zero, suc, ◌+◌, ◌-◌, ◌/◌, ◌%◌, ◌^◌, ◌≤◌, ◌<◌, arith}
use sngrep.Hash.{Key, word, hash_loop, hash_of}

abbrev and_digits : ℕ → ℕ → ℕ → ℕ
and_digits n a b = digits (λ b. zero) min n a b

and_digits-le : (n a b : ℕ) → and_digits n a b ≤ b
and_digits-le zero zero b = omega arith
and_digits-le zero (suc a) b = omega arith
and_digits-le (suc n) zero b = omega arith
and_digits-le (suc n) (suc a) b = omega (arith, and_digits-le n (suc a / 2) (b / 2))

-- A conjunction is not greater than the mask.
bit_and-le : (a b : ℕ) → bit_and a b ≤ b
bit_and-le a b = omega (arith, bit_and-bitwise a b, and_digits-le a a b)

-- `htable_hash` is below the size of every table of a positive size below 2^64.
pub hash_of-lt : (size : ℕ) (key : Key) → 0 < size → size < 2 ^ 64 → hash_of size key < size
unfolding hash_of
hash_of-lt size key p q = omega (arith, bit_and-le (hash_loop 5381 key) ((size + word - 1) % word))
