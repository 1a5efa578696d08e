-- ===== src/Memory.antt =====
-- The memory that kheap.c reads and writes through pointers: a byte at each address, and little
-- endian 32-bit words at any address, aligned or not.
pub mod Laws
use ahk_main.Base.{ℕ, ◌+◌, ◌*◌, ◌/◌, ◌%◌, ◌^◌, ◌==◌, if◌then◌else◌}

abbrev pub Memory : Type 0
Memory = ℕ → ℕ

unfoldable pub store8 : Memory → ℕ → ℕ → Memory
store8 m a v x = if x == a then v % 2 ^ 8 else m x

unfoldable pub load32 : Memory → ℕ → ℕ
load32 m a = m a + m (a + 1) * 2 ^ 8 + m (a + 2) * 2 ^ 16 + m (a + 3) * 2 ^ 24

unfoldable pub store32 : Memory → ℕ → ℕ → Memory
store32 m a v x =
    if x == a
    then v % 2 ^ 8
    else if x == a + 1
    then v / 2 ^ 8 % 2 ^ 8
    else if x == a + 2
    then v / 2 ^ 16 % 2 ^ 8
    else if x == a + 3
    then v / 2 ^ 24 % 2 ^ 8
    else m x
