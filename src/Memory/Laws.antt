-- ===== src/Memory/Laws.antt =====
-- A load reads the last store to its bytes, and a store changes no other byte.
use ahk_main.Base.{ℕ, ◌+◌, ◌%◌, ◌^◌, ◌≤◌, ◌<◌, ◌≡◌, ◌≢◌, ◌⊎◌, arith}
use ahk_main.Memory.{Memory, store8, load32, store32}

pub load32-store32_self : (m : Memory) (a v : ℕ) → load32 (store32 m a v) a ≡ v % 2 ^ 32
unfolding load32 store32
load32-store32_self m a v = ground arith

pub load32-store32_ne :
    (m : Memory) (a b v : ℕ) → (a + 4 ≤ b) ⊎ (b + 4 ≤ a) → load32 (store32 m a v) b ≡ load32 m b
unfolding load32 store32
load32-store32_ne m a b v h = ground arith

pub store32-ne : (m : Memory) (a x v : ℕ) → (x < a) ⊎ (a + 4 ≤ x) → store32 m a v x ≡ m x
unfolding store32
store32-ne m a x v h = ground arith

pub store8_self : (m : Memory) (a v : ℕ) → store8 m a v a ≡ v % 2 ^ 8
unfolding store8
store8_self m a v = ground arith

pub store8-ne : (m : Memory) (a x v : ℕ) → x ≢ a → store8 m a v x ≡ m x
unfolding store8
store8-ne m a x v h = ground arith

pub load32-store8_ne :
    (m : Memory) (a b v : ℕ) → (a < b) ⊎ (b + 4 ≤ a) → load32 (store8 m a v) b ≡ load32 m b
unfolding load32 store8
load32-store8_ne m a b v h = ground arith

-- Two memories that agree from `lo` up to `hi`.
abbrev pub Agree : ℕ → ℕ → Memory → Memory → Type 0
Agree lo hi m m' = (x : ℕ) → lo ≤ x → x < hi → m' x ≡ m x

pub load32-Agree :
    {lo hi : ℕ} {m m' : Memory} (a : ℕ)
    → Agree lo hi m m'
    → lo ≤ a
    → a + 4 ≤ hi
    → load32 m' a ≡ load32 m a
unfolding load32
load32-Agree a h p q = omega (arith, h a, h (a + 1), h (a + 2), h (a + 3))
