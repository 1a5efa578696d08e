-- ===== src/Base/Bits.antt =====
-- The bits of a word, and what `|`, `&`, `~` and a single set bit do to each of them.
use Prim.Native.Nat.{ℕ, zero, suc, ◌-◌, ◌*◌, ◌/◌, ◌%◌, ◌^◌, ◌≤◌, ◌<◌, min, max, bit_and, bit_or}
use mathlib.Core.Path.{◌≡◌, refl, ap, ◌∙◌}
use mathlib.Core.Logic.{◌≢◌}
use native.Mathlib.Nat.{pow-suc}
use native.Mathlib.Omega.{arith}
use ahk_main.Base.Steps.{bit_or_step, bit_and_step}

-- bit `k` of `w`
unfoldable pub bit : ℕ → ℕ → ℕ
bit zero w = w % 2
bit (suc k) w = bit k (w / 2)

pub bit-lt : (k w : ℕ) → bit k w < 2
unfolding bit
bit-lt zero w = omega arith
bit-lt (suc k) w = bit-lt k (w / 2)

pub bit-bit_or : (k a b : ℕ) → bit k (bit_or a b) ≡ max (bit k a) (bit k b)
unfolding bit
bit-bit_or zero a b = omega (arith, bit_or_step a b)
bit-bit_or (suc k) a b =
    let halves : bit_or a b / 2 ≡ bit_or (a / 2) (b / 2) = omega (arith, bit_or_step a b) in
    rw halves (bit-bit_or k (a / 2) (b / 2))

pub bit-bit_and : (k a b : ℕ) → bit k (bit_and a b) ≡ min (bit k a) (bit k b)
unfolding bit
bit-bit_and zero a b = omega (arith, bit_and_step a b)
bit-bit_and (suc k) a b =
    let halves : bit_and a b / 2 ≡ bit_and (a / 2) (b / 2) = omega (arith, bit_and_step a b) in
    rw halves (bit-bit_and k (a / 2) (b / 2))

pub bit-zero : (k : ℕ) → bit k 0 ≡ 0
unfolding bit
bit-zero zero = refl
bit-zero (suc k) = bit-zero k

pub bit-two_pow_self : (k : ℕ) → bit k (2 ^ k) ≡ 1
unfolding bit
bit-two_pow_self zero = refl
bit-two_pow_self (suc k) =
    let half : 2 ^ suc k / 2 ≡ 2 ^ k = omega (arith, pow-suc 2 k) in rw half (bit-two_pow_self k)

pub bit-two_pow_ne : (j k : ℕ) → j ≢ k → bit j (2 ^ k) ≡ 0
unfolding bit
bit-two_pow_ne zero zero ne = absurd (ne refl)
bit-two_pow_ne zero (suc k) ne = omega (arith, pow-suc 2 k)
bit-two_pow_ne (suc j) zero ne = bit-zero j
bit-two_pow_ne (suc j) (suc k) ne =
    let half : 2 ^ suc k / 2 ≡ 2 ^ k = omega (arith, pow-suc 2 k) in
    rw half (bit-two_pow_ne j k (λ e. ne (ap suc e)))

-- `~w` at a width: every bit below it is turned over.
pub bit-complement : (n k w : ℕ) → k < n → w < 2 ^ n → bit k (2 ^ n - 1 - w) ≡ 1 - bit k w
unfolding bit
bit-complement zero k w h fits = absurd (omega arith)
bit-complement (suc n) zero w h fits = omega (arith, pow-suc 2 n)
bit-complement (suc n) (suc k) w h fits =
    let half : (2 ^ suc n - 1 - w) / 2 ≡ 2 ^ n - 1 - w / 2 = omega (arith, pow-suc 2 n) in
    rw half (bit-complement n k (w / 2) (omega arith) (omega (arith, pow-suc 2 n)))

bit_and-zero_below : (n a : ℕ) → a ≤ n → bit_and a 0 ≡ 0
bit_and-zero_below n zero h = refl
bit_and-zero_below zero (suc a) h = absurd (omega arith)
bit_and-zero_below (suc n) (suc a) h =
    omega (arith, bit_and_step (suc a) 0, bit_and-zero_below n (suc a / 2) (omega arith))

pub bit_and-zero : (a : ℕ) → bit_and a 0 ≡ 0
bit_and-zero a = bit_and-zero_below a a (omega arith)

-- `w & (1 << k)` is the bit, in its place.
pub bit_and-two_pow : (k w : ℕ) → bit_and w (2 ^ k) ≡ bit k w * 2 ^ k
unfolding bit
bit_and-two_pow zero w =
    omega (arith, bit_and_step w 1, bit_and-zero_below (w / 2) (w / 2) (omega arith))
bit_and-two_pow (suc k) w =
    let half : 2 ^ suc k / 2 ≡ 2 ^ k = omega (arith, pow-suc 2 k) in
    let even : 2 ^ suc k % 2 ≡ 0 = omega (arith, pow-suc 2 k) in
    bit_and_step w (2 ^ suc k) ∙ rw (half, even, bit_and-two_pow k (w / 2), pow-suc) (omega arith)
