-- ===== src/Monitor/Numbers.antt =====
-- The printing of decimal numbers by monitor.c.
use native.Mathlib.Nat.{pow-suc}
use ahk_main.Base.{
  ℕ, zero, suc, ◌+◌, ◌-◌, ◌*◌, ◌/◌, ◌%◌, ◌^◌, ◌≤◌, ◌<◌, ◌≡◌, refl, ◌∙◌, inl, inr, Bool-cases, List,
  [], ◌∷◌, ok, false, ltb, ◌==◌, lt→ltb, ne→eqb_false, arith,
}
use ahk_main.Monitor.{
  Monitor, is_positive, dec_chars, copy_reversed, monitor_write, monitor_write_dec,
}

-- Each character is a digit.
abbrev pub IsDecimal : List ℕ → Type 0
IsDecimal [] = Unit
IsDecimal (c ∷ cs) = (48 ≤ c) × (c < 58) × IsDecimal cs

-- The number that characters spell, the highest digit first, behind the digits of `acc`.
abbrev pub spelled : ℕ → List ℕ → ℕ
spelled acc [] = acc
spelled acc (c ∷ cs) = spelled (acc * 10 + (c - 48)) cs

-- The number that they spell, the lowest digit first.
abbrev spelled_back : List ℕ → ℕ
spelled_back [] = 0
spelled_back (c ∷ cs) = spelled_back cs * 10 + (c - 48)

spelled-copy_reversed :
    (c c2 : List ℕ) → spelled 0 (copy_reversed c c2) ≡ spelled (spelled_back c) c2
unfolding copy_reversed
spelled-copy_reversed [] c2 = refl
spelled-copy_reversed (x ∷ c) c2 = spelled-copy_reversed c (x ∷ c2)

copy_reversed-IsDecimal :
    (c c2 : List ℕ) → IsDecimal c → IsDecimal c2 → IsDecimal (copy_reversed c c2)
unfolding copy_reversed
copy_reversed-IsDecimal [] c2 d e = e
copy_reversed-IsDecimal (x ∷ c) c2 d e = copy_reversed-IsDecimal c (x ∷ c2) d.2 (d.0, d.1, e)

dec_chars-spelled :
    (free acc : ℕ)
    → acc < 10 ^ free
    → acc < 2 ^ 31
    → (cs : List ℕ) × (dec_chars free acc ≡ ok cs) × (spelled_back cs ≡ acc) × IsDecimal cs
unfolding dec_chars
dec_chars-spelled zero acc h fits =
    let none_left : acc ≡ 0 = omega arith in ([], rw none_left refl, omega arith, tt)
dec_chars-spelled (suc free) acc h fits =
    let below : acc / 10 < 10 ^ free = omega (arith, pow-suc 10 free) in
    let (cs, returns, value, digits) = dec_chars-spelled free (acc / 10) below (omega arith) in
    let in_range = lt→ltb acc (2 ^ 31) fits in
    elim (Bool-cases (ltb 0 acc)) [
      | inl e ↦ (
        (48 + acc % 10) ∷ cs,
        rw (e, in_range, returns) refl,
        omega (arith, value),
        (omega arith, omega arith, digits),
      )
      | inr e ↦ ([], rw e refl, ground arith, tt)
    ]

-- `monitor_write_dec` of a number below 2 ^ 31 returns, and writes a string of decimal digits that
-- spells the number.
pub monitor_write_dec-spelled :
    (n : ℕ) (s : Monitor)
    → n < 2 ^ 31
    → (cs : List ℕ) × (monitor_write_dec n s ≡ ok (monitor_write cs s))
      × (spelled 0 cs ≡ n)
      × IsDecimal cs
unfolding monitor_write_dec monitor_write
monitor_write_dec-spelled n s h = elim (Bool-cases (n == 0)) [
  | inl e ↦ (48 ∷ [], rw e refl, ground arith, (omega arith, omega arith, tt))
  | inr e ↦
      let (cs, returns, value, digits) = dec_chars-spelled 31 n (omega arith) h in
      (
        copy_reversed cs [],
        rw (e, returns) refl,
        spelled-copy_reversed cs [] ∙ value,
        copy_reversed-IsDecimal cs [] digits tt,
      )
]

-- A number that is negative in 32 bits has no digits.
dec_chars_negative : (free acc : ℕ) → 2 ^ 31 ≤ acc → dec_chars free acc ≡ ok []
unfolding dec_chars
dec_chars_negative zero acc h =
    let negative : is_positive acc ≡ false = ground arith in rw negative refl
dec_chars_negative (suc free) acc h =
    let negative : is_positive acc ≡ false = ground arith in rw negative refl

-- `monitor_write_dec` of a number from 2 ^ 31 on writes nothing.
monitor_write_dec_negative : (n : ℕ) (s : Monitor) → 2 ^ 31 ≤ n → monitor_write_dec n s ≡ ok s
unfolding monitor_write_dec monitor_write copy_reversed
monitor_write_dec_negative n s h =
    let other = ne→eqb_false n 0 (omega arith) in rw (other, dec_chars_negative 31 n h) refl

-- `monitor_write_dec` returns for every number, and does what some string does.
pub monitor_write_dec-returns :
    (n : ℕ) (s : Monitor) → (cs : List ℕ) × (monitor_write_dec n s ≡ ok (monitor_write cs s))
unfolding monitor_write
monitor_write_dec-returns n s = elim (Bool-cases (ltb n (2 ^ 31))) [
  | inl e ↦ let (cs, returns, _, _) = monitor_write_dec-spelled n s (ground arith) in (cs, returns)
  | inr e ↦ ([], monitor_write_dec_negative n s (ground arith))
]
