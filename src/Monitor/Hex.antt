-- ===== src/Monitor/Hex.antt =====
-- The printing of hexadecimal numbers by monitor.c.
use native.Mathlib.Nat.{pow-suc, div-div-eq-div-mul}
use ahk_main.Base.{
  ℕ, zero, suc, ◌+◌, leb, ◌≤◌, ◌⊎◌, ◌-◌, ◌*◌, ◌/◌, ◌%◌, ◌^◌, ◌<◌, ◌≡◌, refl, ap, sym, subst, ◌∙◌,
  true, false, Bool, ◌&&◌, inl, inr, Bool-cases, List, [], ◌∷◌, ltb, ◌==◌, if◌then◌else◌, arith,
}
use ahk_main.Monitor.{Monitor, monitor_write, monitor_put, hex_char, hex_from, monitor_write_hex}

-- The value of a character that `monitor_write_hex` writes for a digit.
abbrev pub hex_value : ℕ → ℕ
hex_value c = if ltb c 58 then c - 48 else c - 87

-- Each character is one of 0 to 9 or of a to f.
abbrev pub IsHexadecimal : List ℕ → Type 0
IsHexadecimal [] = Unit {0}
IsHexadecimal (c ∷ cs) = (((48 ≤ c) × (c < 58)) ⊎ ((97 ≤ c) × (c < 103))) × IsHexadecimal cs

-- The number that characters spell, the highest digit first, behind the digits of `acc`.
abbrev pub hex_spelled : ℕ → List ℕ → ℕ
hex_spelled acc [] = acc
hex_spelled acc (c ∷ cs) = hex_spelled (acc * 16 + hex_value c) cs

hex_char-value : (d : ℕ) → d < 16 → hex_value (hex_char d) ≡ d
hex_char-value d h = ground arith

hex_char-digit :
    (d : ℕ)
    → d < 16
    → ((48 ≤ hex_char d) × (hex_char d < 58)) ⊎ ((97 ≤ hex_char d) × (hex_char d < 103))
hex_char-digit d h = elim (Bool-cases (leb 0xA d)) [
  | inl e ↦ rw e (inr (ground arith, ground arith))
  | inr e ↦ rw e (inl (omega arith, ground arith))
]

hex_char-ne_zero : (d : ℕ) → (hex_char d == 0) ≡ false
hex_char-ne_zero d = ground arith

-- A digit and the number in front of it.
next_prefix :
    (n r : ℕ) → n / 2 ^ (4 * suc (suc r)) * 16 + n / 2 ^ (4 * suc r) % 16 ≡ n / 2 ^ (4 * suc r)
next_prefix n r =
    let e : 4 * suc (suc r) ≡ suc (suc (suc (suc (4 * suc r)))) = omega arith in
    let p : 2 ^ (4 * suc (suc r)) ≡ 2 ^ (4 * suc r) * 16 =
      ap (λ k. 2 ^ k) e
      ∙ omega (
        arith,
        pow-suc 2 (4 * suc r),
        pow-suc 2 (suc (4 * suc r)),
        pow-suc 2 (suc (suc (4 * suc r))),
        pow-suc 2 (suc (suc (suc (4 * suc r)))),
      ) in
    rw p (omega (arith, div-div-eq-div-mul n (2 ^ (4 * suc r)) 16))

hex_from-spelled :
    (rounds : ℕ) (no_zeroes : Bool) (n : ℕ) (s : Monitor)
    → (no_zeroes ≡ true → n / 2 ^ (4 * suc rounds) ≡ 0)
    → (cs : List ℕ) × (monitor_put (hex_char (n % 16)) (hex_from rounds no_zeroes n s)
        ≡ monitor_write cs s)
      × (hex_spelled (n / 2 ^ (4 * suc rounds)) cs ≡ n)
      × IsHexadecimal cs
unfolding hex_from monitor_write
hex_from-spelled zero z n s h = (
  hex_char (n % 16) ∷ [],
  rw (hex_char-ne_zero (n % 16)) refl,
  rw (hex_char-value (n % 16) (omega arith)) (omega arith),
  (hex_char-digit (n % 16) (omega arith), tt),
)
hex_from-spelled (suc r) z n s h =
    let tmp : ℕ = n / 2 ^ (4 * suc r) % 16 in
    let step = next_prefix n r in
    elim (Bool-cases ((tmp == 0) && z)) [
      | inl e ↦
          let head : n / 2 ^ (4 * suc (suc r)) ≡ 0 = h (ground arith) in
          let now : n / 2 ^ (4 * suc r) ≡ 0 = ground arith in
          let (cs, writes, value, digits) = hex_from-spelled r z n s (λ _. now) in
          (cs, rw e writes, subst (λ p. hex_spelled p cs ≡ n) (now ∙ sym head) value, digits)
      | inr e ↦
          let (cs, writes, value, digits) =
            hex_from-spelled r false n (monitor_put (hex_char tmp) s) (λ e. cc e) in
          (
            hex_char tmp ∷ cs,
            rw (e, hex_char-ne_zero tmp) writes,
            rw (hex_char-value tmp (omega arith), step) value,
            (hex_char-digit tmp (omega arith), digits),
          )
    ]

-- `monitor_write_hex` of a 32-bit number writes "0x" and then a string of hexadecimal digits, 0 to 9
-- and a to f, that spells the number.
pub monitor_write_hex-spelled :
    (n : ℕ) (s : Monitor)
    → n < 2 ^ 32
    → (cs : List ℕ) × (monitor_write_hex n s ≡ monitor_write (48 ∷ 120 ∷ cs) s)
      × (hex_spelled 0 cs ≡ n)
      × IsHexadecimal cs
unfolding monitor_write_hex monitor_write
monitor_write_hex-spelled n s h =
    let high : n / 2 ^ 32 ≡ 0 = omega arith in
    let (cs, writes, value, digits) =
      hex_from-spelled 7 true n (monitor_put 120 (monitor_put 48 s)) (λ _. high) in
    (cs, writes, subst (λ p. hex_spelled p cs ≡ n) high value, digits)
