-- ===== src/Descriptors/Gates.antt =====
-- A segment descriptor holds the base, the limit and the flags that it was set to.
use ahk_main.Base.{
  ℕ, ◌+◌, ◌*◌, ◌/◌, ◌%◌, ◌^◌, ◌<◌, ◌≡◌, ◌≢◌, refl, ap, ◌∙◌, bit_and, bit_or, List, Result, ok,
  length, get_or, set, write-ok, get_or-set_self, get_or-set_ne, length-set, arith,
}
use Prim.Native.Nat.{bit_or-bitwise}
use ahk_main.Base.Bits.{bit_and-zero}
use ahk_main.Base.Steps.{bit_or_step, bit_and_step}
use ahk_main.Descriptors.{GdtEntry, Tables, gdt_entry, gdt_set_gate, init_gdt}

-- What the processor takes an entry to mean: the base, the limit of 20 bits, and the 4 bits of flags.
abbrev pub base_of : GdtEntry → ℕ
base_of e = e.base_low + e.base_middle * 2 ^ 16 + e.base_high * 2 ^ 24

abbrev pub limit_of : GdtEntry → ℕ
limit_of e = e.limit_low + e.granularity % 2 ^ 4 * 2 ^ 16

abbrev pub flags_of : GdtEntry → ℕ
flags_of e = e.granularity / 2 ^ 4

-- A digit of a number beside an even one, and under an even mask.
bit_or-double : (x z : ℕ) → bit_or x (z * 2) ≡ bit_or (x / 2) z * 2 + x % 2
bit_or-double x z =
    let half : z * 2 / 2 ≡ z = omega arith in
    let even : z * 2 % 2 ≡ 0 = omega arith in bit_or_step x (z * 2) ∙ rw (half, even) (omega arith)

bit_or_zero : (z : ℕ) → bit_or 0 z ≡ z
bit_or_zero z = simp bit_or-bitwise refl

nibbles : (x y : ℕ) → x < 2 ^ 4 → bit_or x (y * 2 ^ 4) ≡ x + y * 2 ^ 4
nibbles x y h =
    let parts : y * 2 ^ 4 ≡ y * 2 * 2 * 2 * 2 = omega arith in
    let gone : x / 2 / 2 / 2 / 2 ≡ 0 = omega arith in
    rw
      (
        parts,
        bit_or-double x (y * 2 * 2 * 2),
        bit_or-double (x / 2) (y * 2 * 2),
        bit_or-double (x / 2 / 2) (y * 2),
        bit_or-double (x / 2 / 2 / 2) y,
        gone,
        bit_or_zero y,
      )
      (omega arith)

bit_and-odd : (x m : ℕ) → bit_and x (m * 2 + 1) ≡ bit_and (x / 2) m * 2 + x % 2
bit_and-odd x m =
    let half : (m * 2 + 1) / 2 ≡ m = omega arith in
    let odd : (m * 2 + 1) % 2 ≡ 1 = omega arith in
    bit_and_step x (m * 2 + 1) ∙ rw (half, odd) (omega arith)

bit_and-even : (x m : ℕ) → bit_and x (m * 2) ≡ bit_and (x / 2) m * 2
bit_and-even x m =
    let half : m * 2 / 2 ≡ m = omega arith in
    let even : m * 2 % 2 ≡ 0 = omega arith in bit_and_step x (m * 2) ∙ rw (half, even) (omega arith)

low_nibble : (x : ℕ) → bit_and x 0x0F ≡ x % 2 ^ 4
low_nibble x = omega (
  arith,
  bit_and-odd x 7,
  bit_and-odd (x / 2) 3,
  bit_and-odd (x / 2 / 2) 1,
  bit_and-odd (x / 2 / 2 / 2) 0,
  bit_and-zero (x / 2 / 2 / 2 / 2),
)

high_nibble : (g : ℕ) → g < 2 ^ 8 → bit_and g 0xF0 ≡ g / 2 ^ 4 * 2 ^ 4
high_nibble g h = omega (
  arith,
  bit_and-even g 120,
  bit_and-even (g / 2) 60,
  bit_and-even (g / 2 / 2) 30,
  bit_and-even (g / 2 / 2 / 2) 15,
  low_nibble (g / 2 / 2 / 2 / 2),
)

-- What a gate that is set has to hold, and the other gates.
pub record Encoded (num base limit access gran : ℕ) (entries : List GdtEntry)
    (r : Result (List GdtEntry)) : Type 0 where
  pub out : List GdtEntry
  pub entry : GdtEntry
  pub returns : r ≡ ok out
  pub here : (d : GdtEntry) → get_or out num d ≡ entry
  pub same_base : base_of entry ≡ base
  pub same_limit : limit_of entry ≡ limit % 2 ^ 20
  pub same_access : entry.access ≡ access
  pub flags : flags_of entry ≡ gran / 2 ^ 4
  pub others : (j : ℕ) (d : GdtEntry) → num ≢ j → get_or out j d ≡ get_or entries j d

-- `gdt_set_gate` of a gate of the table, for a 32-bit base and limit and 8-bit access and granularity,
-- returns; the gate means that base, the low 20 bits of the limit, that access and the high half of
-- the granularity, and no other gate changes.
pub gdt_set_gate-Encoded :
    (num base limit access gran : ℕ) (entries : List GdtEntry)
    → num < length entries
    → base < 2 ^ 32
    → limit < 2 ^ 32
    → access < 2 ^ 8
    → gran < 2 ^ 8
    → Encoded num base limit access gran entries (gdt_set_gate num base limit access gran entries)
unfolding gdt_set_gate
gdt_set_gate-Encoded num base limit access gran entries inside b l a g =
    let e = gdt_entry base limit access gran in
    let low : limit / 2 ^ 16 % 2 ^ 4 < 2 ^ 4 = omega arith in
    let granularity : e.granularity ≡ limit / 2 ^ 16 % 2 ^ 4 + gran / 2 ^ 4 * 2 ^ 4 =
      ap (bit_or (limit / 2 ^ 16 % 2 ^ 4)) (high_nibble gran g)
      ∙ nibbles (limit / 2 ^ 16 % 2 ^ 4) (gran / 2 ^ 4) low in
    record {
      out = set entries num e;
      entry = e;
      returns = write-ok entries num e inside;
      here = λ d. get_or-set_self entries num e d inside;
      same_base = omega arith;
      same_limit = omega (arith, granularity);
      same_access = omega arith;
      flags = omega (arith, granularity);
      others = λ j d ne. get_or-set_ne entries num j e d ne;
    }

-- `init_gdt` on a table of five entries returns.
pub init_gdt-returns :
    (gdt_address : ℕ) (t : Tables)
    → length t.gdt_entries ≡ 5
    → (e : List GdtEntry) × (init_gdt gdt_address t
        ≡ ok (record t { gdt_entries = e; gdt_ptr = record { limit = 39; base = gdt_address } }))
unfolding init_gdt gdt_set_gate
init_gdt-returns gdt_address t five =
    let e = t.gdt_entries in
    let g = gdt_entry 0 0xFFFFFFFF in
    let e0 = set e 0 (gdt_entry 0 0 0 0) in
    let e1 = set e0 1 (g 0x9A 0xCF) in
    let e2 = set e1 2 (g 0x92 0xCF) in
    let e3 = set e2 3 (g 0xFA 0xCF) in
    let l0 : length e0 ≡ 5 = length-set e 0 _ ∙ five in
    let l1 : length e1 ≡ 5 = length-set e0 1 _ ∙ l0 in
    let l2 : length e2 ≡ 5 = length-set e1 2 _ ∙ l1 in
    let l3 : length e3 ≡ 5 = length-set e2 3 _ ∙ l2 in
    (
      set e3 4 (g 0xF2 0xCF),
      rw
          (
            write-ok e 0 (gdt_entry 0 0 0 0) (omega arith),
            write-ok e0 1 (g 0x9A 0xCF) (omega arith),
            write-ok e1 2 (g 0x92 0xCF) (omega arith),
            write-ok e2 3 (g 0xFA 0xCF) (omega arith),
            write-ok e3 4 (g 0xF2 0xCF) (omega arith),
          )
          refl,
    )
