-- ===== src/Ide/Address.antt =====
-- ide_ata_access: how a block address is written into the registers of a drive.
use ahk_main.Base.{
  ℕ, ◌+◌, ◌-◌, ◌*◌, ◌/◌, ◌%◌, ◌^◌, ◌<◌, ◌≡◌, bit_and, inl, inr, leb, ◌==◌, if◌then◌else◌,
  Bool-cases, u8, arith,
}
use ahk_main.Ide.Constants.{lba_mode_48, lba_mode_28, lba_mode_chs}

-- `lba_mode`: 0 is CHS, 1 is LBA28, 2 is LBA48. Of `lba_io` the elements 4 and 5 are always 0.
pub record BlockAddress : Type 0 where
  pub lba_mode : ℕ
  pub lba_io0 : ℕ
  pub lba_io1 : ℕ
  pub lba_io2 : ℕ
  pub lba_io3 : ℕ
  pub head : ℕ

-- `sect`, `cyl` and `head` of CHS, where `cyl` has 16 bits and the others 8.
abbrev pub chs_address : ℕ → BlockAddress
chs_address lba =
    let sect = u8 (lba % 63 + 1) in
    let whole = (lba + 1 + 2 ^ 32 - sect) % 2 ^ 32 in
    let cyl = whole / (16 * 63) % 2 ^ 16 in
    record {
      lba_mode = lba_mode_chs;
      lba_io0 = sect;
      lba_io1 = cyl % 2 ^ 8;
      lba_io2 = cyl / 2 ^ 8 % 2 ^ 8;
      lba_io3 = 0;
      head = u8 (whole % (16 * 63) / 63);
    }

unfoldable pub block_address : ℕ → ℕ → BlockAddress
block_address features lba =
    if leb 0x10000000 lba
    then record {
      lba_mode = lba_mode_48;
      lba_io0 = lba % 2 ^ 8;
      lba_io1 = lba / 2 ^ 8 % 2 ^ 8;
      lba_io2 = lba / 2 ^ 16 % 2 ^ 8;
      lba_io3 = lba / 2 ^ 24 % 2 ^ 8;
      head = 0;
    }
    else if bit_and features 0x200 == 0
    then chs_address lba
    else record {
      lba_mode = lba_mode_28;
      lba_io0 = lba % 2 ^ 8;
      lba_io1 = lba / 2 ^ 8 % 2 ^ 8;
      lba_io2 = lba / 2 ^ 16 % 2 ^ 8;
      lba_io3 = 0;
      head = lba / 2 ^ 24 % 2 ^ 4;
    }

-- The block that a drive takes the registers to mean, in each mode: 16 heads and 63 sectors in CHS.
abbrev pub addressed : BlockAddress → ℕ
addressed b =
    if b.lba_mode == 2
    then b.lba_io0 + b.lba_io1 * 2 ^ 8 + b.lba_io2 * 2 ^ 16 + b.lba_io3 * 2 ^ 24
    else if b.lba_mode == 1
    then b.lba_io0 + b.lba_io1 * 2 ^ 8 + b.lba_io2 * 2 ^ 16 + b.head * 2 ^ 24
    else ((b.lba_io1 + b.lba_io2 * 2 ^ 8) * 16 + b.head) * 63 + (b.lba_io0 - 1)

-- The registers that are written for a 32-bit block address mean that block in the mode that they are
-- for, if the drive takes LBA, or the block is below 65536 cylinders, or it is 0x10000000 or behind
-- it; and the head fits in the 4 bits that it is given.
pub block_address-addressed :
    (features lba : ℕ)
    → lba < 2 ^ 32
    → (bit_and features 0x200 ≡ 0 → lba < 0x10000000 → lba < 65536 * 16 * 63)
    → (addressed (block_address features lba) ≡ lba) × ((block_address features lba).head < 16)
unfolding block_address
block_address-addressed features lba h chs = elim (Bool-cases (leb 0x10000000 lba)) [
  | inl e ↦ rw e (omega arith, omega arith)
  | inr e ↦ elim (Bool-cases (bit_and features 0x200 == 0)) [
    | inl z ↦ let small = chs (ground arith) (ground arith) in rw (e, z) (omega arith, omega arith)
    | inr z ↦ let small : lba < 0x10000000 = ground arith in rw (e, z) (omega arith, omega arith)
  ]
]
