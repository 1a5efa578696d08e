-- ===== src/Ide/Drive.antt =====
-- What a drive promises for the registers of a transfer, as the ATA standard describes them.
use ahk_main.Base.{
  ℕ, ◌+◌, ◌-◌, ◌*◌, ◌/◌, ◌%◌, ◌^◌, ◌<◌, ◌≡◌, ◌≢◌, bit_and, List, [], ◌++◌, zero, suc, ◌==◌,
  if◌then◌else◌, u8,
}
use ahk_main.Ide.{Channel, Ports}
use ahk_main.Ide.Words.{IsSending}

-- What was written to the registers last, and before that, where the commands of 48 bits use it.
pub record Registers : Type 0 where
  pub select : ℕ
  pub count : ℕ
  pub low : ℕ
  pub mid : ℕ
  pub high : ℕ
  pub count_before : ℕ
  pub low_before : ℕ
  pub mid_before : ℕ
  pub high_before : ℕ

abbrev pub put_select : ℕ → Registers → Registers
put_select v r = record r { select = v }

abbrev pub put_count : ℕ → Registers → Registers
put_count v r = record r { count = v; count_before = r.count }

abbrev pub put_low : ℕ → Registers → Registers
put_low v r = record r { low = v; low_before = r.low }

abbrev pub put_mid : ℕ → Registers → Registers
put_mid v r = record r { mid = v; mid_before = r.mid }

abbrev pub put_high : ℕ → Registers → Registers
put_high v r = record r { high = v; high_before = r.high }

-- The block that the registers name: with bit 6 of the select register a number of 28 bits, and without
-- it a cylinder, one of 16 heads and one of 63 sectors, counted from 1.
abbrev pub block_of : Registers → ℕ
block_of r =
    if r.select / 2 ^ 6 % 2 == 1
    then r.low + r.mid * 2 ^ 8 + r.high * 2 ^ 16 + r.select % 2 ^ 4 * 2 ^ 24
    else ((r.mid + r.high * 2 ^ 8) * 16 + r.select % 2 ^ 4) * 63 + (r.low - 1)

-- The block and the number of sectors of a command of 48 bits.
abbrev pub long_block_of : Registers → ℕ
long_block_of r =
    r.low
    + r.mid * 2 ^ 8
    + r.high * 2 ^ 16
    + r.low_before * 2 ^ 24
    + r.mid_before * 2 ^ 32
    + r.high_before * 2 ^ 40

abbrev pub long_count_of : Registers → ℕ
long_count_of r = r.count + r.count_before * 2 ^ 8

-- The words of `n` sectors from a block on, where `disk` gives those of each block.
abbrev pub sectors_from : (ℕ → List ℕ) → ℕ → ℕ → List ℕ
sectors_from disk block zero = []
sectors_from disk block (suc n) = disk block ++ sectors_from disk (suc block) n

module _ {D : Type 0} (bus : Ports D) (c : Channel) (slave : ℕ) (disk : ℕ → List ℕ)
    (Idle : Registers → D → Type 0) (Ready : List ℕ → D → Type 0) where
  -- `Idle r d`: the drive waits for a command, with `r` in its registers; it is not busy then. A command
  -- to read, to the selected drive and with a number of sectors, makes it send their words; with all of
  -- them sent, it waits again.
  pub record IsDrive : Type 0 where
    pub sending : IsSending bus c Ready
    pub status :
        (r : Registers) (d : D)
        → Idle r d
        → (v : ℕ) × (d' : D) × (bus.inb ((c.base + 0x07) % 2 ^ 16) d ≡ (v, d'))
          × (bit_and (u8 v) 0x80 ≡ 0)
          × Idle r d'
    pub control :
        (v : ℕ) (r : Registers) (d : D)
        → Idle r d
        → Idle r (bus.outb ((c.control + 0x0C - 0x0A) % 2 ^ 16) v d)
    pub on_select :
        (v : ℕ) (r : Registers) (d : D)
        → v < 2 ^ 8
        → Idle r d
        → Idle (put_select v r) (bus.outb ((c.base + 0x06) % 2 ^ 16) v d)
    pub on_count :
        (v : ℕ) (r : Registers) (d : D)
        → v < 2 ^ 8
        → Idle r d
        → Idle (put_count v r) (bus.outb ((c.base + 0x02) % 2 ^ 16) v d)
    pub on_low :
        (v : ℕ) (r : Registers) (d : D)
        → v < 2 ^ 8
        → Idle r d
        → Idle (put_low v r) (bus.outb ((c.base + 0x03) % 2 ^ 16) v d)
    pub on_mid :
        (v : ℕ) (r : Registers) (d : D)
        → v < 2 ^ 8
        → Idle r d
        → Idle (put_mid v r) (bus.outb ((c.base + 0x04) % 2 ^ 16) v d)
    pub on_high :
        (v : ℕ) (r : Registers) (d : D)
        → v < 2 ^ 8
        → Idle r d
        → Idle (put_high v r) (bus.outb ((c.base + 0x05) % 2 ^ 16) v d)
    pub on_read :
        (r : Registers) (d : D)
        → Idle r d
        → r.select / 2 ^ 4 % 2 ≡ slave
        → r.count ≢ 0
        → Ready
            (sectors_from disk (block_of r) r.count)
            (bus.outb ((c.base + 0x07) % 2 ^ 16) 0x20 d)
    pub on_long_read :
        (r : Registers) (d : D)
        → Idle r d
        → r.select / 2 ^ 4 % 2 ≡ slave
        → long_count_of r ≢ 0
        → Ready
            (sectors_from disk (long_block_of r) (long_count_of r))
            (bus.outb ((c.base + 0x07) % 2 ^ 16) 0x24 d)
    pub all_sent : (d : D) → Ready [] d → (r : Registers) × Idle r d
