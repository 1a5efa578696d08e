-- ===== src/Ide/Command.antt =====
-- select and the registers of a drive: what the drive takes the writes of ide_ata_access to mean.
use ahk_main.Base.{
  ℕ, zero, suc, ◌+◌, ◌-◌, ◌*◌, ◌%◌, ◌^◌, ◌<◌, ◌≡◌, refl, ◌∙◌, bit_or, inl, inr, Bool, Bool-cases,
  true, ◌&&◌, List, some, get_elem?, Result, ok, read, ◌==◌, if◌then◌else◌, u8, arith,
}
use ahk_main.Ide.{Channel, Ports, Ide}
use ahk_main.Ide.Registers.{register_port, write_at, ide_write_register}
use ahk_main.Ide.Drive.{Registers, put_select, put_count, put_low, put_mid, put_high, IsDrive}

-- A test of all numbers below a bound.
abbrev below : ℕ → (ℕ → Bool) → Bool
below zero p = true
below (suc n) p = p n && below n p

below-apply : (n : ℕ) (p : ℕ → Bool) (j : ℕ) → below n p ≡ true → j < n → p j ≡ true
below-apply zero p j e lt = absurd (omega arith)
below-apply (suc n) p j e lt = elim (Bool-cases (j == n)) [
  | inl s ↦ let here : j ≡ n = ground arith in rw here (ground arith)
  | inr d ↦ below-apply n p j (ground arith) (ground arith)
]

-- The bits of the select register do not overlap.
pub select_bits :
    (mode slave head : ℕ)
    → slave < 2
    → head < 16
    → bit_or (bit_or (if mode == 0 then 0xA0 else 0xE0) (slave * 2 ^ 4)) head
      ≡ (if mode == 0 then 0xA0 else 0xE0) + slave * 2 ^ 4 + head
select_bits mode slave head sl hd = elim (Bool-cases (mode == 0)) [
  | inl z ↦
      let all =
        below-apply 2
          (λ s. below 16 (λ h. bit_or (bit_or 0xA0 (s * 2 ^ 4)) h == 0xA0 + s * 2 ^ 4 + h)) slave
          refl sl in
      let one =
        below-apply 16 (λ h. bit_or (bit_or 0xA0 (slave * 2 ^ 4)) h == 0xA0 + slave * 2 ^ 4 + h)
          head all hd in
      rw z (ground arith)
  | inr n ↦
      let all =
        below-apply 2
          (λ s. below 16 (λ h. bit_or (bit_or 0xE0 (s * 2 ^ 4)) h == 0xE0 + s * 2 ^ 4 + h)) slave
          refl sl in
      let one =
        below-apply 16 (λ h. bit_or (bit_or 0xE0 (slave * 2 ^ 4)) h == 0xE0 + slave * 2 ^ 4 + h)
          head all hd in
      rw n (ground arith)
]

module _ {D : Type 0} (bus : Ports D) (c : Channel) (slave : ℕ) (disk : ℕ → List ℕ)
    (Idle : Registers → D → Type 0) (Ready : List ℕ → D → Type 0)
    (drive : IsDrive bus c slave disk Idle Ready) (channel : ℕ) where
  abbrev with_hardware : D → Ide D → Ide D
  with_hardware d s = record s { hardware = d }

  -- The result of a step that leaves the drive waiting with other registers, and changes nothing else.
  pub record Puts (r : Registers) (s : Ide D) (result : Result (Ide D)) : Type 0 where
    pub hardware : D
    pub returns : result ≡ ok (record s { hardware = hardware })
    pub idle : Idle r hardware

  module _ (s : Ide D) (found : get_elem? s.channels channel ≡ some c) (r : Registers)
      (idle : Idle r s.hardware) where
    write_control : (v : ℕ) → Puts r s (ide_write_register bus channel 0x0C v s)
    unfolding ide_write_register write_at register_port read
    write_control v = record {
      hardware = bus.outb ((c.control + 0x0C - 0x0A) % 2 ^ 16) (u8 v) s.hardware;
      returns = rw found refl;
      idle = drive.control (u8 v) r s.hardware idle;
    }

    set_byte :
        (reg v port : ℕ) (r' : Registers)
        → v < 2 ^ 8
        → ide_write_register bus channel reg v s
          ≡ ok (with_hardware (bus.outb port (u8 v) s.hardware) s)
        → Idle r' (bus.outb port v s.hardware)
        → Puts r' s (ide_write_register bus channel reg v s)
    set_byte reg v port r' fits raw idle' =
        let byte : u8 v ≡ v = omega arith in
        record { hardware = bus.outb port v s.hardware; returns = raw ∙ rw byte refl; idle = idle' }

    pub write_select :
        (v : ℕ) → v < 2 ^ 8 → Puts (put_select v r) s (ide_write_register bus channel 0x06 v s)
    unfolding ide_write_register write_at register_port read
    write_select v fits =
        set_byte 0x06 v ((c.base + 0x06) % 2 ^ 16) (put_select v r) fits (rw found refl)
          (drive.on_select v r s.hardware fits idle)

    pub write_count :
        (v : ℕ) → v < 2 ^ 8 → Puts (put_count v r) s (ide_write_register bus channel 0x02 v s)
    unfolding ide_write_register write_at register_port read
    write_count v fits =
        set_byte 0x02 v ((c.base + 0x02) % 2 ^ 16) (put_count v r) fits (rw found refl)
          (drive.on_count v r s.hardware fits idle)

    pub write_low :
        (v : ℕ) → v < 2 ^ 8 → Puts (put_low v r) s (ide_write_register bus channel 0x03 v s)
    unfolding ide_write_register write_at register_port read
    write_low v fits =
        set_byte 0x03 v ((c.base + 0x03) % 2 ^ 16) (put_low v r) fits (rw found refl)
          (drive.on_low v r s.hardware fits idle)

    pub write_mid :
        (v : ℕ) → v < 2 ^ 8 → Puts (put_mid v r) s (ide_write_register bus channel 0x04 v s)
    unfolding ide_write_register write_at register_port read
    write_mid v fits =
        set_byte 0x04 v ((c.base + 0x04) % 2 ^ 16) (put_mid v r) fits (rw found refl)
          (drive.on_mid v r s.hardware fits idle)

    pub write_high :
        (v : ℕ) → v < 2 ^ 8 → Puts (put_high v r) s (ide_write_register bus channel 0x05 v s)
    unfolding ide_write_register write_at register_port read
    write_high v fits =
        set_byte 0x05 v ((c.base + 0x05) % 2 ^ 16) (put_high v r) fits (rw found refl)
          (drive.on_high v r s.hardware fits idle)

    -- The control register before the write of a register that shares its port with another one.
    abbrev opened : D
    opened = bus.outb ((c.control + 0x0C - 0x0A) % 2 ^ 16) (u8 (bit_or 0x80 c.no_intr)) s.hardware

    opened-Idle : Idle r opened
    opened-Idle = drive.control (u8 (bit_or 0x80 c.no_intr)) r s.hardware idle

    abbrev closed : ℕ → ℕ → D
    closed port v =
        bus.outb ((c.control + 0x0C - 0x0A) % 2 ^ 16) (u8 c.no_intr) (bus.outb port v opened)

    set_shared :
        (reg v port port' : ℕ) (r' : Registers)
        → v < 2 ^ 8
        → port ≡ port'
        → ide_write_register bus channel reg v s ≡ ok (with_hardware (closed port (u8 v)) s)
        → Idle r' (bus.outb port' v opened)
        → Puts r' s (ide_write_register bus channel reg v s)
    set_shared reg v port port' r' fits same raw idle' =
        let byte : u8 v ≡ v = omega arith in
        record {
          hardware = closed port' v;
          returns = raw ∙ rw (byte, same) refl;
          idle = drive.control (u8 c.no_intr) r' (bus.outb port' v opened) idle';
        }

    pub write_long_count :
        (v : ℕ) → v < 2 ^ 8 → Puts (put_count v r) s (ide_write_register bus channel 0x08 v s)
    unfolding ide_write_register write_at register_port read
    write_long_count v fits =
        set_shared 0x08 v ((c.base + 0x08 - 0x06) % 2 ^ 16) ((c.base + 0x02) % 2 ^ 16)
          (put_count v r) fits (omega arith) (rw found refl)
          (drive.on_count v r opened fits opened-Idle)

    pub write_long_low :
        (v : ℕ) → v < 2 ^ 8 → Puts (put_low v r) s (ide_write_register bus channel 0x09 v s)
    unfolding ide_write_register write_at register_port read
    write_long_low v fits =
        set_shared 0x09 v ((c.base + 0x09 - 0x06) % 2 ^ 16) ((c.base + 0x03) % 2 ^ 16) (put_low v r)
          fits (omega arith) (rw found refl) (drive.on_low v r opened fits opened-Idle)

    pub write_long_mid :
        (v : ℕ) → v < 2 ^ 8 → Puts (put_mid v r) s (ide_write_register bus channel 0x0A v s)
    unfolding ide_write_register write_at register_port read
    write_long_mid v fits =
        set_shared 0x0A v ((c.base + 0x0A - 0x06) % 2 ^ 16) ((c.base + 0x04) % 2 ^ 16) (put_mid v r)
          fits (omega arith) (rw found refl) (drive.on_mid v r opened fits opened-Idle)

    pub write_long_high :
        (v : ℕ) → v < 2 ^ 8 → Puts (put_high v r) s (ide_write_register bus channel 0x0B v s)
    unfolding ide_write_register write_at register_port read
    write_long_high v fits =
        set_shared 0x0B v ((c.base + 0x0B - 0x06) % 2 ^ 16) ((c.base + 0x05) % 2 ^ 16)
          (put_high v r) fits (omega arith) (rw found refl)
          (drive.on_high v r opened fits opened-Idle)
