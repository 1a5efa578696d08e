-- ===== src/Ide/Registers.antt =====
-- ide.c: the registers of a channel, and the wait for a drive.
use ahk_main.Base.{
  ℕ, zero, suc, ◌+◌, ◌-◌, ◌^◌, ◌%◌, bit_and, bit_or, Bool, not, ◌&&◌, Option, none, some, Result,
  ok, out_of_fuel, ◌>>=◌, read, or_fault, ltb, ◌==◌, if◌then◌else◌, u8,
}
use ahk_main.Ide.Constants.{
  ata_reg_status, ata_reg_control, ata_reg_altstatus, ata_sr_bsy, ata_sr_df, ata_sr_drq, ata_sr_err,
}
use ahk_main.Ide.{Channel, Ports, Ide}

-- The port of a register, if it has one.
unfoldable pub register_port : Channel → ℕ → Option ℕ
register_port c reg =
    if ltb reg 0x08
    then some ((c.base + reg) % 2 ^ 16)
    else if ltb reg 0x0C
    then some ((c.base + reg - 0x06) % 2 ^ 16)
    else if ltb reg 0x0E
    then some ((c.control + reg - 0x0A) % 2 ^ 16)
    else if ltb reg 0x16
    then some ((c.bm_ide + reg - 0x0E) % 2 ^ 16)
    else none

-- The registers that are reached once the control register has its high bit set.
abbrev pub is_high : ℕ → Bool
is_high reg = ltb 0x07 reg && ltb reg 0x0C

-- The advanced check of `ide_polling` on the status.
abbrev pub poll_result : ℕ → ℕ
poll_result state =
    if not (bit_and state ata_sr_err == 0)
    then 2
    else if not (bit_and state ata_sr_df == 0)
    then 1
    else if bit_and state ata_sr_drq == 0
    then 3
    else 0

module _ {D : Type 0} (bus : Ports D) where
  -- The write alone, which is all of it for the control register.
  unfoldable pub write_at : Channel → ℕ → ℕ → Ide D → Ide D
  write_at c reg value s = elim (register_port c reg) [
    | none ↦ s
    | some port ↦ record s { hardware = bus.outb port (u8 value) s.hardware }
  ]

  unfoldable pub ide_write_register : ℕ → ℕ → ℕ → Ide D → Result (Ide D)
  ide_write_register channel reg value s = do
    c ← read s.channels channel
    let plain = write_at c reg value
    if is_high reg
        then ok (
            write_at c ata_reg_control c.no_intr
              (plain (write_at c ata_reg_control (bit_or 0x80 c.no_intr) s)))
        else ok (plain s)

  -- A register without a port has no value.
  unfoldable pub read_at : Channel → ℕ → Ide D → Result (ℕ × Ide D)
  read_at c reg s = do
    port ← or_fault (register_port c reg)
    let (ret, hardware) = bus.inb port s.hardware
    ok (u8 ret, record s { hardware = hardware })

  unfoldable pub ide_read_register : ℕ → ℕ → Ide D → Result (ℕ × Ide D)
  ide_read_register channel reg s = do
    c ← read s.channels channel
    let high = (do
      (ret, s') ← read_at c reg (write_at c ata_reg_control (bit_or 0x80 c.no_intr) s)
      ok (ret, write_at c ata_reg_control c.no_intr s'))
    let low = read_at c reg s
    if is_high reg then high else low

  -- `for (...) ide_read_register(channel, ATA_REG_ALTSTATUS);`
  unfoldable pub delay : ℕ → ℕ → Ide D → Result (Ide D)
  delay zero channel s = ok s
  delay (suc rounds) channel s = do
    (_, s') ← ide_read_register channel ata_reg_altstatus s
    delay rounds channel s'

  -- `while (ide_read_register(channel, ATA_REG_STATUS) & ATA_SR_BSY);`
  unfoldable pub wait_busy : ℕ → ℕ → Ide D → Result (Ide D)
  wait_busy zero channel s = out_of_fuel
  wait_busy (suc fuel) channel s = do
    (status, s') ← ide_read_register channel ata_reg_status s
    let rest = wait_busy fuel channel s'
    if bit_and status ata_sr_bsy == 0 then ok s' else rest

  unfoldable pub ide_polling : ℕ → ℕ → Bool → Ide D → Result (ℕ × Ide D)
  ide_polling fuel channel advanced_check s = do
    s' ← delay 4 channel s
    s' ← wait_busy fuel channel s'
    let checked = (do
      (state, s'') ← ide_read_register channel ata_reg_status s'
      ok (poll_result state, s''))
    if advanced_check then checked else ok (0, s')
