-- ===== src/Ide/Init.antt =====
-- ide_init and ata_init: the detection of the drives. `ide_buf` is the address of the local buffer.
use ahk_main.Base.{
  ℕ, zero, suc, ◌*◌, ◌%◌, ◌^◌, bit_or, none, some, Result, ok, ◌>>=◌, read, write, ◌==◌,
  if◌then◌else◌,
}
use ahk_main.Common.Bytes.{memset}
use ahk_main.Monitor.{monitor_write_dec}
use ahk_main.Ide.Constants.{
  ata_reg_data, ata_reg_hddevsel, ata_reg_command, ata_reg_status, ata_reg_control, ata_primary,
  ata_secondary, ata_cmd_identify,
}
use ahk_main.Ide.{Ports, Ide}
use ahk_main.Ide.Registers.{ide_read_register, ide_write_register}
use ahk_main.Ide.Buffers.{ide_read_buffer}
use ahk_main.Ide.Identify.{identified, wait_identify, probe_atapi}
use ahk_main.Ide.Messages.{found_model_text, newline_text}
use ahk_main.Ide.Sectors.{say}

-- The ports of a channel; `no_intr` stays.
unfoldable pub set_channel : {D : Type 0} → ℕ → ℕ → ℕ → ℕ → Ide D → Result (Ide D)
set_channel i base control bm_ide s = do
  c ← read s.channels i
  channels ←
      write s.channels i
        (record c { base = base % 2 ^ 16; control = control % 2 ^ 16; bm_ide = bm_ide % 2 ^ 16 })
  ok (record s { channels = channels })

-- `g_ide_devices[count].reserved = 0;`
unfoldable pub clear_reserved : {D : Type 0} → ℕ → Ide D → Result (Ide D)
clear_reserved count s = do
  d ← read s.devices count
  devices ← write s.devices count (record d { reserved = 0 })
  ok (record s { devices = devices })

-- The summary of the drives from `i` on.
unfoldable pub summary : {D : Type 0} → ℕ → ℕ → Ide D → Result (Ide D)
summary zero i s = ok s
summary (suc rounds) i s = do
  d ← read s.devices i
  let told = (do
    monitor ← monitor_write_dec i s.monitor
    ok (say newline_text (say d.model (say found_model_text (record s { monitor = monitor })))))
  s' ← (if d.reserved == 1 then told else ok s)
  summary rounds (suc i) s'

module _ {D : Type 0} (bus : Ports D) (fuel ide_buf : ℕ) where
  -- The drive of a known type is read into the table.
  unfoldable pub record_drive : ℕ → ℕ → ℕ → ℕ → Ide D → Result (ℕ × Ide D)
  record_drive i j count type_of s = do
    s ← ide_read_buffer bus i ata_reg_data ide_buf 128 s
    devices ← write s.devices count (identified i j type_of ide_buf s.memory)
    ok (suc count, record s { devices = devices })

  -- One round: the drive `j` of the channel `i`, and the number of drives that were found.
  unfoldable pub detect : ℕ → ℕ → ℕ → Ide D → Result (ℕ × Ide D)
  detect i j count s = do
    s ← clear_reserved count s
    s ← ide_write_register bus i ata_reg_hddevsel (bit_or 0xA0 (j * 2 ^ 4)) s
    s ← ide_write_register bus i ata_reg_command ata_cmd_identify s
    (status, s) ← ide_read_register bus i ata_reg_status s
    let answered = (do
      (err, s) ← wait_identify bus fuel i s
      (found, s) ← probe_atapi bus err i s
      elim found [ none ↦ ok (count, s) | some t ↦ record_drive i j count t s ])
    if status == 0 then ok (count, s) else answered

  unfoldable pub ide_init : ℕ → ℕ → ℕ → ℕ → ℕ → Ide D → Result (Ide D)
  ide_init prim_base prim_control sec_base sec_control bus_master s = do
    let s = record s { memory = memset ide_buf 0 2048 s.memory }
    s ← set_channel ata_primary prim_base prim_control bus_master s
    s ← set_channel ata_secondary sec_base sec_control bus_master s
    s ← ide_write_register bus ata_primary ata_reg_control 2 s
    s ← ide_write_register bus ata_secondary ata_reg_control 2 s
    (count, s) ← detect 0 0 0 s
    (count, s) ← detect 0 1 count s
    (count, s) ← detect 1 0 count s
    (count, s) ← detect 1 1 count s
    summary 4 0 s

  unfoldable pub ata_init : Ide D → Result (Ide D)
  ata_init = ide_init 0x1F0 0x3F6 0x170 0x376 0x000
