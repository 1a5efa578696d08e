-- ===== src/Ide/Transfer.antt =====
-- ide_ata_access: the command of a transfer and its sectors, by polling.
use ahk_main.Base.{
  ℕ, zero, suc, ◌+◌, ◌*◌, ◌/◌, ◌^◌, bit_or, true, false, Result, ok, fault, ◌>>=◌, read, write,
  ◌==◌, if◌then◌else◌, add32,
}
use ahk_main.Memory.{store8}
use ahk_main.Ide.Constants.{
  ata_reg_seccount0, ata_reg_lba0, ata_reg_lba1, ata_reg_lba2, ata_reg_hddevsel, ata_reg_command,
  ata_reg_seccount1, ata_reg_lba3, ata_reg_lba4, ata_reg_lba5, ata_reg_control, ata_cmd_read_pio,
  ata_cmd_read_pio_ext, ata_cmd_write_pio, ata_cmd_write_pio_ext, ata_cmd_cache_flush,
  ata_cmd_cache_flush_ext, ata_read, ata_write, lba_mode_48, lba_mode_chs,
}
use ahk_main.Ide.{Ports, Ide}
use ahk_main.Ide.Registers.{ide_write_register, ide_polling, wait_busy}
use ahk_main.Ide.Address.{BlockAddress, block_address}

-- `cmd` of a direction, 0 for a read and 1 for a write, in an addressing mode, without DMA.
unfoldable pub command : ℕ → ℕ → Result ℕ
command direction lba_mode =
    if direction == ata_read
    then ok (if lba_mode == lba_mode_48 then ata_cmd_read_pio_ext else ata_cmd_read_pio)
    else if direction == ata_write
    then ok (if lba_mode == lba_mode_48 then ata_cmd_write_pio_ext else ata_cmd_write_pio)
    else fault

module _ {D : Type 0} (bus : Ports D) where
  -- `rep insw`: a word at a time, to rising addresses.
  unfoldable pub insw : ℕ → ℕ → ℕ → Ide D → Ide D
  insw zero port buffer s = s
  insw (suc words) port buffer s =
      let (w, hardware) = bus.inw port s.hardware in
      insw words port (add32 buffer 2) (record s {
        memory = store8 (store8 s.memory buffer w) (add32 buffer 1) (w / 2 ^ 8);
        hardware = hardware;
      })

  -- `rep outsw`
  unfoldable pub outsw : ℕ → ℕ → ℕ → Ide D → Ide D
  outsw zero port buffer s = s
  outsw (suc words) port buffer s =
      let w = s.memory buffer + s.memory (add32 buffer 1) * 2 ^ 8 in
      outsw words port (add32 buffer 2) (record s { hardware = bus.outw port w s.hardware })

  -- The sectors that are left to read. An error ends the transfer.
  unfoldable pub read_loop : ℕ → ℕ → ℕ → ℕ → ℕ → Ide D → Result (ℕ × Ide D)
  read_loop fuel zero channel port buffer s = ok (0, s)
  read_loop fuel (suc sectors) channel port buffer s = do
    (err, s') ← ide_polling bus fuel channel true s
    let rest = read_loop fuel sectors channel port (add32 buffer 512) (insw 256 port buffer s')
    if err == 0 then rest else ok (err, s')

  unfoldable pub write_loop : ℕ → ℕ → ℕ → ℕ → ℕ → Ide D → Result (Ide D)
  write_loop fuel zero channel port buffer s = ok s
  write_loop fuel (suc sectors) channel port buffer s = do
    (_, s') ← ide_polling bus fuel channel false s
    write_loop fuel sectors channel port (add32 buffer 512) (outsw 256 port buffer s')

  -- Selects the drive and writes the parameters and the number of sectors.
  unfoldable pub select : ℕ → ℕ → BlockAddress → ℕ → Ide D → Result (Ide D)
  select channel slavebit b num_sectors s = do
    let put = ide_write_register bus channel
    s ←
        put ata_reg_hddevsel
          (bit_or (bit_or (if b.lba_mode == lba_mode_chs then 0xA0 else 0xE0) (slavebit * 2 ^ 4))
            b.head)
          s
    let extended =
        put ata_reg_seccount1 0 s
        >>= put ata_reg_lba3 b.lba_io3
        >>= put ata_reg_lba4 0
        >>= put ata_reg_lba5 0
    s ← (if b.lba_mode == lba_mode_48 then extended else ok s)
    s ← put ata_reg_seccount0 num_sectors s
    s ← put ata_reg_lba0 b.lba_io0 s
    s ← put ata_reg_lba1 b.lba_io1 s
    put ata_reg_lba2 b.lba_io2 s

  -- Interrupts of the channel are turned off, and `no_intr` says so.
  unfoldable pub no_interrupts : ℕ → Ide D → Result (Ide D)
  no_interrupts channel s = do
    c ← read s.channels channel
    channels ← write s.channels channel (record c { no_intr = 2 })
    ide_write_register bus channel ata_reg_control 2
        (record s { channels = channels; irq_invoked = 0 })

  unfoldable pub ide_ata_access : ℕ → ℕ → ℕ → ℕ → ℕ → ℕ → Ide D → Result (ℕ × Ide D)
  ide_ata_access fuel direction drive lba num_sectors buffer s = do
    d ← read s.devices drive
    c ← read s.channels d.channel
    s ← no_interrupts d.channel s
    let b = block_address d.features lba
    s ← wait_busy bus fuel d.channel s
    s ← select d.channel d.drive b num_sectors s
    cmd ← command direction b.lba_mode
    s ← ide_write_register bus d.channel ata_reg_command cmd s
    let reading = read_loop fuel num_sectors d.channel c.base buffer s
    let writing = (do
      s ← write_loop fuel num_sectors d.channel c.base buffer s
      s ←
          ide_write_register bus d.channel ata_reg_command
            (if b.lba_mode == lba_mode_48 then ata_cmd_cache_flush_ext else ata_cmd_cache_flush) s
      (_, s) ← ide_polling bus fuel d.channel false s
      ok (0, s))
    if direction == ata_read then reading else writing
