-- ===== src/Files/Fat.antt =====
-- fat.c of the kernel: one sector of the disk. `buf` is the address of the local buffer.
use ahk_main.Base.{ℕ, Bool, true, Result, ok, ◌>>=◌, u8}
use ahk_main.Common.Bytes.{memset, memcpy}
use ahk_main.Ide.{Ports, Ide}
use ahk_main.Ide.Sectors.{ide_read_sectors, ata_get_drive_by_model}
use ahk_main.Boot.Messages.{disk_model_text}

-- The result is true, whatever the transfer returns, and one sector is copied for any count.
unfoldable pub read_sector :
    {D : Type 0} → Ports D → ℕ → ℕ → ℕ → ℕ → ℕ → Ide D → Result (Bool × Ide D)
read_sector bus fuel buf lba count buffer_out s = do
  let drive = ata_get_drive_by_model disk_model_text s
  (_, s') ←
      ide_read_sectors bus fuel (u8 drive) (u8 count) lba buf
        (record s { memory = memset buf 0 512 s.memory })
  ok (true, record s' { memory = memcpy buffer_out buf 512 s'.memory })
