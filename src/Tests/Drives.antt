-- ===== src/Tests/Drives.antt =====
-- Tests of ide.c, on a machine whose ports always read 0.
use ahk_main.Base.{ℕ, suc, ◌^◌, ◌≤◌, ◌<◌, ◌≡◌, refl, [], ◌∷◌, ok, if◌then◌else◌, ◌==◌, arith}
use ahk_main.Ide.{Device, Ports, Ide}
use ahk_main.Memory.{Memory}
use ahk_main.Common.{strcmp, ends_here}
use ahk_main.Ide.Identify.{identified}
use ahk_main.Ide.Names.{none_left, pair, Sent, AreOthers, ata_get_drive_by_model-identified}
use ahk_main.Ide.Address.{addressed, block_address, block_address-addressed}
use ahk_main.Ide.Sectors.{ide_read_sectors, ata_get_drive_by_model}
use ahk_main.Ide.Laws.{beyond, ide_read_sectors-Refused}

abbrev quiet : Ports ℕ
quiet = record {
  inb = λ p d. (0, d);
  outb = λ p v d. suc d;
  inw = λ p d. (0, d);
  outw = λ p v d. suc d;
  inl = λ p d. (0, d);
  outl = λ p v d. suc d;
}

abbrev disk : Device
disk = record {
  reserved = 1;
  channel = 0;
  drive = 0;
  type_of = 0;
  signature = 0;
  features = 0x200;
  command_sets = 0;
  size = 64;
  model = 65 ∷ [];
}

abbrev machine : Ide ℕ
machine = record {
  channels = record { base = 0x1F0; control = 0x3F6; bm_ide = 0; no_intr = 0 } ∷ [];
  devices = disk ∷ [];
  irq_invoked = 0;
  monitor = record { video_memory = λ _. 0; cursor_x = 0; cursor_y = 0; sent = [] };
  memory = λ _. 0;
  hardware = 0;
}

block_address-addressed_example :
    (addressed (block_address 0 1000000) ≡ 1000000) × ((block_address 0 1000000).head < 16)
block_address-addressed_example =
    block_address-addressed 0 1000000 (omega arith) (λ e small. omega arith)

ide_read_sectors-Refused_example :
    (code : ℕ) × (s' : Ide ℕ) × (ide_read_sectors quiet 9 0 2 63 4096 machine ≡ ok (code, s'))
    × (2 ^ 31 ≤ code)
    × (s'.hardware ≡ machine.hardware)
    × (s'.memory ≡ machine.memory)
    × (s'.devices ≡ machine.devices)
ide_read_sectors-Refused_example =
    ide_read_sectors-Refused quiet 9 0 2 63 4096 machine
      (beyond disk (omega arith) refl (omega arith) refl (omega arith))

-- A drive called "AB".
abbrev answer : Memory
answer a = if a == 54 then 66 else if a == 55 then 65 else 32

answer-Sent : Sent 0 answer (65 ∷ 66 ∷ [])
answer-Sent = record {
  start = 65 ∷ [];
  end = 66;
  spaces = 38;
  parts = refl;
  no_space = omega arith;
  full = refl;
  no_null = (omega arith, (omega arith, tt));
  spelled = pair refl refl (
      pair refl refl (
        pair refl refl (
          pair refl refl (
            pair refl refl (
              pair refl refl (
                pair refl refl (
                  pair refl refl (
                    pair refl refl (
                      pair refl refl (
                        pair refl refl (
                          pair refl refl (
                            pair refl refl (
                              pair refl refl (
                                pair refl refl (
                                  pair refl refl (
                                    pair refl refl (
                                      pair refl refl (
                                        pair refl refl (pair refl refl none_left)))))))))))))))))));
}

no_other : AreOthers (65 ∷ 66 ∷ []) (disk ∷ [])
unfolding strcmp ends_here
no_other = (omega arith, tt)

ata_get_drive_by_model-identified_example :
    ata_get_drive_by_model
      (65 ∷ 66 ∷ [])
      (record machine { devices = disk ∷ identified 0 1 0 0 answer ∷ [] })
    ≡ 1
ata_get_drive_by_model-identified_example =
    ata_get_drive_by_model-identified (65 ∷ 66 ∷ []) 0 1 0 0 answer (disk ∷ []) []
      (record machine { devices = disk ∷ identified 0 1 0 0 answer ∷ [] }) answer-Sent refl no_other
