-- ===== src/Ide/Requests.antt =====
-- ide_ata_access and ide_read_sectors on a drive that does what the ATA standard asks of it.
use ahk_main.Base.{
  ℕ, zero, suc, ◌+◌, ◌-◌, ◌*◌, ◌%◌, ◌^◌, ◌<◌, ◌≤◌, ◌≡◌, ◌≢◌, refl, false, List, [], ◌∷◌, some,
  get_elem?, set, length, length-append, ok, read, write, ltb, ◌==◌, if◌then◌else◌, ne→eqb_false,
  add32, u8, arith,
}
use ahk_main.Ide.{Channel, Device, Ports, Ide}
use ahk_main.Ide.Address.{block_address}
use ahk_main.Ide.Registers.{
  register_port, write_at, ide_write_register, read_at, ide_read_register, wait_busy,
}
use ahk_main.Ide.Transfer.{command, select, no_interrupts, read_loop, ide_ata_access}
use ahk_main.Ide.Drive.{Registers, sectors_from, IsDrive}
use ahk_main.Ide.Sectors.{access_sectors, ide_print_error, ide_read_sectors}

pub write_there :
    {A : Type 0} (xs : List A) (i : ℕ) (a v : A)
    → get_elem? xs i ≡ some a
    → (write xs i v ≡ ok (set xs i v)) × (get_elem? (set xs i v) i ≡ some v)
unfolding write
write_there [] i a v e = absurd (ground arith)
write_there (x ∷ xs) zero a v e = (refl, refl)
write_there (x ∷ xs) (suc i) a v e = let (w, g) = write_there xs i a v e in (rw w refl, g)

pub length-sectors_from :
    (disk : ℕ → List ℕ) (block n : ℕ)
    → ((j : ℕ) → length (disk j) ≡ 256)
    → length (sectors_from disk block n) ≡ 256 * n
length-sectors_from disk block zero whole = omega arith
length-sectors_from disk block (suc n) whole = omega (
  arith,
  length-append (disk block) (sectors_from disk (suc block) n),
  whole block,
  length-sectors_from disk (suc block) n whole,
)

-- The channel with its interrupts off.
abbrev pub quiet : Channel → Channel
quiet c = record c { no_intr = 2 }

module _ {D : Type 0} (bus : Ports D) where
  -- The steps of a read, each from the state that the one before it leaves.
  pub ide_ata_access-steps :
      (fuel drive lba num buffer : ℕ) (s s₁ s₂ s₃ s₄ s₅ : Ide D) (d : Device) (c : Channel)
      → get_elem? s.devices drive ≡ some d
      → get_elem? s.channels d.channel ≡ some c
      → no_interrupts bus d.channel s ≡ ok s₁
      → wait_busy bus fuel d.channel s₁ ≡ ok s₂
      → select bus d.channel d.drive (block_address d.features lba) num s₂ ≡ ok s₃
      → ide_write_register bus d.channel 0x07
          (if (block_address d.features lba).lba_mode == 2 then 0x24 else 0x20)
          s₃
        ≡ ok s₄
      → read_loop bus fuel num d.channel c.base buffer s₄ ≡ ok (0, s₅)
      → ide_ata_access bus fuel 0 drive lba num buffer s ≡ ok (0, s₅)
  unfolding ide_ata_access command read
  ide_ata_access-steps fuel drive lba num buffer s s₁ s₂ s₃ s₄ s₅ d c there found off waited
        selected sent done =
      rw (there, found, off, waited, selected, sent) done

  pub ide_read_sectors-access :
      (fuel drive num lba buffer : ℕ) (s s' : Ide D) (d : Device)
      → drive < 6
      → get_elem? s.devices drive ≡ some d
      → d.reserved ≢ 0
      → d.type_of ≡ 0
      → lba + num ≤ d.size
      → d.size < 2 ^ 32
      → ide_ata_access bus fuel 0 drive lba num buffer s ≡ ok (0, s')
      → ide_read_sectors bus fuel drive num lba buffer s ≡ ok (0, s')
  unfolding ide_read_sectors access_sectors ide_print_error read
  ide_read_sectors-access fuel drive num lba buffer s s' d six there present ata inside size done =
      let known : ltb 5 drive ≡ false = ground arith in
      let there_is : (d.reserved == 0) ≡ false = ne→eqb_false d.reserved 0 present in
      let near : ltb d.size (add32 lba num) ≡ false =
        let sum : add32 lba num ≡ lba + num = omega arith in rw sum (ground arith) in
      rw (known, there, there_is, near, ata, done) refl

  module _ (c : Channel) (slave : ℕ) (disk : ℕ → List ℕ) (Idle : Registers → D → Type 0)
      (Ready : List ℕ → D → Type 0) where
    pub IsDrive-quiet :
        IsDrive bus c slave disk Idle Ready → IsDrive bus (quiet c) slave disk Idle Ready
    IsDrive-quiet drive = record {
      sending =
          let sending = drive.sending in
          record {
            alternate = sending.alternate;
            status = sending.status;
            data_word = sending.data_word;
          };
      status = drive.status;
      control = drive.control;
      on_select = drive.on_select;
      on_count = drive.on_count;
      on_low = drive.on_low;
      on_mid = drive.on_mid;
      on_high = drive.on_high;
      on_read = drive.on_read;
      on_long_read = drive.on_long_read;
      all_sent = drive.all_sent;
    }

    module _ (drive : IsDrive bus c slave disk Idle Ready) (channel : ℕ) (s : Ide D)
        (found : get_elem? s.channels channel ≡ some c) (r : Registers)
        (idle : Idle r s.hardware) where
      pub no_interrupts-Idle :
          (d' : D) × (no_interrupts bus channel s
            ≡ ok (record s {
              channels = set s.channels channel (quiet c);
              irq_invoked = 0;
              hardware = d';
            }))
          × Idle r d'
      unfolding no_interrupts ide_write_register write_at register_port read
      no_interrupts-Idle =
          let (written, there) = write_there s.channels channel c (quiet c) found in
          (
            bus.outb ((c.control + 0x0C - 0x0A) % 2 ^ 16) (u8 2) s.hardware,
            rw (found, written, there) refl,
            drive.control (u8 2) r s.hardware idle,
          )

      pub wait_busy-Idle :
          (fuel : ℕ)
          → (d' : D) × (wait_busy bus (suc fuel) channel s ≡ ok (record s { hardware = d' }))
            × Idle r d'
      unfolding wait_busy ide_read_register read_at register_port read
      wait_busy-Idle fuel =
          let (v, d', e, free, i) = drive.status r s.hardware idle in
          (d', rw (found, e, free) refl, i)
