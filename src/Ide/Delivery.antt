-- ===== src/Ide/Delivery.antt =====
-- ide_read_sectors as a whole.
use ahk_main.Base.{
  ℕ, suc, ◌+◌, ◌*◌, ◌%◌, ◌^◌, ◌<◌, ◌≤◌, ◌≡◌, ◌≢◌, ◌⊎◌, refl, sym, ap, subst, ◌∙◌, bit_and, inl, inr,
  Bool-cases, List, [], ◌++◌, some, get_elem?, get_or, set, length, Result, ok, read, ◌==◌,
  if◌then◌else◌, u8, arith,
}
use mathlib.Core.List.{append-nil}
use ahk_main.Ide.{Channel, Device, Ports, Ide}
use ahk_main.Ide.Address.{BlockAddress, block_address}
use ahk_main.Ide.Registers.{register_port, write_at, ide_write_register}
use ahk_main.Ide.Transfer.{select}
use ahk_main.Ide.Words.{bytes_of_words}
use ahk_main.Ide.Reads.{read_loop-Got}
use ahk_main.Ide.Drive.{Registers, sectors_from, IsDrive}
use ahk_main.Ide.Select.{select-Puts, select-Puts_long}
use ahk_main.Ide.Sectors.{ide_read_sectors}
use ahk_main.Ide.Named.{Named, block_address-Named}
use ahk_main.Ide.Requests.{
  write_there, length-sectors_from, quiet, ide_ata_access-steps, ide_read_sectors-access,
  IsDrive-quiet, no_interrupts-Idle, wait_busy-Idle,
}

module _ {D : Type 0} (bus : Ports D) (c : Channel) (slave : ℕ) (disk : ℕ → List ℕ)
    (Idle : Registers → D → Type 0) (Ready : List ℕ → D → Type 0)
    (drive : IsDrive bus c slave disk Idle Ready) (channel : ℕ) where
  module _ (s : Ide D) (found : get_elem? s.channels channel ≡ some c) where
    abbrev at : D → Ide D
    at d = record s { hardware = d }

    abbrev commanded : ℕ → D → D
    commanded cmd d = bus.outb ((c.base + 0x07) % 2 ^ 16) cmd d

    pub write_command :
        (v : ℕ) (d : D)
        → v < 2 ^ 8
        → ide_write_register bus channel 0x07 v (at d) ≡ ok (at (commanded v d))
    unfolding ide_write_register write_at register_port read
    write_command v d fits = let byte : u8 v ≡ v = omega arith in rw (found, byte) refl

    -- The registers are filled in and the command is written: the drive has the words to send.
    start_read :
        (b : BlockAddress) (lba num : ℕ) (r : Registers)
        → Named b lba num slave r
        → slave < 2
        → num < 2 ^ 8
        → num ≢ 0
        → Idle r s.hardware
        → (d₃ : D) × (d₄ : D) × (select bus channel slave b num s ≡ ok (at d₃))
          × (ide_write_register bus channel 0x07 (if b.lba_mode == 2 then 0x24 else 0x20) (at d₃)
              ≡ ok (at d₄))
          × Ready (sectors_from disk lba num) d₄
    start_read b lba num r n one few some_sectors idle = elim (Bool-cases (b.lba_mode == 2)) [
      | inl wide ↦
          let sel =
            select-Puts_long bus c slave disk Idle Ready drive channel s found b n.fits num few r
              idle one wide in
          let words =
            drive.on_long_read _ sel.hardware sel.idle n.selected
              (λ e. some_sectors (omega arith)) in
          let count : num + 0 * 2 ^ 8 ≡ num = omega arith in
          (
            sel.hardware,
            commanded 0x24 sel.hardware,
            sel.returns,
            rw wide (write_command 0x24 sel.hardware (omega arith)),
            subst (λ k. Ready (sectors_from disk lba k) (commanded 0x24 sel.hardware)) count
                (subst
                  (λ k. Ready (sectors_from disk k (num + 0 * 2 ^ 8)) (commanded 0x24 sel.hardware))
                  (n.long_named wide) words),
          )
      | inr short ↦
          let sel =
            select-Puts bus c slave disk Idle Ready drive channel s found b n.fits num few r idle
              one short in
          let words = drive.on_read _ sel.hardware sel.idle n.selected some_sectors in
          (
            sel.hardware,
            commanded 0x20 sel.hardware,
            sel.returns,
            rw short (write_command 0x20 sel.hardware (omega arith)),
            subst (λ k. Ready (sectors_from disk k num) (commanded 0x20 sel.hardware))
                (n.named short) words,
          )
    ]

-- The sectors are in the buffer, and nothing else of the memory has changed; nothing is printed, the
-- drive waits for the next command, and the channel has its interrupts off.
pub record Delivered {D : Type 0} (c : Channel) (channel : ℕ) (words : List ℕ)
    (Idle : Registers → D → Type 0) (buffer : ℕ) (s : Ide D) (r : Result (ℕ × Ide D)) : Type 0 where
  pub after : Ide D
  pub returns : r ≡ ok (0, after)
  pub here :
      (k : ℕ) → k < 2 * length words → after.memory (buffer + k) ≡ get_or (bytes_of_words words) k 0
  pub elsewhere :
      (x : ℕ) → (x < buffer) ⊎ (buffer + 2 * length words ≤ x) → after.memory x ≡ s.memory x
  pub registers : Registers
  pub idle : Idle registers after.hardware
  pub quieted : get_elem? after.channels channel ≡ some (quiet c)
  pub same_devices : after.devices ≡ s.devices
  pub same_monitor : after.monitor ≡ s.monitor

-- What is asked for: sectors that an ATA drive of the list has, and a buffer that does not wrap.
pub record CanRead {D : Type 0} (d : Device) (c : Channel) (n num lba buffer : ℕ) (s : Ide D)
    : Type 0 where
  pub six : n < 6
  pub there : get_elem? s.devices n ≡ some d
  pub found : get_elem? s.channels d.channel ≡ some c
  pub present : d.reserved ≢ 0
  pub ata : d.type_of ≡ 0
  pub one : d.drive < 2
  pub inside : lba + num ≤ d.size
  pub size : d.size < 2 ^ 32
  pub chs : bit_and d.features 0x200 ≡ 0 → lba < 65536 * 16 * 63
  pub some_sectors : num ≢ 0
  pub few : num < 2 ^ 8
  pub room : buffer + 512 * num < 2 ^ 32

module _ {D : Type 0} (bus : Ports D) (d : Device) (c : Channel) (disk : ℕ → List ℕ)
    (Idle : Registers → D → Type 0) (Ready : List ℕ → D → Type 0)
    (drive : IsDrive bus c d.drive disk Idle Ready) (whole : (j : ℕ) → length (disk j) ≡ 256) where
  -- `ide_read_sectors` of 1 to 255 sectors within the size of an ATA drive among the first six of the
  -- list, which follows the protocol and waits for a command, has sectors of 256 words, and takes LBA or
  -- is asked for a block below 65536 cylinders, into a buffer that does not wrap, with fuel for one poll
  -- in each wait, returns 0: the buffer holds the bytes of these sectors of the disk in order, whichever
  -- of the three ways the block is addressed in, no other byte of the memory changes, nothing is
  -- printed, and the drive waits again.
  pub ide_read_sectors-Delivered :
      (fuel n num lba buffer : ℕ) (r : Registers) (s : Ide D)
      → CanRead d c n num lba buffer s
      → Idle r s.hardware
      → Delivered c d.channel
          (sectors_from disk lba num)
          Idle
          buffer
          s
          (ide_read_sectors bus (suc fuel) n num lba buffer s)
  ide_read_sectors-Delivered fuel n num lba buffer r s ask idle =
      let words = sectors_from disk lba num in
      let room = ask.room in
      let inside = ask.inside in
      let size = ask.size in
      let length_words = length-sectors_from disk lba num whole in
      let q = IsDrive-quiet bus c d.drive disk Idle Ready drive in
      let there = (write_there s.channels d.channel c (quiet c) ask.found).1 in
      let (d₁, off, i₁) =
        no_interrupts-Idle bus c d.drive disk Idle Ready drive d.channel s ask.found r idle in
      let s₁ = record s {
        channels = set s.channels d.channel (quiet c);
        irq_invoked = 0;
        hardware = d₁;
      } in
      let (d₂, waited, i₂) =
        wait_busy-Idle bus (quiet c) d.drive disk Idle Ready q d.channel s₁ there r i₁ fuel in
      let s₂ = record s₁ { hardware = d₂ } in
      let b = block_address d.features lba in
      let named = block_address-Named d.features lba num d.drive r (omega arith) ask.chs ask.one in
      let (d₃, d₄, selected, sent, ready) =
        start_read bus (quiet c) d.drive disk Idle Ready q d.channel s₂ there b lba num r named
          ask.one ask.few ask.some_sectors i₂ in
      let s₄ = record s₁ { hardware = d₄ } in
      let all : Ready (words ++ []) d₄ = subst (λ ws. Ready ws d₄) (sym (append-nil words)) ready in
      let (s₅, done, got) =
        read_loop-Got bus (quiet c) Ready q.sending fuel num d.channel buffer words [] s₄ there all
          length_words room in
      let (r', again) = q.all_sent s₅.hardware got.ready in
      record {
        after = s₅;
        returns =
            ide_read_sectors-access bus (suc fuel) n num lba buffer s s₅ d ask.six ask.there
              ask.present ask.ata inside size
              (ide_ata_access-steps bus (suc fuel) n lba num buffer s s₁ s₂
                (record s₁ { hardware = d₃ }) s₄ s₅ d c ask.there ask.found off waited selected sent
                done);
        here = got.here;
        elsewhere = got.elsewhere;
        registers = r';
        idle = again;
        quieted = ap (λ cs. get_elem? cs d.channel) got.same_channels ∙ there;
        same_devices = got.same_devices;
        same_monitor = got.same_monitor;
      }
