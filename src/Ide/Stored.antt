-- ===== src/Ide/Stored.antt =====
-- ide_write_sectors as a whole, on a drive that keeps what is written to it.
use ahk_main.Base.{ℕ, suc, ◌*◌, ◌≡◌, refl, List, [], some, get_elem?, set, Result, ok, arith}
use ahk_main.Ide.{Channel, Device, Ports, Ide}
use ahk_main.Ide.Address.{block_address}
use ahk_main.Ide.Sectors.{ide_write_sectors}
use ahk_main.Ide.Drive.{Registers}
use ahk_main.Ide.Named.{block_address-Named}
use ahk_main.Ide.Requests.{write_there, quiet, no_interrupts-Idle, wait_busy-Idle}
use ahk_main.Ide.Delivery.{CanRead}
use ahk_main.Ide.Store.{stored, IsStore, ide_polling-calm}
use ahk_main.Ide.Writes.{words_in, length-words_in, write_loop-Taking}
use ahk_main.Ide.Flush.{
  ide_ata_access-write_steps, ide_write_sectors-access, IsStore-quiet, start_write, flush,
}

-- The drive holds the words of the buffer in the sectors, with the rest of the disk as it was, and waits
-- for the next command; nothing is printed, and no memory changes.
pub record Kept {D : Type 0} (c : Channel) (channel lba num buffer : ℕ) (disk : ℕ → List ℕ)
    (Idle : (ℕ → List ℕ) → Registers → D → Type 0) (s : Ide D) (r : Result (ℕ × Ide D))
    : Type 0 where
  pub after : Ide D
  pub returns : r ≡ ok (0, after)
  pub registers : Registers
  pub idle :
      Idle (stored disk lba num (words_in (256 * num) buffer s.memory)) registers after.hardware
  pub quieted : get_elem? after.channels channel ≡ some (quiet c)
  pub same_memory : after.memory ≡ s.memory
  pub same_devices : after.devices ≡ s.devices
  pub same_monitor : after.monitor ≡ s.monitor

module _ {D : Type 0} (bus : Ports D) (d : Device) (c : Channel)
    (Idle : (ℕ → List ℕ) → Registers → D → Type 0) (Ready : (ℕ → List ℕ) → List ℕ → D → Type 0)
    (Taking : (ℕ → List ℕ) → ℕ → ℕ → List ℕ → D → Type 0)
    (store : IsStore bus c d.drive Idle Ready Taking) (disk : ℕ → List ℕ) where
  -- `ide_write_sectors` on such a drive that waits for a command, for 1 to 255 sectors that it has, with
  -- fuel for one poll in each wait, returns 0 and leaves the drive with the words of the buffer.
  pub ide_write_sectors-Kept :
      (fuel n num lba buffer : ℕ) (r : Registers) (s : Ide D)
      → CanRead d c n num lba buffer s
      → Idle disk r s.hardware
      → Kept c d.channel lba num buffer disk Idle s
          (ide_write_sectors bus (suc fuel) n num lba buffer s)
  ide_write_sectors-Kept fuel n num lba buffer r s ask idle =
      let ch = d.channel in
      let room = ask.room in
      let inside = ask.inside in
      let size = ask.size in
      let quiet_store = IsStore-quiet bus c d.drive Idle Ready Taking store in
      let there = (write_there s.channels ch c (quiet c) ask.found).1 in
      let reading = store.reading disk in
      let (d₁, off, i₁) =
        no_interrupts-Idle bus c d.drive disk (Idle disk) (Ready disk) reading ch s ask.found r
          idle in
      let s₁ = record s {
        channels = set s.channels ch (quiet c);
        irq_invoked = 0;
        hardware = d₁;
      } in
      let (d₂, waited, i₂) =
        wait_busy-Idle bus (quiet c) d.drive disk (Idle disk) (Ready disk)
          (quiet_store.reading disk) ch s₁ there r i₁ fuel in
      let s₂ = record s₁ { hardware = d₂ } in
      let b = block_address d.features lba in
      let named = block_address-Named d.features lba num d.drive r (omega arith) ask.chs ask.one in
      let (d₃, d₄, selected, sent, takes) =
        start_write bus (quiet c) d.drive Idle Ready Taking quiet_store ch s₂ there disk b lba num r
          named ask.one ask.few ask.some_sectors i₂ in
      let s₄ = record s₁ { hardware = d₄ } in
      let (d₅, done, t₅) =
        write_loop-Taking bus (quiet c) d.drive Idle Ready Taking quiet_store disk lba num ch fuel
          num buffer [] s₄ there takes (omega arith) room in
      let words = words_in (256 * num) buffer s.memory in
      let (d₆, r₆, flushed, i₆) =
        flush bus (quiet c) d.drive Idle Ready Taking quiet_store ch s₂ there disk b lba num words
          d₅ t₅ (length-words_in (256 * num) buffer s.memory) in
      let s₆ = record s₁ { hardware = d₆ } in
      let calm = quiet_store.idle_calm (stored disk lba num words) r₆ in
      let (d₇, polled, i₇) =
        ide_polling-calm bus (quiet c) ch (Idle (stored disk lba num words) r₆) calm fuel s₆ there
          i₆ in
      record {
        after = record s₁ { hardware = d₇ };
        returns =
            ide_write_sectors-access bus (suc fuel) n num lba buffer s (record s₁ { hardware = d₇ })
              d ask.six ask.there ask.present ask.ata inside size
              (ide_ata_access-write_steps bus (suc fuel) n lba num buffer 0 s s₁ s₂
                (record s₁ { hardware = d₃ }) s₄ (record s₁ { hardware = d₅ }) s₆
                (record s₁ { hardware = d₇ }) d c ask.there ask.found off waited selected sent done
                flushed polled);
        registers = r₆;
        idle = i₇;
        quieted = there;
        same_memory = refl;
        same_devices = refl;
        same_monitor = refl;
      }
