-- ===== src/Ide/Flush.antt =====
-- The steps of a write: the command, and the flush behind the words.
use ahk_main.Base.{
  ℕ, ◌+◌, ◌*◌, ◌%◌, ◌^◌, ◌<◌, ◌≤◌, ◌≡◌, ◌≢◌, refl, subst, inl, inr, Bool-cases, false, List, [],
  some, get_elem?, length, ok, read, ltb, ◌==◌, if◌then◌else◌, ne→eqb_false, add32, arith,
}
use ahk_main.Ide.{Channel, Device, Ports, Ide}
use ahk_main.Ide.Address.{BlockAddress, block_address}
use ahk_main.Ide.Registers.{ide_write_register, wait_busy, ide_polling}
use ahk_main.Ide.Transfer.{command, select, no_interrupts, write_loop, ide_ata_access}
use ahk_main.Ide.Sectors.{access_sectors, ide_print_error, ide_write_sectors}
use ahk_main.Ide.Drive.{Registers}
use ahk_main.Ide.Select.{select-Puts, select-Puts_long}
use ahk_main.Ide.Named.{Named}
use ahk_main.Ide.Requests.{quiet, IsDrive-quiet}
use ahk_main.Ide.Delivery.{write_command}
use ahk_main.Ide.Store.{stored, IsCalm, IsStore}

module _ {D : Type 0} (bus : Ports D) where
  pub ide_ata_access-write_steps :
      (fuel drive lba num buffer e : ℕ) (s s₁ s₂ s₃ s₄ s₅ s₆ s₇ : Ide D) (d : Device) (c : Channel)
      → get_elem? s.devices drive ≡ some d
      → get_elem? s.channels d.channel ≡ some c
      → no_interrupts bus d.channel s ≡ ok s₁
      → wait_busy bus fuel d.channel s₁ ≡ ok s₂
      → select bus d.channel d.drive (block_address d.features lba) num s₂ ≡ ok s₃
      → ide_write_register bus d.channel 0x07
          (if (block_address d.features lba).lba_mode == 2 then 0x34 else 0x30)
          s₃
        ≡ ok s₄
      → write_loop bus fuel num d.channel c.base buffer s₄ ≡ ok s₅
      → ide_write_register bus d.channel 0x07
          (if (block_address d.features lba).lba_mode == 2 then 0xEA else 0xE7)
          s₅
        ≡ ok s₆
      → ide_polling bus fuel d.channel false s₆ ≡ ok (e, s₇)
      → ide_ata_access bus fuel 1 drive lba num buffer s ≡ ok (0, s₇)
  unfolding ide_ata_access command read
  ide_ata_access-write_steps fuel drive lba num buffer e s s₁ s₂ s₃ s₄ s₅ s₆ s₇ d c there found off
        waited selected sent done flushed polled =
      rw (there, found, off, waited, selected, sent, done, flushed, polled) refl

  pub ide_write_sectors-access :
      (fuel drive num lba buffer : ℕ) (s s' : Ide D) (d : Device)
      → drive < 6
      → get_elem? s.devices drive ≡ some d
      → d.reserved ≢ 0
      → d.type_of ≡ 0
      → lba + num ≤ d.size
      → d.size < 2 ^ 32
      → ide_ata_access bus fuel 1 drive lba num buffer s ≡ ok (0, s')
      → ide_write_sectors bus fuel drive num lba buffer s ≡ ok (0, s')
  unfolding ide_write_sectors access_sectors ide_print_error read
  ide_write_sectors-access fuel drive num lba buffer s s' d six there present ata inside size done =
      let known : ltb 5 drive ≡ false = ground arith in
      let there_is : (d.reserved == 0) ≡ false = ne→eqb_false d.reserved 0 present in
      let near : ltb d.size (add32 lba num) ≡ false =
        let sum : add32 lba num ≡ lba + num = omega arith in rw sum (ground arith) in
      rw (known, there, there_is, near, ata, done) refl

  module _ (c : Channel) (slave : ℕ) (Idle : (ℕ → List ℕ) → Registers → D → Type 0)
      (Ready : (ℕ → List ℕ) → List ℕ → D → Type 0)
      (Taking : (ℕ → List ℕ) → ℕ → ℕ → List ℕ → D → Type 0)
      (store : IsStore bus c slave Idle Ready Taking) where
    IsCalm-quiet : {P : D → Type 0} → IsCalm bus c P → IsCalm bus (quiet c) P
    IsCalm-quiet calm = record { alternate = calm.alternate; status = calm.status }

    pub IsStore-quiet : IsStore bus (quiet c) slave Idle Ready Taking
    IsStore-quiet = record {
      reading =
          λ disk. IsDrive-quiet bus c slave disk (Idle disk) (Ready disk) (store.reading disk);
      idle_calm = λ disk r. IsCalm-quiet (store.idle_calm disk r);
      taking_calm = λ disk block n ws. IsCalm-quiet (store.taking_calm disk block n ws);
      on_write = store.on_write;
      on_long_write = store.on_long_write;
      on_word = store.on_word;
      on_flush = store.on_flush;
      on_long_flush = store.on_long_flush;
    }

    module _ (channel : ℕ) (s : Ide D) (found : get_elem? s.channels channel ≡ some c)
        (disk : ℕ → List ℕ) where
      abbrev at : D → Ide D
      at d = record s { hardware = d }

      put_command :
          (v : ℕ) (d : D)
          → v < 2 ^ 8
          → ide_write_register bus channel 0x07 v (at d)
            ≡ ok (at (bus.outb ((c.base + 0x07) % 2 ^ 16) v d))
      put_command v d fits =
          write_command bus c slave disk (Idle disk) (Ready disk) (store.reading disk) channel s
            found v d fits

      pub start_write :
          (b : BlockAddress) (lba num : ℕ) (r : Registers)
          → Named b lba num slave r
          → slave < 2
          → num < 2 ^ 8
          → num ≢ 0
          → Idle disk r s.hardware
          → (d₃ : D) × (d₄ : D) × (select bus channel slave b num s ≡ ok (at d₃))
            × (ide_write_register bus channel 0x07 (if b.lba_mode == 2 then 0x34 else 0x30) (at d₃)
                ≡ ok (at d₄))
            × Taking disk lba num [] d₄
      start_write b lba num r n one few some_sectors idle =
          let drive = store.reading disk in
          elim (Bool-cases (b.lba_mode == 2)) [
            | inl wide ↦
                let sel =
                  select-Puts_long bus c slave disk (Idle disk) (Ready disk) drive channel s found b
                    n.fits num few r idle one wide in
                let d₄ = bus.outb ((c.base + 0x07) % 2 ^ 16) 0x34 sel.hardware in
                let takes =
                  store.on_long_write disk _ sel.hardware sel.idle n.selected
                    (λ e. some_sectors (omega arith)) in
                let count : num + 0 * 2 ^ 8 ≡ num = omega arith in
                (
                  sel.hardware,
                  d₄,
                  sel.returns,
                  rw wide (put_command 0x34 sel.hardware (omega arith)),
                  subst (λ k. Taking disk lba k [] d₄) count
                      (subst (λ k. Taking disk k (num + 0 * 2 ^ 8) [] d₄) (n.long_named wide)
                        takes),
                )
            | inr short ↦
                let sel =
                  select-Puts bus c slave disk (Idle disk) (Ready disk) drive channel s found b
                    n.fits num few r idle one short in
                let d₄ = bus.outb ((c.base + 0x07) % 2 ^ 16) 0x30 sel.hardware in
                let takes = store.on_write disk _ sel.hardware sel.idle n.selected some_sectors in
                (
                  sel.hardware,
                  d₄,
                  sel.returns,
                  rw short (put_command 0x30 sel.hardware (omega arith)),
                  subst (λ k. Taking disk k num [] d₄) (n.named short) takes,
                )
          ]

      -- The flush after the words: the drive holds them.
      pub flush :
          (b : BlockAddress) (lba num : ℕ) (ws : List ℕ) (d : D)
          → Taking disk lba num ws d
          → length ws ≡ 256 * num
          → (d' : D) × (r : Registers) × (ide_write_register bus channel 0x07
                (if b.lba_mode == 2 then 0xEA else 0xE7)
                (at d)
              ≡ ok (at d'))
            × Idle (stored disk lba num ws) r d'
      flush b lba num ws d t all = elim (Bool-cases (b.lba_mode == 2)) [
        | inl wide ↦
            let (r, i) = store.on_long_flush disk lba num ws d t all in
            (
              bus.outb ((c.base + 0x07) % 2 ^ 16) 0xEA d,
              r,
              rw wide (put_command 0xEA d (omega arith)),
              i,
            )
        | inr short ↦
            let (r, i) = store.on_flush disk lba num ws d t all in
            (
              bus.outb ((c.base + 0x07) % 2 ^ 16) 0xE7 d,
              r,
              rw short (put_command 0xE7 d (omega arith)),
              i,
            )
      ]
