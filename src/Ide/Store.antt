-- ===== src/Ide/Store.antt =====
-- What a drive promises for sectors that are written to it: it keeps them.
use ahk_main.Base.{
  ℕ, zero, suc, ◌+◌, ◌-◌, ◌*◌, ◌/◌, ◌%◌, ◌^◌, ◌<◌, ◌≡◌, ◌≢◌, refl, bit_and, false, ◌&&◌, List, [],
  ◌∷◌, ◌++◌, some, get_elem?, length, take, drop, ok, read, ltb, leb, if◌then◌else◌, u8,
}
use ahk_main.Ide.{Channel, Ports, Ide}
use ahk_main.Ide.Registers.{
  register_port, read_at, ide_read_register, delay, wait_busy, ide_polling,
}
use ahk_main.Ide.Drive.{Registers, block_of, long_block_of, long_count_of, IsDrive}

-- The disk with the words of `n` sectors from a block on.
abbrev pub stored : (ℕ → List ℕ) → ℕ → ℕ → List ℕ → ℕ → List ℕ
stored disk block n ws j =
    if leb block j && ltb j (block + n) then take 256 (drop (256 * (j - block)) ws) else disk j

module _ {D : Type 0} (bus : Ports D) (c : Channel) where
  -- A state of the drive that reads of its status do not leave, and in which it is not busy.
  pub record IsCalm (P : D → Type 0) : Type 0 where
    pub alternate :
        (d : D)
        → P d
        → (v : ℕ) × (d' : D) × (bus.inb ((c.control + 0x0C - 0x0A) % 2 ^ 16) d ≡ (v, d')) × P d'
    pub status :
        (d : D)
        → P d
        → (v : ℕ) × (d' : D) × (bus.inb ((c.base + 0x07) % 2 ^ 16) d ≡ (v, d'))
          × (bit_and (u8 v) 0x80 ≡ 0)
          × P d'

  -- `Idle disk r d`: the drive holds `disk` and waits for a command. `Taking disk block n ws d`: it has
  -- been asked to write `n` sectors from `block` on, and has got the words `ws` for them.
  pub record IsStore (slave : ℕ) (Idle : (ℕ → List ℕ) → Registers → D → Type 0)
      (Ready : (ℕ → List ℕ) → List ℕ → D → Type 0)
      (Taking : (ℕ → List ℕ) → ℕ → ℕ → List ℕ → D → Type 0) : Type 0 where
    pub reading : (disk : ℕ → List ℕ) → IsDrive bus c slave disk (Idle disk) (Ready disk)
    pub idle_calm : (disk : ℕ → List ℕ) (r : Registers) → IsCalm (Idle disk r)
    pub taking_calm :
        (disk : ℕ → List ℕ) (block n : ℕ) (ws : List ℕ) → IsCalm (Taking disk block n ws)
    pub on_write :
        (disk : ℕ → List ℕ) (r : Registers) (d : D)
        → Idle disk r d
        → r.select / 2 ^ 4 % 2 ≡ slave
        → r.count ≢ 0
        → Taking disk (block_of r) r.count [] (bus.outb ((c.base + 0x07) % 2 ^ 16) 0x30 d)
    pub on_long_write :
        (disk : ℕ → List ℕ) (r : Registers) (d : D)
        → Idle disk r d
        → r.select / 2 ^ 4 % 2 ≡ slave
        → long_count_of r ≢ 0
        → Taking disk
            (long_block_of r)
            (long_count_of r)
            []
            (bus.outb ((c.base + 0x07) % 2 ^ 16) 0x34 d)
    pub on_word :
        (disk : ℕ → List ℕ) (block n w : ℕ) (ws : List ℕ) (d : D)
        → Taking disk block n ws d
        → length ws < 256 * n
        → Taking disk block n (ws ++ (w ∷ [])) (bus.outw c.base w d)
    pub on_flush :
        (disk : ℕ → List ℕ) (block n : ℕ) (ws : List ℕ) (d : D)
        → Taking disk block n ws d
        → length ws ≡ 256 * n
        → (r : Registers) × Idle
            (stored disk block n ws)
            r
            (bus.outb ((c.base + 0x07) % 2 ^ 16) 0xE7 d)
    pub on_long_flush :
        (disk : ℕ → List ℕ) (block n : ℕ) (ws : List ℕ) (d : D)
        → Taking disk block n ws d
        → length ws ≡ 256 * n
        → (r : Registers) × Idle
            (stored disk block n ws)
            r
            (bus.outb ((c.base + 0x07) % 2 ^ 16) 0xEA d)

  module _ (channel : ℕ) (P : D → Type 0) (calm : IsCalm P) where
    delay-calm :
        (rounds : ℕ) (s : Ide D)
        → get_elem? s.channels channel ≡ some c
        → P s.hardware
        → (d' : D) × (delay bus rounds channel s ≡ ok (record s { hardware = d' })) × P d'
    unfolding delay ide_read_register read_at register_port read
    delay-calm zero s found p = (s.hardware, refl, p)
    delay-calm (suc rounds) s found p =
        let (v, d', e, p') = calm.alternate s.hardware p in
        let (d'', rest, p'') = delay-calm rounds (record s { hardware = d' }) found p' in
        (d'', rw (found, e) rest, p'')

    -- A poll that asks for no more than the end of the wait.
    pub ide_polling-calm :
        (fuel : ℕ) (s : Ide D)
        → get_elem? s.channels channel ≡ some c
        → P s.hardware
        → (d' : D) × (ide_polling bus (suc fuel) channel false s
            ≡ ok (0, record s { hardware = d' }))
          × P d'
    unfolding ide_polling wait_busy ide_read_register read_at register_port read
    ide_polling-calm fuel s found p =
        let (d₁, e₁, p₁) = delay-calm 4 s found p in
        let (v, d₂, e₂, free, p₂) = calm.status d₁ p₁ in (d₂, rw (e₁, found, e₂, free) refl, p₂)
