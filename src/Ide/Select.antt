-- ===== src/Ide/Select.antt =====
-- select of ide_ata_access: the registers of the drive after it.
use ahk_main.Base.{
  ℕ, ◌+◌, ◌*◌, ◌^◌, ◌<◌, ◌≡◌, inl, inr, Bool-cases, true, false, List, some, get_elem?, Result,
  ◌>>=◌, ◌==◌, if◌then◌else◌, arith,
}
use ahk_main.Ide.{Channel, Ports, Ide}
use ahk_main.Ide.Address.{BlockAddress}
use ahk_main.Ide.Registers.{ide_write_register}
use ahk_main.Ide.Transfer.{select}
use ahk_main.Ide.Drive.{Registers, put_select, put_count, put_low, put_mid, put_high, IsDrive}
use ahk_main.Ide.Command.{
  Puts, select_bits, write_select, write_count, write_low, write_mid, write_high, write_long_count,
  write_long_low, write_long_mid, write_long_high,
}

-- The parts of an address fit in their registers.
pub record Fits (b : BlockAddress) : Type 0 where
  pub io0 : b.lba_io0 < 2 ^ 8
  pub io1 : b.lba_io1 < 2 ^ 8
  pub io2 : b.lba_io2 < 2 ^ 8
  pub io3 : b.lba_io3 < 2 ^ 8
  pub head : b.head < 2 ^ 4

-- The value of the select register.
abbrev pub select_value : BlockAddress → ℕ → ℕ
select_value b slave = (if b.lba_mode == 0 then 0xA0 else 0xE0) + slave * 2 ^ 4 + b.head

abbrev pub put_address : BlockAddress → ℕ → Registers → Registers
put_address b num r = put_high b.lba_io2 (put_mid b.lba_io1 (put_low b.lba_io0 (put_count num r)))

abbrev pub put_long : BlockAddress → Registers → Registers
put_long b r = put_high 0 (put_mid 0 (put_low b.lba_io3 (put_count 0 r)))

module _ {D : Type 0} (bus : Ports D) (c : Channel) (slave : ℕ) (disk : ℕ → List ℕ)
    (Idle : Registers → D → Type 0) (Ready : List ℕ → D → Type 0)
    (drive : IsDrive bus c slave disk Idle Ready) (channel : ℕ) where
  abbrev PutsHere : Registers → Ide D → Result (Ide D) → Type 0
  PutsHere = Puts bus c slave disk Idle Ready drive channel

  Puts-bind :
      {r r' : Registers} {s : Ide D} {result : Result (Ide D)} (f : Ide D → Result (Ide D))
      → PutsHere r s result
      → ((d : D)
          → Idle r d
          → PutsHere r' (record s { hardware = d }) (f (record s { hardware = d })))
      → PutsHere r' s (result >>= f)
  Puts-bind f p next =
      let q = next p.hardware p.idle in
      record { hardware = q.hardware; returns = rw p.returns q.returns; idle = q.idle }

  module _ (s : Ide D) (found : get_elem? s.channels channel ≡ some c) (b : BlockAddress)
      (fits : Fits b) (num : ℕ) (few : num < 2 ^ 8) where
    abbrev put : ℕ → ℕ → Ide D → Result (Ide D)
    put = ide_write_register bus channel

    abbrev at : D → Ide D
    at d = record s { hardware = d }

    address : Ide D → Result (Ide D)
    address t = put 0x02 num t >>= λ t.
        put 0x03 b.lba_io0 t >>= λ t. put 0x04 b.lba_io1 t >>= λ t. put 0x05 b.lba_io2 t

    address-Puts :
        (r : Registers) (d : D) → Idle r d → PutsHere (put_address b num r) (at d) (address (at d))
    unfolding address
    address-Puts r d i =
        Puts-bind _ (write_count bus c slave disk Idle Ready drive channel (at d) found r i num few)
          (λ d₁ i₁.
            Puts-bind _
              (write_low bus c slave disk Idle Ready drive channel (at d₁) found _ i₁ b.lba_io0
                fits.io0)
              (λ d₂ i₂.
                Puts-bind _
                  (write_mid bus c slave disk Idle Ready drive channel (at d₂) found _ i₂ b.lba_io1
                    fits.io1)
                  (λ d₃ i₃.
                    write_high bus c slave disk Idle Ready drive channel (at d₃) found _ i₃
                      b.lba_io2 fits.io2)))

    long : Ide D → Result (Ide D)
    long t = put 0x08 0 t >>= put 0x09 b.lba_io3 >>= put 0x0A 0 >>= put 0x0B 0

    long-Puts : (r : Registers) (d : D) → Idle r d → PutsHere (put_long b r) (at d) (long (at d))
    unfolding long
    long-Puts r d i =
        let step₁ =
          write_long_count bus c slave disk Idle Ready drive channel (at d) found r i 0
            (omega arith) in
        let step₂ = Puts-bind (put 0x09 b.lba_io3) step₁ (λ d' i'.
          write_long_low bus c slave disk Idle Ready drive channel (at d') found _ i' b.lba_io3
            fits.io3) in
        let step₃ = Puts-bind (put 0x0A 0) step₂ (λ d' i'.
          write_long_mid bus c slave disk Idle Ready drive channel (at d') found _ i' 0
            (omega arith)) in
        Puts-bind (put 0x0B 0) step₃ (λ d' i'.
          write_long_high bus c slave disk Idle Ready drive channel (at d') found _ i' 0
            (omega arith))

    module _ (r : Registers) (idle : Idle r s.hardware) (one : slave < 2) where
      byte : select_value b slave < 2 ^ 8
      byte =
          let h = fits.head in
          elim (Bool-cases (b.lba_mode == 0)) [
            | inl e ↦ rw e (omega arith)
            | inr e ↦ rw e (omega arith)
          ]

      first : PutsHere (put_select (select_value b slave) r) s (put 0x06 (select_value b slave) s)
      first =
          write_select bus c slave disk Idle Ready drive channel s found r idle
            (select_value b slave) byte

      -- With a number of 28 bits, or a cylinder, a head and a sector.
      pub select-Puts :
          (b.lba_mode == 2) ≡ false
          → PutsHere
              (put_address b num (put_select (select_value b slave) r))
              s
              (select bus channel slave b num s)
      unfolding select address
      select-Puts short =
          rw (select_bits b.lba_mode slave b.head one fits.head, short)
            (Puts-bind address first (λ d i. address-Puts _ d i))

      -- With a number of 48 bits.
      pub select-Puts_long :
          (b.lba_mode == 2) ≡ true
          → PutsHere
              (put_address b num (put_long b (put_select (select_value b slave) r)))
              s
              (select bus channel slave b num s)
      unfolding select address long
      select-Puts_long wide =
          rw (select_bits b.lba_mode slave b.head one fits.head, wide)
            (Puts-bind (λ t. long t >>= address) first
              (λ d i. Puts-bind address (long-Puts _ d i) (λ d' i'. address-Puts _ d' i')))
