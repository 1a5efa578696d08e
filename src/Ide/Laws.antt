-- ===== src/Ide/Laws.antt =====
-- The checks of the sector operations, the result of polling, and the search by model.
use ahk_main.Base.{
  ℕ, zero, suc, ◌+◌, ◌-◌, ◌^◌, ◌≤◌, ◌<◌, ◌≡◌, ◌≢◌, inl, inr, refl, bit_and, not, ◌&&◌, some, List,
  [], ◌∷◌, ok, read, get_elem?, ◌==◌, add32, Bool-cases, lt→ltb, le→ltb_false, eq→eqb, ne→eqb_false,
  arith,
}
use ahk_main.Monitor.{monitor_write}
use ahk_main.Monitor.Numbers.{monitor_write_dec-returns}
use ahk_main.Common.{strcmp}
use ahk_main.Ide.{Device, Ports, Ide}
use ahk_main.Ide.Registers.{poll_result}
use ahk_main.Ide.Messages.{not_found_text, too_far_text, newline_text}
use ahk_main.Ide.Sectors.{say, access_sectors, ide_read_sectors, find_drive, ata_get_drive_by_model}

-- The advanced check of `ide_polling` reports no error exactly for a status with neither the error nor
-- the fault bit, and with the data request bit.
poll_result-zero :
    (state : ℕ)
    → (poll_result state == 0)
      ≡ ((bit_and state 0x01 == 0) && (bit_and state 0x20 == 0) && not (bit_and state 0x08 == 0))
poll_result-zero state = ground arith

-- Why a transfer is refused.
pub data Refused (drive num_sectors lba : ℕ) (devices : List Device) : Type 0 where
  no_such : 5 < drive → Refused drive num_sectors lba devices
  absent :
      (d : Device)
      → drive ≤ 5
      → get_elem? devices drive ≡ some d
      → d.reserved ≡ 0
      → Refused drive num_sectors lba devices
  beyond :
      (d : Device)
      → drive ≤ 5
      → get_elem? devices drive ≡ some d
      → d.reserved ≢ 0
      → d.type_of ≡ 0
      → d.size < add32 lba num_sectors
      → Refused drive num_sectors lba devices

module _ {D : Type 0} (bus : Ports D) (fuel drive num_sectors lba buffer : ℕ) (s : Ide D) where
  -- `ide_read_sectors` refuses a drive number above 5, an absent drive, and on an ATA drive a range
  -- whose 32-bit end is behind its last sector: it returns a negative number, and neither the ports
  -- nor the memory nor the drives are touched.
  pub ide_read_sectors-Refused :
      Refused drive num_sectors lba s.devices
      → (code : ℕ) × (s' : Ide D) × (ide_read_sectors bus fuel drive num_sectors lba buffer s
          ≡ ok (code, s'))
        × (2 ^ 31 ≤ code)
        × (s'.hardware ≡ s.hardware)
        × (s'.memory ≡ s.memory)
        × (s'.devices ≡ s.devices)
  unfolding ide_read_sectors access_sectors read
  ide_read_sectors-Refused (no_such h) =
      let t = lt→ltb 5 drive h in
      (2 ^ 32 - 1, say not_found_text s, rw t refl, omega arith, refl, refl, refl)
  ide_read_sectors-Refused (absent d h e z) =
      let t = le→ltb_false 5 drive h in
      let a = eq→eqb d.reserved 0 z in
      (2 ^ 32 - 1, say not_found_text s, rw (t, e, a) refl, omega arith, refl, refl, refl)
  ide_read_sectors-Refused (beyond d h e ne ata far) =
      let t = le→ltb_false 5 drive h in
      let a = ne→eqb_false d.reserved 0 ne in
      let f = lt→ltb d.size (add32 lba num_sectors) far in
      let z = eq→eqb d.type_of 0 ata in
      let (cs, returns) = monitor_write_dec-returns d.size (monitor_write too_far_text s.monitor) in
      (
        2 ^ 32 - 2,
        record s {
          monitor =
              monitor_write newline_text (monitor_write cs (monitor_write too_far_text s.monitor));
        },
        rw (t, e, a, f, z, returns) refl,
        omega arith,
        refl,
        refl,
        refl,
      )

-- The first drive whose model `strcmp` takes to be the same, or the number -1.
pub data FirstDrive (model : List ℕ) (i : ℕ) (ds : List Device) (r : ℕ) : Type 0 where
  no_drive :
      r ≡ 2 ^ 32 - 1
      → ((j : ℕ) (d : Device) → get_elem? ds j ≡ some d → strcmp d.model model ≢ 0)
      → FirstDrive model i ds r
  drive_at :
      (j : ℕ) (d : Device)
      → r ≡ i + j
      → get_elem? ds j ≡ some d
      → strcmp d.model model ≡ 0
      → ((j' : ℕ) (d' : Device) → j' < j → get_elem? ds j' ≡ some d' → strcmp d'.model model ≢ 0)
      → FirstDrive model i ds r

find_drive-FirstDrive :
    (model : List ℕ) (i : ℕ) (ds : List Device) → FirstDrive model i ds (find_drive model i ds)
unfolding find_drive
find_drive-FirstDrive model i [] = no_drive refl (λ j d e z. absurd (cc e))
find_drive-FirstDrive model i (d ∷ ds) = elim (Bool-cases (strcmp d.model model == 0)) [
  | inl e ↦ rw e (drive_at 0 d (omega arith) refl (ground arith) (λ j' d' l. absurd (omega arith)))
  | inr ne ↦ rw ne (later (λ z. ground arith) (find_drive-FirstDrive model (suc i) ds))
]
  where
    past :
        (strcmp d.model model ≢ 0)
        → (j : ℕ) (d' : Device)
        → ((k : ℕ) → j ≡ suc k → get_elem? ds k ≡ some d' → strcmp d'.model model ≢ 0)
        → get_elem? (d ∷ ds) j ≡ some d'
        → strcmp d'.model model ≢ 0
    past ne zero d' h e z = let same : d ≡ d' = cc in ne (rw same z)
    past ne (suc k) d' h e z = h k refl e z

    later :
        {r : ℕ}
        → (strcmp d.model model ≢ 0)
        → FirstDrive model (suc i) ds r
        → FirstDrive model i (d ∷ ds) r
    later ne (no_drive e h) = no_drive e (λ j d' e'. past ne j d' (λ k _ e''. h k d' e'') e')
    later ne (drive_at j d' e at same h) =
        drive_at (suc j) d' (omega arith) at same
          (λ j' d'' l e'. past ne j' d'' (λ k s e''. h k d'' (omega arith) e'') e')

-- `ata_get_drive_by_model` finds the first drive whose model `strcmp` takes to be the same, or returns
-- -1 where there is none.
ata_get_drive_by_model-FirstDrive :
    {D : Type 0} (model : List ℕ) (s : Ide D)
    → FirstDrive model 0 s.devices (ata_get_drive_by_model model s)
unfolding ata_get_drive_by_model
ata_get_drive_by_model-FirstDrive model s = find_drive-FirstDrive model 0 s.devices
