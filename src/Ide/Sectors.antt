-- ===== src/Ide/Sectors.antt =====
-- ide.c: the checks of a transfer and the report of its errors.
use ahk_main.Base.{
  ℕ, suc, ◌-◌, ◌^◌, bit_and, ◌&&◌, List, [], ◌∷◌, Result, ok, fault, ◌>>=◌, read, ltb, ◌==◌,
  if◌then◌else◌, add32,
}
use ahk_main.Monitor.{Monitor, monitor_write, monitor_write_dec}
use ahk_main.Common.{strcmp}
use ahk_main.Ide.Constants.{
  ata_reg_error, ata_er_bbk, ata_er_unc, ata_er_mc, ata_er_idnf, ata_er_mcr, ata_er_abrt,
  ata_er_tk0nf, ata_er_amnf, ide_ata, ata_read, ata_write, maximum_ide_devices,
}
use ahk_main.Ide.{Device, Ports, Ide}
use ahk_main.Ide.Messages.{
  not_found_text, too_far_text, too_far_to_write_text, ide_text, device_fault_text, no_mark_text,
  no_media_text, aborted_text, no_id_text, uncorrectable_text, bad_sectors_text, reads_nothing_text,
  write_protected_text, model_text, newline_text,
}
use ahk_main.Ide.Registers.{ide_read_register}
use ahk_main.Ide.Transfer.{ide_ata_access}

-- One test of the error register: a message and a code where the bit is set.
unfoldable pub report_bit : ℕ → ℕ → List ℕ → ℕ → ℕ × Monitor → ℕ × Monitor
report_bit st mask text code (err, m) =
    if bit_and st mask == 0 then (err, m) else (code, monitor_write text m)

-- The tests of the error register, in their order: the code is that of the last bit that is set.
unfoldable pub report_bits : ℕ → ℕ × Monitor → ℕ × Monitor
report_bits st r = report_bit st ata_er_bbk bad_sectors_text 13 (
    report_bit st ata_er_unc uncorrectable_text 22 (
      report_bit st ata_er_mc no_media_text 3 (
        report_bit st ata_er_idnf no_id_text 21 (
          report_bit st ata_er_mcr no_media_text 3 (
            report_bit st ata_er_abrt aborted_text 20 (
              report_bit st ata_er_tk0nf no_media_text 3
                (report_bit st ata_er_amnf no_mark_text 7 r)))))))

abbrev pub say : {D : Type 0} → List ℕ → Ide D → Ide D
say text s = record s { monitor = monitor_write text s.monitor }

module _ {D : Type 0} (bus : Ports D) where
  -- What is read and said about an error, and its code.
  unfoldable pub report : ℕ → ℕ → Ide D → Result (ℕ × Ide D)
  report drive err s = do
    d ← read s.devices drive
    let registered = (do
      (st, s') ← ide_read_register bus d.channel ata_reg_error s
      let (code, m) = report_bits st (err, s'.monitor)
      ok (code, record s' { monitor = m }))
    if err == 1
        then ok (19, say device_fault_text s)
        else if err == 2
        then registered
        else if err == 3
        then ok (23, say reads_nothing_text s)
        else if err == 4
        then ok (8, say write_protected_text s)
        else ok (err, s)

  unfoldable pub ide_print_error : ℕ → ℕ → Ide D → Result (ℕ × Ide D)
  ide_print_error drive err s =
      let printed = (do
        (code, s') ← report drive err (say ide_text s)
        d ← read s'.devices drive
        ok (code, say newline_text (say d.model (say model_text s')))) in
      if err == 0 then ok (err, s) else printed

  -- A negative `int` is its 32 bits. An `err` that no access has set is undefined.
  -- `complain` is the message of a range that is too far.
  unfoldable pub access_sectors :
      ℕ → ℕ → (Device → Ide D → Result (Ide D)) → ℕ → ℕ → ℕ → ℕ → Ide D → Result (ℕ × Ide D)
  access_sectors fuel direction complain drive num_sectors lba buffer s =
      let missing = ok (2 ^ 32 - 1, say not_found_text s) in
      let present = (do
        d ← read s.devices drive
        let too_far = complain d s >>= λ s'. ok (2 ^ 32 - 2, s')
        let access = (do
          (err, s') ← ide_ata_access bus fuel direction drive lba num_sectors buffer s
          ide_print_error drive err s')
        if d.reserved == 0
            then missing
            else if ltb d.size (add32 lba num_sectors) && (d.type_of == ide_ata)
            then too_far
            else if d.type_of == ide_ata
            then access
            else fault) in
      if ltb maximum_ide_devices drive then missing else present

  unfoldable pub ide_read_sectors : ℕ → ℕ → ℕ → ℕ → ℕ → Ide D → Result (ℕ × Ide D)
  ide_read_sectors fuel = access_sectors fuel ata_read (λ d s.
      monitor_write_dec d.size (monitor_write too_far_text s.monitor) >>= λ m.
      ok (record s { monitor = monitor_write newline_text m }))

  unfoldable pub ide_write_sectors : ℕ → ℕ → ℕ → ℕ → ℕ → Ide D → Result (ℕ × Ide D)
  ide_write_sectors fuel = access_sectors fuel ata_write (λ d s. ok (say too_far_to_write_text s))

-- The loop of `ata_get_drive_by_model`; -1 is its 32 bits.
unfoldable pub find_drive : List ℕ → ℕ → List Device → ℕ
find_drive model i [] = 2 ^ 32 - 1
find_drive model i (d ∷ ds) =
    let rest = find_drive model (suc i) ds in if strcmp d.model model == 0 then i else rest

unfoldable pub ata_get_drive_by_model : {D : Type 0} → List ℕ → Ide D → ℕ
ata_get_drive_by_model model s = find_drive model 0 s.devices
