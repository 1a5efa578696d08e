-- ===== src/Ide/Identify.antt =====
-- ide_init: what it reads from the identification of a drive.
use ahk_main.Base.{
  ℕ, zero, suc, ◌+◌, ◌*◌, ◌^◌, bit_and, ◌&&◌, not, Bool, true, false, Option, none, some, List, [],
  ◌∷◌, ◌++◌, Result, ok, out_of_fuel, ◌>>=◌, ◌==◌, if◌then◌else◌, add32, get_or, set,
}
use ahk_main.Memory.{Memory, load32}
use ahk_main.Ide.Constants.{
  ata_reg_lba1, ata_reg_lba2, ata_reg_command, ata_reg_status, ata_sr_bsy, ata_sr_drq, ata_sr_err,
  ide_ata, ide_atapi, ata_cmd_identify_packet, ata_ident_devicetype, ata_ident_model,
  ata_ident_capabilities, ata_ident_max_lba, ata_ident_commandsets, ata_ident_max_lba_ext,
}
use ahk_main.Ide.{Device, Ports, Ide}
use ahk_main.Ide.Registers.{ide_read_register, ide_write_register}

abbrev pub load16 : Memory → ℕ → ℕ
load16 m a = m a + m (add32 a 1) * 2 ^ 8

-- The pairs of characters of the model, the second one of each first. `pairs` are left.
unfoldable pub swapped_pairs : ℕ → ℕ → Memory → List ℕ
swapped_pairs zero a m = []
swapped_pairs (suc pairs) a m = m (add32 a 1) ∷ m a ∷ swapped_pairs pairs (add32 a 2) m

-- The loop that puts nulls for the spaces at the end, with `k` places left.
unfoldable pub trim : ℕ → List ℕ → List ℕ
trim zero model = model
trim (suc k) model =
    let rest = trim k (set model k 0) in if get_or model k 0 == 32 then rest else model

-- The name of the model, from the identification at an address, and its null.
unfoldable pub model_of : ℕ → Memory → List ℕ
model_of ide_buf m = trim 40 (swapped_pairs 20 (add32 ide_buf ata_ident_model) m) ++ (0 ∷ [])

-- The parameters of a drive of a channel. The fields have the sizes of `IDE_DEVICE`.
unfoldable pub identified : ℕ → ℕ → ℕ → ℕ → Memory → Device
identified i j type_of ide_buf m =
    let command_sets = load32 m (add32 ide_buf ata_ident_commandsets) in
    record {
      reserved = 1;
      channel = i;
      drive = j;
      type_of = type_of;
      signature = load16 m (add32 ide_buf ata_ident_devicetype);
      features = load16 m (add32 ide_buf ata_ident_capabilities);
      command_sets = command_sets;
      size =
          if bit_and command_sets (2 ^ 26) == 0
          then load32 m (add32 ide_buf ata_ident_max_lba)
          else load32 m (add32 ide_buf ata_ident_max_lba_ext);
      model = model_of ide_buf m;
    }

-- The type of a drive that answered with an error, by its signature: IDE_ATAPI, if it is known.
abbrev pub atapi_type : ℕ → ℕ → Option ℕ
atapi_type cl ch =
    if (cl == 0x14) && (ch == 0xEB)
    then some ide_atapi
    else if (cl == 0x69) && (ch == 0x96)
    then some ide_atapi
    else none

module _ {D : Type 0} (bus : Ports D) where
  -- The `while (1)` loop: whether it ends by an error.
  unfoldable pub wait_identify : ℕ → ℕ → Ide D → Result (Bool × Ide D)
  wait_identify zero channel s = out_of_fuel
  wait_identify (suc fuel) channel s = do
    (status, s') ← ide_read_register bus channel ata_reg_status s
    let rest = wait_identify fuel channel s'
    if not (bit_and status ata_sr_err == 0)
        then ok (true, s')
        else if (bit_and status ata_sr_bsy == 0) && not (bit_and status ata_sr_drq == 0)
        then ok (false, s')
        else rest

  -- The type of the drive: IDE_ATA without an error, and none where the drive is passed over.
  unfoldable pub probe_atapi : Bool → ℕ → Ide D → Result (Option ℕ × Ide D)
  probe_atapi false channel s = ok (some ide_ata, s)
  probe_atapi true channel s = do
    (cl, s') ← ide_read_register bus channel ata_reg_lba1 s
    (ch, s') ← ide_read_register bus channel ata_reg_lba2 s'
    elim (atapi_type cl ch) [
      | none ↦ ok (none, s')
      | some t ↦ (do
        s' ← ide_write_register bus channel ata_reg_command ata_cmd_identify_packet s'
        ok (some t, s'))
    ]
