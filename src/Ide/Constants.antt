-- ===== src/Ide/Constants.antt =====
-- ide.h: the constants that the driver uses, in the source's words.
use ahk_main.Base.{ℕ}

abbrev pub ata_reg_data : ℕ
ata_reg_data = 0x00

abbrev pub ata_reg_error : ℕ
ata_reg_error = 0x01

abbrev pub ata_reg_seccount0 : ℕ
ata_reg_seccount0 = 0x02

abbrev pub ata_reg_lba0 : ℕ
ata_reg_lba0 = 0x03

abbrev pub ata_reg_lba1 : ℕ
ata_reg_lba1 = 0x04

abbrev pub ata_reg_lba2 : ℕ
ata_reg_lba2 = 0x05

abbrev pub ata_reg_hddevsel : ℕ
ata_reg_hddevsel = 0x06

abbrev pub ata_reg_command : ℕ
ata_reg_command = 0x07

abbrev pub ata_reg_status : ℕ
ata_reg_status = 0x07

abbrev pub ata_reg_seccount1 : ℕ
ata_reg_seccount1 = 0x08

abbrev pub ata_reg_lba3 : ℕ
ata_reg_lba3 = 0x09

abbrev pub ata_reg_lba4 : ℕ
ata_reg_lba4 = 0x0A

abbrev pub ata_reg_lba5 : ℕ
ata_reg_lba5 = 0x0B

abbrev pub ata_reg_control : ℕ
ata_reg_control = 0x0C

abbrev pub ata_reg_altstatus : ℕ
ata_reg_altstatus = 0x0C

abbrev pub ata_sr_bsy : ℕ
ata_sr_bsy = 0x80

abbrev pub ata_sr_df : ℕ
ata_sr_df = 0x20

abbrev pub ata_sr_drq : ℕ
ata_sr_drq = 0x08

abbrev pub ata_sr_err : ℕ
ata_sr_err = 0x01

abbrev pub ata_er_bbk : ℕ
ata_er_bbk = 0x80

abbrev pub ata_er_unc : ℕ
ata_er_unc = 0x40

abbrev pub ata_er_mc : ℕ
ata_er_mc = 0x20

abbrev pub ata_er_idnf : ℕ
ata_er_idnf = 0x10

abbrev pub ata_er_mcr : ℕ
ata_er_mcr = 0x08

abbrev pub ata_er_abrt : ℕ
ata_er_abrt = 0x04

abbrev pub ata_er_tk0nf : ℕ
ata_er_tk0nf = 0x02

abbrev pub ata_er_amnf : ℕ
ata_er_amnf = 0x01

abbrev pub ata_primary : ℕ
ata_primary = 0x00

abbrev pub ata_secondary : ℕ
ata_secondary = 0x01

abbrev pub ide_ata : ℕ
ide_ata = 0x00

abbrev pub ide_atapi : ℕ
ide_atapi = 0x01

abbrev pub ata_cmd_read_pio : ℕ
ata_cmd_read_pio = 0x20

abbrev pub ata_cmd_read_pio_ext : ℕ
ata_cmd_read_pio_ext = 0x24

abbrev pub ata_cmd_write_pio : ℕ
ata_cmd_write_pio = 0x30

abbrev pub ata_cmd_write_pio_ext : ℕ
ata_cmd_write_pio_ext = 0x34

abbrev pub ata_cmd_cache_flush : ℕ
ata_cmd_cache_flush = 0xE7

abbrev pub ata_cmd_cache_flush_ext : ℕ
ata_cmd_cache_flush_ext = 0xEA

abbrev pub ata_cmd_identify_packet : ℕ
ata_cmd_identify_packet = 0xA1

abbrev pub ata_cmd_identify : ℕ
ata_cmd_identify = 0xEC

abbrev pub ata_ident_devicetype : ℕ
ata_ident_devicetype = 0

abbrev pub ata_ident_model : ℕ
ata_ident_model = 54

abbrev pub ata_ident_capabilities : ℕ
ata_ident_capabilities = 98

abbrev pub ata_ident_max_lba : ℕ
ata_ident_max_lba = 120

abbrev pub ata_ident_commandsets : ℕ
ata_ident_commandsets = 164

abbrev pub ata_ident_max_lba_ext : ℕ
ata_ident_max_lba_ext = 200

abbrev pub ata_read : ℕ
ata_read = 0x00

abbrev pub ata_write : ℕ
ata_write = 0x01

abbrev pub lba_mode_48 : ℕ
lba_mode_48 = 0x02

abbrev pub lba_mode_28 : ℕ
lba_mode_28 = 0x01

abbrev pub lba_mode_chs : ℕ
lba_mode_chs = 0x00

abbrev pub maximum_ide_devices : ℕ
maximum_ide_devices = 5
