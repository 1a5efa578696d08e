-- ===== src/Boot/Entry.antt =====
-- main.c: the start of the kernel, and its list of the files of a disk. The local arrays are at
-- addresses that are parameters.
use ahk_main.Base.{
  ℕ, zero, suc, ◌+◌, ◌*◌, ◌^◌, List, [], ◌∷◌, Result, ok, fault, out_of_fuel, ◌>>=◌, ltb, ◌==◌,
  if◌then◌else◌, add32, u8,
}
use ahk_main.Memory.{Memory, load32}
use ahk_main.Common.Bytes.{memset, memcpy}
use ahk_main.Monitor.{monitor_clear, monitor_write_dec}
use ahk_main.Descriptors.{Tables}
use ahk_main.Interrupts.{Interrupts, init_descriptor_tables}
use ahk_main.Ide.{Ports, Ide}
use ahk_main.Ide.Init.{ata_init}
use ahk_main.Ide.Sectors.{say, ide_read_sectors, ata_get_drive_by_model}
use ahk_main.Boot.Messages.{
  banner_text, driver_text, disk_model_text, reading_text, failed_text, no_header_text,
  success_text, files_text, listing_text, name_text, contents_text, newline_text,
}

-- The characters of a string in memory, up to its null.
unfoldable pub string_at : ℕ → ℕ → Memory → Result (List ℕ)
string_at zero a m = out_of_fuel
string_at (suc fuel) a m =
    let rest = string_at fuel (add32 a 1) m >>= λ cs. ok (m a ∷ cs) in
    if m a == 0 then ok [] else rest

-- The addresses of `buf`, `headers` and `content`.
pub record Arrays : Type 0 where
  pub buf : ℕ
  pub headers : ℕ
  pub content : ℕ

-- `headers[i]`, of 76 bytes: the name is at 1 and the length at 72. There are 64 of them.
abbrev pub header_at : Arrays → ℕ → Result ℕ
header_at a i = if ltb i 64 then ok (add32 a.headers (76 * i)) else fault

module _ {D : Type 0} (bus : Ports D) (fuel : ℕ) (a : Arrays) where
  -- Where the contents of the file `i` are read from, `privI` being the file before it.
  unfoldable pub contents_at : ℕ → ℕ → Memory → Result ℕ
  contents_at i privI m =
      let first = add32 a.buf (4 + 76 * 64) in
      let behind = header_at a privI >>= λ header. ok (add32 first (load32 m (add32 header 72))) in
      if i == 0 then ok first else behind

  -- One file: its name and its contents.
  unfoldable pub list_file : ℕ → ℕ → Ide D → Result (Ide D)
  list_file i privI s = do
    header ← header_at a i
    name ← string_at fuel (add32 header 1) s.memory
    from ← contents_at i privI s.memory
    let memory = memcpy a.content from (load32 s.memory (add32 header 72)) s.memory
    content ← string_at fuel a.content memory
    ok (
        say newline_text (
          say content (
            say contents_text
              (say newline_text (say name (say name_text (record s { memory = memory })))))))

  unfoldable pub list_files : ℕ → ℕ → ℕ → Ide D → Result (Ide D)
  list_files zero i privI s = ok s
  list_files (suc rounds) i privI s = list_file i privI s >>= list_files rounds (suc i) i

  -- `result` is a signed number of 32 bits; with a negative one the loop has no rounds.
  unfoldable pub list_disk : Ide D → Result (Ide D)
  list_disk s = do
    let result = load32 s.memory a.buf
    let verified =
        if ltb result (2 ^ 31) then say success_text s else say no_header_text (say failed_text s)
    monitor ← monitor_write_dec result (say files_text verified).monitor
    let counted = say newline_text (record s { monitor = monitor })
    let memory = memcpy a.headers (add32 a.buf 4) (76 * 64) s.memory
    list_files (if ltb result (2 ^ 31) then result else 0) 0 0
        (say listing_text (record counted { memory = memory }))

  -- The local `ide_buf` of `ide_init` is at `ide_buf`, and `DRIVE` is passed as 8 bits.
  unfoldable pub main_disk : ℕ → Ide D → Result (Ide D)
  main_disk ide_buf s = do
    let welcome = say driver_text (say banner_text (record s { monitor = monitor_clear s.monitor }))
    s ← ata_init bus fuel ide_buf welcome
    let drive = ata_get_drive_by_model disk_model_text s
    (_, s) ←
        ide_read_sectors bus fuel (u8 drive) 10 0 a.buf
          (record s { memory = memset a.buf 0 512 s.memory })
    list_disk (say reading_text s)

  -- The parameters of `init_descriptor_tables` come first. The screen is the same for all parts.
  unfoldable pub main :
      (ℕ → ℕ) → ℕ → ℕ → ℕ → Tables → Interrupts → Ide D → Result (Tables × Interrupts × Ide D)
  main stub gdt_address idt_address ide_buf t interrupts s = do
    (t, interrupts) ← init_descriptor_tables stub gdt_address idt_address t interrupts
    s ← main_disk ide_buf (record s { monitor = interrupts.monitor })
    ok (t, record interrupts { monitor = s.monitor }, s)
