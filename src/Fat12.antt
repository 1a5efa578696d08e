-- ===== src/Fat12.antt =====
-- tools/fat/fat.c: the FAT12 reader for the host. A `FILE` of the C library is its bytes and its
-- position; what is allocated is a list of bytes, and allocation does not fail.
pub mod Entries
pub mod Chains
use ahk_main.Base.{
  ℕ, zero, suc, ◌+◌, ◌-◌, ◌*◌, ◌/◌, ◌%◌, ◌^◌, Bool, true, false, ◌&&◌, Option, none, some, List, [],
  ◌∷◌, ◌++◌, Result, ok, fault, out_of_fuel, ◌>>=◌, read, add32, ltb, ◌==◌, if◌then◌else◌, length,
  get_or, take, drop,
}

pub record File : Type 0 where
  pub bytes : List ℕ
  pub position : ℕ

-- `fseek(f, to, SEEK_SET)` returns 0 for an offset that is not negative.
unfoldable pub fseek : ℕ → File → File
fseek to f = record f { position = to }

-- The items that are whole, and the bytes.
unfoldable pub fread : ℕ → ℕ → File → ℕ × List ℕ × File
fread size count f =
    let got = take (size * count) (drop f.position f.bytes) in
    (
      if size == 0 then 0 else length got / size,
      got,
      record f { position = f.position + length got },
    )

-- Little endian fields of packed structures.
abbrev pub le16 : List ℕ → ℕ → ℕ
le16 b i = get_or b i 0 + get_or b (i + 1) 0 * 2 ^ 8

abbrev pub le32 : List ℕ → ℕ → ℕ
le32 b i = le16 b i + le16 b (i + 2) * 2 ^ 16

-- `BootSector`, without the text fields and those that are not numbers.
pub record BootSector : Type 0 where
  pub bytes_per_sector : ℕ
  pub sectors_per_cluster : ℕ
  pub reserved_sectors : ℕ
  pub fat_count : ℕ
  pub dir_entry_count : ℕ
  pub total_sectors : ℕ
  pub media_descriptor_type : ℕ
  pub sectors_per_fat : ℕ
  pub sectors_per_track : ℕ
  pub heads : ℕ
  pub hidden_sectors : ℕ
  pub large_sector_count : ℕ
  pub drive_number : ℕ
  pub signature : ℕ
  pub volume_id : ℕ

unfoldable pub boot_sector : List ℕ → BootSector
boot_sector b = record {
  bytes_per_sector = le16 b 11;
  sectors_per_cluster = get_or b 13 0;
  reserved_sectors = le16 b 14;
  fat_count = get_or b 16 0;
  dir_entry_count = le16 b 17;
  total_sectors = le16 b 19;
  media_descriptor_type = get_or b 21 0;
  sectors_per_fat = le16 b 22;
  sectors_per_track = le16 b 24;
  heads = le16 b 26;
  hidden_sectors = le32 b 28;
  large_sector_count = le32 b 32;
  drive_number = get_or b 36 0;
  signature = get_or b 38 0;
  volume_id = le32 b 39;
}

-- `DirectoryEntry`: the fields that the program reads, from its 32 bytes.
pub record DirectoryEntry : Type 0 where
  pub name : List ℕ
  pub attributes : ℕ
  pub first_cluster_low : ℕ
  pub size : ℕ

unfoldable pub directory_entry : List ℕ → DirectoryEntry
directory_entry b = record {
  name = take 11 b;
  attributes = get_or b 11 0;
  first_cluster_low = le16 b 26;
  size = le32 b 28;
}

-- The result and the boot sector; 62 is `sizeof(g_BootSector)`.
unfoldable pub read_boot_sector : File → Bool × BootSector × File
read_boot_sector disk =
    let (items, got, disk') = fread 62 1 disk in (ltb 0 items, boot_sector got, disk')

unfoldable pub read_sectors : BootSector → ℕ → ℕ → File → Bool × List ℕ × File
read_sectors boot lba count disk =
    let sought = fseek (lba * boot.bytes_per_sector % 2 ^ 32) disk in
    let (items, got, disk') = fread boot.bytes_per_sector count sought in
    (items == count, got, disk')

unfoldable pub read_fat : BootSector → File → Bool × List ℕ × File
read_fat boot disk = read_sectors boot boot.reserved_sectors boot.sectors_per_fat disk

-- The sectors of the root directory: the first one and their number. A division by 0 is undefined.
unfoldable pub root_extent : BootSector → Result (ℕ × ℕ)
root_extent boot =
    let lba = boot.reserved_sectors + boot.sectors_per_fat * boot.fat_count in
    let size = 32 * boot.dir_entry_count in
    let sectors = size / boot.bytes_per_sector in
    if boot.bytes_per_sector == 0
    then fault
    else ok (lba, if ltb 0 (size % boot.bytes_per_sector) then sectors + 1 else sectors)

-- The result, `g_RootDirectoryEnd` and `g_RootDirectory`.
unfoldable pub read_root_directory : BootSector → File → Result (Bool × ℕ × List ℕ × File)
read_root_directory boot disk = root_extent boot >>= λ (lba, sectors).
    let (good, root, disk') = read_sectors boot lba sectors disk in
    ok (good, lba + sectors, root, disk')

-- Whether `memcmp` of `n` bytes is 0. A byte that is not there is a fault.
unfoldable pub memcmp_equal : ℕ → List ℕ → List ℕ → Result Bool
memcmp_equal zero a b = ok true
memcmp_equal (suc n) [] b = fault
memcmp_equal (suc n) (x ∷ a) [] = fault
memcmp_equal (suc n) (x ∷ a) (y ∷ b) =
    let rest = memcmp_equal n a b in if x == y then rest else ok false

-- The loop of `findFile` on the entries that are left, in the bytes from the next entry on.
unfoldable pub find_entry : ℕ → List ℕ → List ℕ → Result (Option DirectoryEntry)
find_entry zero name root = ok none
find_entry (suc rounds) name root = do
  same ← memcmp_equal 11 name root
  let rest = find_entry rounds name (drop 32 root)
  if same then ok (some (directory_entry root)) else rest

unfoldable pub find_file : BootSector → List ℕ → List ℕ → Result (Option DirectoryEntry)
find_file boot root name = find_entry boot.dir_entry_count name root

-- The cluster behind another one, from 12 bits of the table.
unfoldable pub next_cluster : List ℕ → ℕ → Result ℕ
next_cluster fat current_cluster = do
  let fat_index = current_cluster * 3 / 2
  low ← read fat fat_index
  high ← read fat (fat_index + 1)
  let word = low + high * 2 ^ 8
  ok (if current_cluster % 2 == 0 then word % 2 ^ 12 else word / 2 ^ 4)

-- The first sector of a cluster: `currentCluster - 2` is an `int`, and the sum has 32 bits.
abbrev pub cluster_lba : BootSector → ℕ → ℕ → ℕ
cluster_lba boot root_end current_cluster =
    (root_end + current_cluster * boot.sectors_per_cluster + 2 ^ 32 - 2 * boot.sectors_per_cluster)
    % 2 ^ 32

-- The `do` loop of `readFile`, while `ok` is true: the result and the bytes in the output buffer,
-- which has room for `room` more of them. A write behind its end is a fault.
unfoldable pub read_chain :
    ℕ → BootSector → ℕ → List ℕ → ℕ → ℕ → File → Result (Bool × List ℕ × File)
read_chain zero boot root_end fat room current_cluster disk = out_of_fuel
read_chain (suc fuel) boot root_end fat room current_cluster disk =
    let (good, got, disk') =
      read_sectors boot (cluster_lba boot root_end current_cluster) boot.sectors_per_cluster disk in
    let body = (do
      next ← next_cluster fat current_cluster
      let rest = (do
        (result, more, disk'') ← read_chain fuel boot root_end fat (room - length got) next disk'
        ok (result, got ++ more, disk''))
      if good && ltb next 0x0FF8 then rest else ok (good, got, disk')) in
    if ltb room (length got) then fault else body

-- The buffer is allocated by `main`, for the size of the file and a sector, a sum of 32 bits.
unfoldable pub read_file :
    ℕ → BootSector → ℕ → List ℕ → DirectoryEntry → File → Result (Bool × List ℕ × File)
read_file fuel boot root_end fat entry disk =
    read_chain fuel boot root_end fat (add32 entry.size boot.bytes_per_sector)
      entry.first_cluster_low disk

-- How `main` ends on an image that it can open: an error, or the bytes that are printed.
pub data Outcome : Type 0 where
  no_boot_sector no_fat no_root_directory no_file cannot_read : Outcome
  printed : List ℕ → Outcome

-- The value that `main` returns, as an `int` of 32 bits.
abbrev pub exit_code : Outcome → ℕ
exit_code no_boot_sector = 2 ^ 32 - 2
exit_code no_fat = 2 ^ 32 - 3
exit_code no_root_directory = 2 ^ 32 - 4
exit_code no_file = 2 ^ 32 - 5
exit_code cannot_read = 2 ^ 32 - 5
exit_code (printed bytes) = 0

-- The first `Size` bytes of the buffer; those that no cluster wrote are undefined.
abbrev pub shown : ℕ → Bool × List ℕ × File → Result Outcome
shown size (true, bytes, disk) =
    if ltb (length bytes) size then fault else ok (printed (take size bytes))
shown size (false, bytes, disk) = ok cannot_read

unfoldable pub main : ℕ → List ℕ → List ℕ → Result Outcome
main fuel image name =
    let (has_boot, boot, disk) = read_boot_sector (record { bytes = image; position = 0 }) in
    let (has_fat, fat, disk) = read_fat boot disk in
    let found = (do
      (has_root, root_end, root, disk) ← read_root_directory boot disk
      let file = (do
        entry ← find_file boot root name
        elim entry [
          | none ↦ ok no_file
          | some e ↦ read_file fuel boot root_end fat e disk >>= shown e.size
        ])
      if has_root then file else ok no_root_directory) in
    if has_boot then (if has_fat then found else ok no_fat) else ok no_boot_sector
