-- ===== src/Tests/Disks.antt =====
-- Tests of tools/fat/fat.c, on an image of four sectors of one byte.
use ahk_main.Base.{ℕ, ◌≡◌, refl, read, List, [], ◌∷◌, ok, arith}
use ahk_main.Fat12.{BootSector, DirectoryEntry, next_cluster, read_file}
use ahk_main.Fat12.Entries.{packed, next_cluster-packed}
use ahk_main.Fat12.Chains.{Chain, last, link, Read, read_file-Chain}

abbrev boot : BootSector
boot = record {
  bytes_per_sector = 1;
  sectors_per_cluster = 1;
  reserved_sectors = 0;
  fat_count = 0;
  dir_entry_count = 0;
  total_sectors = 4;
  media_descriptor_type = 0;
  sectors_per_fat = 0;
  sectors_per_track = 0;
  heads = 0;
  hidden_sectors = 0;
  large_sector_count = 0;
  drive_number = 0;
  signature = 0;
  volume_id = 0;
}

-- Cluster 2 is followed by 3, and 3 is the last one of its file.
abbrev table : List ℕ
table = packed (0xFF0 ∷ 0xFFF ∷ 3 ∷ 0xFF8 ∷ [])

abbrev image : List ℕ
image = 10 ∷ 11 ∷ 12 ∷ 13 ∷ []

abbrev file_of : ℕ → DirectoryEntry
file_of size = record { name = []; attributes = 0; first_cluster_low = 2; size = size }

next_cluster-packed_example : next_cluster (packed (0xFF0 ∷ 0xFFF ∷ 3 ∷ 0xFF8 ∷ [])) 2 ≡ ok 3
next_cluster-packed_example =
    next_cluster-packed (0xFF0 ∷ 0xFFF ∷ 3 ∷ 0xFF8 ∷ []) 2
      (omega arith, (omega arith, (omega arith, (omega arith, tt)))) (omega arith)

two_clusters : Chain table 2 (2 ∷ 3 ∷ [])
unfolding next_cluster packed read
two_clusters = link {n = 3} refl (omega arith) (last 0xFF8 refl (omega arith))

read_file-Chain_example :
    Read boot 1 image 3
      (2 ∷ 3 ∷ [])
      (read_file 2 boot 1 table (file_of 2) (record { bytes = image; position = 0 }))
read_file-Chain_example =
    read_file-Chain boot 1 image (omega arith) (file_of 2) table (2 ∷ 3 ∷ []) 2 0 two_clusters
      (omega arith, omega arith, (omega arith, omega arith, tt)) (omega arith)
