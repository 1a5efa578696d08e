-- ===== src/Tests/Folders.antt =====
-- Tests of vfs.c, on a directory of two files.
use ahk_main.Base.{
  ℕ, suc, ◌≡◌, refl, ap, some, List, [], ◌∷◌, ok, ne→eqb_false, ◌==◌, if◌then◌else◌, arith,
}
use ahk_main.Files.{Dirent}
use ahk_main.Files.Disk.{Disk, disk_readdir, disk_finddir}
use ahk_main.Files.Listing.{Entry, as_node, Counts, disk_finddir-disk_readdir}

abbrev up_to_null : List ℕ → ℕ
up_to_null [] = 0
up_to_null (x ∷ xs) = if x == 0 then 0 else suc (up_to_null xs)

up_to_null-Counts : Counts up_to_null
up_to_null-Counts [] behind p = refl
up_to_null-Counts (x ∷ text) behind p =
    rw (ne→eqb_false x 0 p.0) (ap suc (up_to_null-Counts text behind p.1))

abbrev first : Entry
first = record { text = 97 ∷ []; behind = []; inode = 0 }

abbrev folder : Disk
folder = record {
  file_headers = [];
  initrd_root = 4096;
  initrd_dev = 8192;
  root_nodes =
      as_node first ∷ as_node (record { text = 97 ∷ 98 ∷ []; behind = 7 ∷ []; inode = 1 }) ∷ [];
  root_nodes_at = 12288;
  nroot_nodes = 2;
  dirent = record { name = 1 ∷ 2 ∷ 3 ∷ 4 ∷ 5 ∷ []; ino = 9 };
  memory = λ _. 0;
}

disk_finddir-disk_readdir_example :
    (entry : Dirent) × (d' : Disk) × (disk_readdir up_to_null 4096 2 folder ≡ ok (some entry, d'))
    × (entry.ino ≡ 1)
    × (disk_finddir 4096 entry.name d' ≡ ok 12472)
disk_finddir-disk_readdir_example =
    disk_finddir-disk_readdir up_to_null 4096 97 (98 ∷ []) (7 ∷ []) 1 (first ∷ []) [] folder
      up_to_null-Counts refl (omega arith) (omega arith) (omega arith, (omega arith, tt)) (λ e. cc)
      (λ e. cc, (omega arith, tt), tt) (omega arith)
