-- ===== src/Files/Disk.antt =====
-- vfs.h and vfs.c: reading, listing and searching the files of a disk. `strlen` is the C library's.
use ahk_main.Base.{
  ℕ, zero, suc, ◌+◌, ◌*◌, ◌%◌, ◌^◌, ◌&&◌, Option, none, some, List, [], ◌∷◌, Result, ok, ◌>>=◌,
  read, write, ltb, leb, ◌==◌, if◌then◌else◌, add32, sub32,
}
use ahk_main.Memory.{Memory}
use ahk_main.Common.{strcmp}
use ahk_main.Common.Bytes.{memcpy}
use ahk_main.Common.Copies.{strcpy}
use ahk_main.Files.{Dirent}

-- `fs_file_header_t`
pub record FileHeader : Type 0 where
  pub magic : ℕ
  pub name : List ℕ
  pub offset : ℕ
  pub length : ℕ

-- What vfs.c reads of a node in `root_nodes`.
pub record RootNode : Type 0 where
  pub name : List ℕ
  pub inode : ℕ

-- The global variables of vfs.c, with the address of the array `root_nodes`, and the memory.
pub record Disk : Type 0 where
  pub file_headers : List FileHeader
  pub initrd_root : ℕ
  pub initrd_dev : ℕ
  pub root_nodes : List RootNode
  pub root_nodes_at : ℕ
  pub nroot_nodes : ℕ
  pub dirent : Dirent
  pub memory : Memory

-- `disk_read` of a node with this inode. A sum of 32 bits may wrap.
unfoldable pub disk_read : ℕ → ℕ → ℕ → ℕ → Disk → Result (ℕ × Disk)
disk_read inode offset size buffer d = do
  header ← read d.file_headers inode
  let clipped = if ltb header.length (add32 offset size) then sub32 header.length offset else size
  let memory = memcpy buffer (add32 header.offset offset) clipped d.memory
  if ltb header.length offset then ok (0, d) else ok (clipped, record d { memory = memory })

-- "dev"
abbrev pub dev_name : List ℕ
dev_name = 100 ∷ 101 ∷ 118 ∷ 0 ∷ []

-- `dirent` with a name, a null at a place of it, and an inode.
unfoldable pub named : List ℕ → ℕ → ℕ → Disk → Result (Option Dirent × Disk)
named name end ino d = do
  copied ← strcpy d.dirent.name name
  ended ← write copied end 0
  let entry : Dirent = record { name = ended; ino = ino }
  ok (some entry, record d { dirent = entry })

-- The pointer that is returned points to `dirent`, unless it is null.
unfoldable pub disk_readdir : (List ℕ → ℕ) → ℕ → ℕ → Disk → Result (Option Dirent × Disk)
disk_readdir strlen node index d =
    let listed = (do
      entry ← read d.root_nodes (sub32 index 1)
      named entry.name (strlen entry.name) entry.inode d) in
    if (node == d.initrd_root) && (index == 0)
    then named dev_name 3 0 d
    else if leb d.nroot_nodes (sub32 index 1)
    then ok (none, d)
    else listed

-- The loop of `disk_finddir` from node `i` on; 184 is `sizeof(fs_node_t)`.
unfoldable pub find_node : ℕ → ℕ → List ℕ → Disk → Result ℕ
find_node zero i name d = ok 0
find_node (suc rounds) i name d = do
  entry ← read d.root_nodes i
  let rest = find_node rounds (suc i) name d
  if strcmp name entry.name == 0 then ok ((d.root_nodes_at + i * 184) % 2 ^ 32) else rest

-- `i < nroot_nodes` is signed: a negative number has no rounds.
unfoldable pub disk_finddir : ℕ → List ℕ → Disk → Result ℕ
disk_finddir node name d =
    let searched = find_node (if ltb d.nroot_nodes (2 ^ 31) then d.nroot_nodes else 0) 0 name d in
    if (node == d.initrd_root) && (strcmp name dev_name == 0) then ok d.initrd_dev else searched
