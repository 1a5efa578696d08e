-- ===== src/Files.antt =====
-- fs.h and fs.c: the nodes of a file system and the calls of their functions. A pointer to a node is
-- its address, `open_call` and `close_call` are its `open` and `close`; the functions of a node act on the state `S` of its file system.
pub mod Disk
pub mod Listing
pub mod Fat
use ahk_main.Base.{ℕ, ◌%◌, ◌&&◌, Option, none, some, List, Result, ok, ◌>>=◌, ◌==◌, if◌then◌else◌}

-- `struct dirent`; the name is an array of 128 characters.
pub record Dirent : Type 0 where
  pub name : List ℕ
  pub ino : ℕ

pub record Node (S : Type 0) : Type 0 where
  pub name : List ℕ
  pub mask : ℕ
  pub uid : ℕ
  pub gid : ℕ
  pub flags : ℕ
  pub inode : ℕ
  pub length : ℕ
  pub impl : ℕ
  pub read : Option (ℕ → ℕ → ℕ → ℕ → S → Result (ℕ × S))
  pub write : Option (ℕ → ℕ → ℕ → ℕ → S → Result (ℕ × S))
  pub open_call : Option (ℕ → S → Result S)
  pub close_call : Option (ℕ → S → Result S)
  pub readdir : Option (ℕ → ℕ → S → Result (Option Dirent × S))
  pub finddir : Option (ℕ → List ℕ → S → Result (ℕ × S))
  pub ptr : ℕ

module _ {S : Type 0} (node : ℕ) (n : Node S) where
  unfoldable pub read_fs : ℕ → ℕ → ℕ → S → Result (ℕ × S)
  read_fs offset size buffer s = elim n.read [
    | none ↦ ok (0, s)
    | some call ↦ call node offset size buffer s
  ]

  unfoldable pub write_fs : ℕ → ℕ → ℕ → S → Result (ℕ × S)
  write_fs offset size buffer s = elim n.write [
    | none ↦ ok (0, s)
    | some call ↦ call node offset size buffer s
  ]

  -- The flags of `open_fs` are not used.
  unfoldable pub open_fs : ℕ → ℕ → S → Result S
  open_fs read write s = elim n.open_call [ none ↦ ok s | some call ↦ call node s ]

  unfoldable pub close_fs : S → Result S
  close_fs s = elim n.close_call [ none ↦ ok s | some call ↦ call node s ]

  -- FS_DIRECTORY is 2; `n.flags % 8` is `node->flags&0x7`.
  unfoldable pub readdir_fs : ℕ → S → Result (Option Dirent × S)
  readdir_fs index s =
      let called : Result (Option Dirent × S) = elim n.readdir [
        | none ↦ ok (none, s)
        | some call ↦ call node index s
      ] in
      if n.flags % 8 == 2 then called else ok (none, s)

  unfoldable pub finddir_fs : List ℕ → S → Result (ℕ × S)
  finddir_fs name s =
      let called : Result (ℕ × S) = elim n.finddir [
        | none ↦ ok (0, s)
        | some call ↦ call node name s
      ] in
      if n.flags % 8 == 2 then called else ok (0, s)
