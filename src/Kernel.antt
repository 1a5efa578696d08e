-- ===== src/Kernel.antt =====
-- The state that paging.c and kheap.c share: the global variables of both files, the memory behind
-- the kernel's pointers, and the structures of paging.h and kheap.h.
-- Page tables are kept as objects by their address, beside the bytes of the memory, and so is the
-- array of the heap's index, which lies below `start_address`, where no block lies.
use ahk_main.Base.{ℕ, Bool, List, ◌==◌, if◌then◌else◌}
use ahk_main.Memory.{Memory}
use ahk_main.OrderedArray.{OrderedArray}

-- `page_t`: bit fields of 1, 1, 1, 1, 1, 7 and 20 bits.
pub record Page : Type 0 where
  pub present : ℕ
  pub rw_bit : ℕ
  pub user : ℕ
  pub accessed : ℕ
  pub dirty : ℕ
  pub unused : ℕ
  pub frame : ℕ

abbrev pub zero_page : Page
zero_page = record {
  present = 0;
  rw_bit = 0;
  user = 0;
  accessed = 0;
  dirty = 0;
  unused = 0;
  frame = 0;
}

-- A `page_t *`: the address of a page table, and an index into it.
pub record PagePointer : Type 0 where
  pub table : ℕ
  pub index : ℕ

-- `page_directory_t`: a null pointer is 0. `physicalAddr` is neither read nor written by paging.c.
pub record PageDirectory : Type 0 where
  pub tables : ℕ → ℕ
  pub tables_physical : ℕ → ℕ

-- `heap_t`
pub record Heap : Type 0 where
  pub index : OrderedArray Memory ℕ
  pub start_address : ℕ
  pub end_address : ℕ
  pub max_address : ℕ
  pub supervisor : ℕ
  pub readonly : ℕ

-- `kheap_ready` says whether the pointer `kheap` is set; it points to `heap` then.
pub record Kernel : Type 0 where
  pub memory : Memory
  pub placement_address : ℕ
  pub kheap_ready : Bool
  pub heap : Heap
  pub frames : List ℕ
  pub nframes : ℕ
  pub kernel_directory : PageDirectory
  pub pages : ℕ → ℕ → Page

-- One entry of an array of the kernel, given anew.
abbrev pub update {ℓ} : {A : Type ℓ} → (ℕ → A) → ℕ → A → ℕ → A
update f i v j = if j == i then v else f j
