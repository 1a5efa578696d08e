-- ===== src/Tests/Allocations.antt =====
-- Tests of create_heap and of a sequence of allocations, on a kernel that has just booted.
use ahk_main.Base.{refl, false, inl, none, [], ◌∷◌, arith}
use ahk_main.Kernel.{Kernel, zero_page}
use ahk_main.Kheap.Blocks.{hole}
use ahk_main.Kheap.Alloc.{create_heap}
use ahk_main.Kheap.Creates.{Created, create_heap-Created}
use ahk_main.Kheap.Sequences.{alloc_all, Granted, alloc_all-Granted}

abbrev pub booting : Kernel
booting = record {
  memory = λ _. 0;
  placement_address = 0x110000;
  kheap_ready = false;
  heap = record {
    index = record { array = []; size = 0; max_size = 0; less_than = none };
    start_address = 0;
    end_address = 0;
    max_address = 0;
    supervisor = 0;
    readonly = 0;
  };
  frames = [];
  nframes = 0;
  kernel_directory = record { tables = λ _. 0; tables_physical = λ _. 0 };
  pages = λ _ _. zero_page;
}

created :
    Created 0xC0000000 0xC0100000 booting
      (create_heap 1 0xC0000000 0xC0100000 0xCFFFF000 0 0 booting)
created =
    create_heap-Created 1 0xC0000000 0xC0100000 0xCFFFF000 0 0 booting refl refl refl (omega arith)
      (omega arith)

alloc_all-Granted_example :
    Granted
      (100 ∷ 5000 ∷ 4 ∷ [])
      created.after
      (hole 0x80000 ∷ [])
      (alloc_all 3 (100 ∷ 5000 ∷ 4 ∷ []) created.after)
alloc_all-Granted_example =
    alloc_all-Granted 2 (100 ∷ 5000 ∷ 4 ∷ []) created.after (hole 0x80000 ∷ []) created.sound
      (inl (refl, omega arith))
