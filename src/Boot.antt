-- ===== src/Boot.antt =====
-- paging.c: initialise_paging, which joins the frames, the page tables, the heap and the interrupts.
-- The loading of the directory into the processor by switch_page_directory is not modelled.
pub mod Messages
pub mod Entry
pub mod Stages
pub mod Directory
pub mod Start
pub mod Mapping
pub mod Paged
pub mod Booted
pub mod Contents
use ahk_main.Base.{
  ℕ, zero, suc, ◌+◌, ◌*◌, ◌/◌, ◌++◌, Bool, true, List, [], ◌∷◌, replicate, Result, ok, out_of_fuel,
  ◌>>=◌, or_fault, ltb, ◌==◌, if◌then◌else◌, add32,
}
use ahk_main.Memory.{Memory, load32}
use ahk_main.Common.Bytes.{memset}
use ahk_main.Kernel.{Kernel}
use ahk_main.Paging.{Allocator, index_from_bit, get_page, alloc_frame}
use ahk_main.Kheap.Alloc.{kmalloc, kmalloc_a, kmalloc_ap, create_heap}
use ahk_main.Interrupts.{Interrupts, page_fault, register_interrupt_handler}

-- KHEAP_START and KHEAP_INITIAL_SIZE.
abbrev kheap_start : ℕ
kheap_start = 0xC0000000

abbrev kheap_initial_size : ℕ
kheap_initial_size = 0x100000

-- `kmalloc_ap`, as `get_page` calls it.
unfoldable pub table_kmalloc : ℕ → Allocator
table_kmalloc fuel sz align k = do
  (addr, physical, k') ← kmalloc_ap fuel sz k
  p ← or_fault physical
  ok (addr, p, k')

-- `n` words from an address on.
unfoldable pub words_at : ℕ → ℕ → Memory → List ℕ
words_at zero a m = []
words_at (suc n) a m = load32 m a ∷ words_at n (add32 a 4) m

-- The bitset of `nframes` frames takes `nframes / 32` words, of which `nframes / 32` bytes are
-- allocated and cleared.
unfoldable pub make_frames : ℕ → ℕ → Kernel → Result Kernel
make_frames fuel nframes k = do
  let bytes = index_from_bit nframes
  (a, _, k') ← kmalloc fuel bytes k
  let memory = memset a 0 bytes k'.memory
  ok (record k' { nframes = nframes; memory = memory; frames = words_at bytes a memory })

-- 8196 is `sizeof(page_directory_t)`. The directory is an object beside the memory.
unfoldable pub make_directory : ℕ → Kernel → Result Kernel
make_directory fuel k = do
  (_, _, k') ← kmalloc_a fuel 8196 k
  ok (record k' { kernel_directory = record { tables = λ _. 0; tables_physical = λ _. 0 } })

-- `for (...) get_page(i, 1, kernel_directory);`
unfoldable pub make_tables : ℕ → ℕ → ℕ → Kernel → Result Kernel
make_tables fuel zero i k = ok k
make_tables fuel (suc rounds) i k =
    get_page (table_kmalloc fuel) i 1 k >>= λ (_, k'). make_tables fuel rounds (add32 i 0x1000) k'

unfoldable pub alloc_page : ℕ → ℕ → Kernel → Result Kernel
alloc_page fuel i k = get_page (table_kmalloc fuel) i 1 k >>= λ (page, k'). alloc_frame page 0 0 k'

-- The `while` loop, up to the end of what `kmalloc` has given out by then.
unfoldable pub identity_map : ℕ → ℕ → Kernel → Result Kernel
identity_map zero i k = out_of_fuel
identity_map (suc fuel) i k =
    let rest = alloc_page fuel i k >>= identity_map fuel (add32 i 0x1000) in
    if ltb i (add32 k.placement_address 0x1000) then rest else ok k

-- `for (...) alloc_frame( get_page(i, 1, kernel_directory), 0, 0);`
unfoldable pub alloc_pages : ℕ → ℕ → ℕ → Kernel → Result Kernel
alloc_pages fuel zero i k = ok k
alloc_pages fuel (suc rounds) i k = alloc_page fuel i k >>= alloc_pages fuel rounds (add32 i 0x1000)

unfoldable pub initialise_paging : ℕ → Kernel → Interrupts → Result (Kernel × Interrupts)
initialise_paging fuel k s = do
  k ← make_frames fuel (0x1000000 / 0x1000) k
  k ← make_directory fuel k
  k ← make_tables fuel (kheap_initial_size / 0x1000) kheap_start k
  k ← identity_map fuel 0 k
  k ← alloc_pages fuel (kheap_initial_size / 0x1000) kheap_start k
  s ← register_interrupt_handler 14 page_fault s
  k ← create_heap fuel kheap_start (kheap_start + kheap_initial_size) 0xCFFFF000 0 0 k
  ok (record k { kheap_ready = true }, s)
