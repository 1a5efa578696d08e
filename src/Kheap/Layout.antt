-- ===== src/Kheap/Layout.antt =====
-- kheap.h: the constants, the headers and footers in the memory, and the index of a heap.
use ahk_main.Base.{
  ℕ, ◌+◌, ◌*◌, ◌/◌, ◌%◌, Bool, true, false, not, Result, ok, ◌>>=◌, ltb, ◌==◌, if◌then◌else◌,
}
use ahk_main.Memory.{Memory, load32, store8, store32}
use ahk_main.OrderedArray.{OrderedArray, LessThan, insert_ordered_array, remove_ordered_array}
use ahk_main.Kernel.{Kernel}

abbrev pub heap_index_size : ℕ
heap_index_size = 0x20000

abbrev pub heap_magic : ℕ
heap_magic = 0x123890AB

abbrev pub heap_min_size : ℕ
heap_min_size = 0x70000

abbrev pub page_size : ℕ
page_size = 0x1000

-- `sizeof(header_t)` and `sizeof(footer_t)`, with the padding behind `is_hole`
abbrev pub header_size : ℕ
header_size = 12

abbrev pub footer_size : ℕ
footer_size = 8

-- `x & 0xFFFFF000`
abbrev pub page_base : ℕ → ℕ
page_base x = x / page_size * page_size

-- `x & 0xFFFFF000 != 0`, which C reads as `x & (0xFFFFF000 != 0)`, that is `x & 1`
abbrev pub page_test : ℕ → Bool
page_test x = not (x % 2 == 0)

-- The fields of the `header_t` at an address.
abbrev pub header_magic : Memory → ℕ → ℕ
header_magic m h = load32 m h

abbrev pub header_is_hole : Memory → ℕ → ℕ
header_is_hole m h = m (h + 4)

abbrev pub header_block_size : Memory → ℕ → ℕ
header_block_size m h = load32 m (h + 8)

abbrev pub set_header_size : ℕ → ℕ → Memory → Memory
set_header_size h size m = store32 m (h + 8) size

abbrev pub set_is_hole : ℕ → ℕ → Memory → Memory
set_is_hole h hole m = store8 m (h + 4) hole

unfoldable pub set_header : ℕ → ℕ → ℕ → Memory → Memory
set_header h hole size m = set_header_size h size (set_is_hole h hole (store32 m h heap_magic))

-- The fields of the `footer_t` at an address.
abbrev pub footer_magic : Memory → ℕ → ℕ
footer_magic m f = load32 m f

abbrev pub footer_header : Memory → ℕ → ℕ
footer_header m f = load32 m (f + 4)

abbrev pub set_footer_header : ℕ → ℕ → Memory → Memory
set_footer_header f header m = store32 m (f + 4) header

unfoldable pub set_footer : ℕ → ℕ → Memory → Memory
set_footer f header m = set_footer_header f header (store32 m f heap_magic)

abbrev pub header_t_less_than : LessThan Memory ℕ
header_t_less_than m a b =
    if ltb (header_block_size m a) (header_block_size m b) then true else false

abbrev pub on_memory : (Memory → Memory) → Kernel → Kernel
on_memory f k = record k { memory = f k.memory }

abbrev pub set_index : OrderedArray Memory ℕ → Kernel → Kernel
set_index index k = record k { heap = record (k.heap) { index = index } }

unfoldable pub insert_in_index : ℕ → Kernel → Result Kernel
insert_in_index item k =
    insert_ordered_array k.memory item k.heap.index >>= λ index. ok (set_index index k)

unfoldable pub remove_from_index : ℕ → Kernel → Result Kernel
remove_from_index i k = remove_ordered_array i k.heap.index >>= λ index. ok (set_index index k)
