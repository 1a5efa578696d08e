-- ===== src/Kheap/Alloc.antt =====
-- kheap.c: `alloc`, the family of `kmalloc`, and `create_heap`.
use ahk_main.Base.{
  ℕ, zero, suc, ◌+◌, ◌*◌, ◌%◌, Bool, true, false, not, Option, none, some, ◌&&◌, Result, ok, fault,
  out_of_fuel, ◌>>=◌, ◌>>◌, assert, or_fault, ◌==◌, if◌then◌else◌, u8, u32, add32, sub32,
}
use ahk_main.Memory.{Memory}
use ahk_main.Common.Bytes.{memset}
use ahk_main.OrderedArray.{LessThan, OrderedArray, place_ordered_array}
use ahk_main.Kernel.{PagePointer, Kernel}
use ahk_main.Paging.{Allocator, page_at, get_page}
use ahk_main.Kheap.Layout.{
  heap_index_size, page_size, header_size, footer_size, page_base, page_test, set_header,
  header_t_less_than, insert_in_index,
}
use ahk_main.Kheap.Holes.{find_smallest_hole, alloc_in}
use ahk_main.Kheap.Resize.{grow}

-- What `kmalloc_int` stores into `phys`: `+` binds tighter than `&` in
-- `page->frame*0x1000 + (u32int)addr&0xFFF`.
unfoldable pub physical : Option PagePointer → ℕ → Kernel → Result ℕ
physical pointer addr k =
    or_fault pointer >>= λ p. ok (add32 (u32 ((page_at k p).frame * 0x1000)) addr % 0x1000)

-- For a call of `get_page` that makes no page table, and so does not call its allocator.
abbrev pub no_kmalloc : Allocator
no_kmalloc sz align k = fault

-- `kmalloc_int` where the heap is ready, with a `phys`; then where it is not.
unfoldable pub kmalloc_heap :
    (ℕ → ℕ → Kernel → Result (ℕ × Kernel)) → ℕ → ℕ → Kernel → Result (ℕ × ℕ × Kernel)
unfolding physical
kmalloc_heap alloc sz align k = do
  (addr, k') ← alloc sz (u8 align) k
  (page, k'') ← get_page no_kmalloc addr 0 k'
  phys ← physical page addr k''
  ok (addr, phys, k'')

unfoldable pub kmalloc_placement : ℕ → ℕ → Kernel → ℕ × ℕ × Kernel
kmalloc_placement sz align k =
    let placement = k.placement_address in
    let aligned =
      if (align == 1) && not (page_base placement == 0)
      then add32 (page_base placement) page_size
      else placement in
    (aligned, aligned, record k { placement_address = add32 aligned sz })

-- `alloc`, and `kmalloc_int` for its page tables.
unfoldable pub alloc : ℕ → ℕ → ℕ → Kernel → Result (ℕ × Kernel)
alloc zero size page_align k = out_of_fuel
alloc (suc fuel) size page_align k = do
  let new_size = u32 (size + header_size + footer_size)
  let kmalloc : Allocator = λ sz align k.
      if k.kheap_ready
      then kmalloc_heap (alloc fuel) sz align k
      else ok (kmalloc_placement sz align k)
  found ← find_smallest_hole new_size page_align k
  let retry = grow kmalloc new_size k >>= alloc fuel size page_align
  elim found [ none ↦ retry | some iterator ↦ alloc_in iterator size page_align k ]

-- `kmalloc_int`: with a null `phys` the page table is not read. The results are the address and what
-- is stored into `phys`, if anything.
unfoldable pub kmalloc_int : ℕ → ℕ → ℕ → Bool → Kernel → Result (ℕ × Option ℕ × Kernel)
unfolding alloc
kmalloc_int fuel sz align phys k =
    if k.kheap_ready
    then (if phys
        then (kmalloc_heap (alloc fuel) sz align k >>= λ (addr, p, k'). ok (addr, some p, k'))
        else (alloc fuel sz (u8 align) k >>= λ (addr, k'). ok (addr, none, k')))
    else (let (addr, p, k') = kmalloc_placement sz align k in
        ok (addr, if phys then some p else none, k'))

unfoldable pub kmalloc_a : ℕ → ℕ → Kernel → Result (ℕ × Option ℕ × Kernel)
unfolding kmalloc_int
kmalloc_a fuel sz = kmalloc_int fuel sz 1 false

unfoldable pub kmalloc_p : ℕ → ℕ → Kernel → Result (ℕ × Option ℕ × Kernel)
unfolding kmalloc_int
kmalloc_p fuel sz = kmalloc_int fuel sz 0 true

unfoldable pub kmalloc_ap : ℕ → ℕ → Kernel → Result (ℕ × Option ℕ × Kernel)
unfolding kmalloc_int
kmalloc_ap fuel sz = kmalloc_int fuel sz 1 true

unfoldable pub kmalloc : ℕ → ℕ → Kernel → Result (ℕ × Option ℕ × Kernel)
unfolding kmalloc_int
kmalloc fuel sz = kmalloc_int fuel sz 0 false

-- `create_heap`, on the heap that `kheap` is set to afterwards; 36 is `sizeof(heap_t)`.
unfoldable pub create_heap : ℕ → ℕ → ℕ → ℕ → ℕ → ℕ → Kernel → Result Kernel
unfolding kmalloc set_header insert_in_index
create_heap fuel start end_addr max supervisor readonly k = do
  (_, _, k') ← kmalloc fuel 36 k
  assert (start % page_size == 0)
  assert (end_addr % page_size == 0)
  let index = place_ordered_array 0 heap_index_size (some header_t_less_than)
  let shifted = add32 start (4 * heap_index_size)
  let first = if page_test shifted then add32 (page_base shifted) page_size else shifted
  insert_in_index first (record k' {
    memory = set_header first 1 (sub32 end_addr first) k'.memory;
    heap = record {
      index = index;
      start_address = first;
      end_address = end_addr;
      max_address = max;
      supervisor = supervisor;
      readonly = readonly;
    };
  })

-- ordered_array.c: the array is in the memory that `kmalloc` gives, and is kept as the list of its
-- slots beside it.
unfoldable pub create_ordered_array :
    ℕ → ℕ → Option (LessThan Memory ℕ) → Kernel → Result (OrderedArray Memory ℕ × Kernel)
unfolding kmalloc
create_ordered_array fuel max_size less_than k = do
  let bytes = u32 (max_size * 4)
  (addr, _, k') ← kmalloc fuel bytes k
  ok (
    place_ordered_array 0 max_size less_than,
    record k' { memory = memset addr 0 bytes k'.memory },
  )
