-- ===== src/Kheap/Resize.antt =====
-- kheap.c: `expand`, `contract`, and the part of `alloc` that grows the heap.
use ahk_main.Base.{
  ℕ, zero, suc, ◌+◌, ◌/◌, ◌%◌, ◌^◌, Option, none, some, Result, ok, out_of_fuel, ◌>>=◌, ◌>>◌,
  assert, ltb, leb, ◌==◌, if◌then◌else◌, add32, sub32,
}
use ahk_main.Memory.{Memory}
use ahk_main.OrderedArray.{OrderedArray, lookup_ordered_array}
use ahk_main.Kernel.{Kernel}
use ahk_main.Paging.{Allocator, get_page, alloc_frame, free_frame}
use ahk_main.Kheap.Layout.{
  heap_min_size, page_size, footer_size, page_base, page_test, header_block_size, set_header_size,
  set_header, set_footer, on_memory, insert_in_index,
}

-- `expand`: the loop maps the pages from `i` up to `new_size`. Its rounds are those of the 2 ^ 20
-- pages of the address space.
unfoldable pub expand_from : Allocator → ℕ → ℕ → ℕ → Kernel → Result Kernel
expand_from kmalloc zero new_size i k = out_of_fuel
expand_from kmalloc (suc fuel) new_size i k =
    let heap = k.heap in
    let mapped = get_page kmalloc (add32 heap.start_address i) 1 k >>= λ (page, k').
    alloc_frame page (if heap.supervisor == 0 then 0 else 1) (if heap.readonly == 0 then 1 else 0)
      k'
    >>= expand_from kmalloc fuel new_size (add32 i page_size) in
    if ltb i new_size then mapped else ok k

abbrev pub set_end : ℕ → Kernel → Kernel
set_end end_address k = record k { heap = record (k.heap) { end_address = end_address } }

-- `end_address - start_address`
abbrev pub heap_length : Kernel → ℕ
heap_length k = sub32 k.heap.end_address k.heap.start_address

-- The first lines of `expand`: up to the next page boundary, as C reads the test.
unfoldable pub round_up : ℕ → ℕ
round_up size = if page_test size then add32 (page_base size) page_size else size

unfoldable pub expand : Allocator → ℕ → Kernel → Result Kernel
unfolding expand_from round_up
expand kmalloc asked k = do
  assert (ltb (heap_length k) asked)
  let new_size = round_up asked
  assert (leb (add32 k.heap.start_address new_size) k.heap.max_address)
  k' ← expand_from kmalloc (2 ^ 20 + 1) new_size (heap_length k) k
  ok (set_end (add32 k'.heap.start_address new_size) k')

-- The rounding of `contract`: `new_size &= 0x1000` leaves 0x1000, as that bit was just tested.
unfoldable pub contracted_size : ℕ → ℕ
contracted_size asked =
    let rounded = if asked / page_size % 2 == 0 then asked else page_size + page_size in
    if ltb rounded heap_min_size then heap_min_size else rounded

-- No page table is made here, so `get_page` does not call its allocator.
unfoldable pub contract_from : Allocator → ℕ → ℕ → ℕ → Kernel → Result Kernel
contract_from kmalloc zero new_size i k = out_of_fuel
contract_from kmalloc (suc fuel) new_size i k =
    let unmapped = get_page kmalloc (add32 k.heap.start_address i) 0 k >>= λ (page, k').
    free_frame page k' >>= contract_from kmalloc fuel new_size (sub32 i page_size) in
    if ltb new_size i then unmapped else ok k

unfoldable pub contract : Allocator → ℕ → Kernel → Result (ℕ × Kernel)
unfolding contract_from contracted_size
contract kmalloc asked k = do
  assert (ltb asked (heap_length k))
  let new_size = contracted_size asked
  k' ← contract_from kmalloc (2 ^ 20 + 1) new_size (sub32 (heap_length k) page_size) k
  ok (new_size, set_end (add32 k'.heap.start_address new_size) k')

-- The loop of `alloc` over the index for the hole at the highest address. `none` is the index -1.
unfoldable pub endmost_from : ℕ → ℕ → Option ℕ → ℕ → OrderedArray Memory ℕ → Result (Option ℕ)
endmost_from zero iterator idx value index = ok idx
endmost_from (suc rounds) iterator idx value index = do
  tmp ← lookup_ordered_array iterator index
  let higher = ltb value tmp
  endmost_from rounds (suc iterator) (if higher then some iterator else idx)
      (if higher then tmp else value) index

unfoldable pub endmost : OrderedArray Memory ℕ → Result (Option ℕ)
unfolding endmost_from
endmost index = endmost_from index.size 0 none 0 index

-- The new space becomes a hole, or is joined to the endmost hole.
unfoldable pub add_space : Option ℕ → ℕ → ℕ → Kernel → Result Kernel
unfolding set_header set_footer insert_in_index
add_space none old_end grown k = insert_in_index old_end (
    on_memory
      (λ m.
        let marked = set_header old_end 1 grown m in
        set_footer (sub32 (add32 old_end (header_block_size marked old_end)) footer_size) old_end
          marked)
      k)
add_space (some idx) old_end grown k = do
  header ← lookup_ordered_array idx k.heap.index
  ok (
      on_memory
        (λ m.
          let sized = set_header_size header (add32 (header_block_size m header) grown) m in
          set_footer (sub32 (add32 header (header_block_size sized header)) footer_size) header
            sized)
        k)

-- The part of `alloc` for a heap with no hole that fits.
unfoldable pub grow : Allocator → ℕ → Kernel → Result Kernel
unfolding expand endmost add_space
grow kmalloc new_size k = do
  let old_length = heap_length k
  let old_end = k.heap.end_address
  k' ← expand kmalloc (add32 old_length new_size) k
  idx ← endmost k'.heap.index
  add_space idx old_end (sub32 (heap_length k') old_length) k'
