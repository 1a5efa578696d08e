-- ===== src/Kheap/Holes.antt =====
-- kheap.c: the search for a hole, and the part of `alloc` that cuts a block from one.
use ahk_main.Base.{
  ℕ, zero, suc, ◌+◌, ◌-◌, ◌%◌, Bool, not, Option, none, some, ◌&&◌, Result, ok, ◌>>=◌, ltb, leb,
  ◌==◌, if◌then◌else◌, u32, add32, sub32, leb_s32,
}
use ahk_main.Memory.{Memory}
use ahk_main.OrderedArray.{OrderedArray, lookup_ordered_array}
use ahk_main.Kernel.{Kernel}
use ahk_main.Kheap.Layout.{
  page_size, header_size, footer_size, page_base, page_test, header_block_size, set_header,
  set_footer, on_memory, insert_in_index, remove_from_index,
}

-- The loop of `find_smallest_hole` tests a hole: the test of the branch for `page_align`, or not.
unfoldable pub hole_fits : ℕ → ℕ → Memory → ℕ → Bool
hole_fits size page_align m header =
    if ltb 0 page_align
    then (let start = add32 header header_size in
        let offset = if page_test start then page_size - start % page_size else 0 in
        leb_s32 size (sub32 (header_block_size m header) offset))
    else leb size (header_block_size m header)

unfoldable pub find_from : (ℕ → Bool) → ℕ → ℕ → OrderedArray Memory ℕ → Result (Option ℕ)
find_from fits zero iterator index = ok none
find_from fits (suc rounds) iterator index = do
  header ← lookup_ordered_array iterator index
  let rest = find_from fits rounds (suc iterator) index
  if fits header then ok (some iterator) else rest

-- `none` is the result -1.
unfoldable pub find_smallest_hole : ℕ → ℕ → Kernel → Result (Option ℕ)
unfolding find_from hole_fits
find_smallest_hole size page_align k =
    find_from (hole_fits size page_align k.memory) k.heap.index.size 0 k.heap.index

-- The part of `alloc` that makes a hole in front of a page-aligned block, or takes the hole out of
-- the index: the position and size of what is left for the block.
unfoldable pub take_hole : ℕ → ℕ → ℕ → ℕ → Kernel → Result (ℕ × ℕ × Kernel)
unfolding set_header set_footer remove_from_index
take_hole iterator page_align orig_hole_pos orig_hole_size k =
    if not (page_align == 0) && not (page_base orig_hole_pos == 0)
    then (let low = orig_hole_pos % page_size in
        let new_location = sub32 (sub32 (add32 orig_hole_pos page_size) low) header_size in
        let marked = set_header orig_hole_pos 1 (sub32 (page_size - low) header_size) k.memory in
        let m = set_footer (sub32 new_location footer_size) orig_hole_pos marked in
        ok (
          new_location,
          sub32 orig_hole_size (header_block_size m orig_hole_pos),
          record k { memory = m },
        ))
    else remove_from_index iterator k >>= λ k'. ok (orig_hole_pos, orig_hole_size, k')

-- The header and the footer of the new block.
unfoldable pub write_block : ℕ → ℕ → ℕ → Memory → Memory
unfolding set_header set_footer
write_block pos size new_size m =
    set_footer (add32 (add32 pos header_size) size) pos (set_header pos 0 new_size m)

-- The hole that is left behind the new block.
unfoldable pub write_rest : ℕ → ℕ → ℕ → Memory → Memory
unfolding set_header set_footer
write_rest hole rest end_address m =
    let marked = set_header hole 1 rest m in
    let footer = sub32 (add32 hole rest) footer_size in
    if ltb footer end_address then set_footer footer hole marked else marked

unfoldable pub split_rest : ℕ → ℕ → ℕ → Kernel → Result Kernel
unfolding write_rest insert_in_index
split_rest pos size rest k =
    let hole = add32 (add32 (add32 pos header_size) size) footer_size in
    if ltb 0 rest
    then insert_in_index hole (on_memory (write_rest hole rest k.heap.end_address) k)
    else ok k

-- `alloc` from the hole at an index of the index on.
unfoldable pub alloc_in : ℕ → ℕ → ℕ → Kernel → Result (ℕ × Kernel)
unfolding take_hole write_block split_rest
alloc_in iterator size page_align k = do
  let asked = u32 (size + header_size + footer_size)
  orig_hole_pos ← lookup_ordered_array iterator k.heap.index
  let orig_hole_size = header_block_size k.memory orig_hole_pos
  let spare = sub32 orig_hole_size asked
  let whole = ltb spare (header_size + footer_size)
  let block_size = if whole then add32 size spare else size
  let new_size = if whole then orig_hole_size else asked
  (pos, room, k) ← take_hole iterator page_align orig_hole_pos orig_hole_size k
  k ←
      split_rest pos block_size (sub32 room new_size)
        (on_memory (write_block pos block_size new_size) k)
  ok (add32 pos header_size, k)
