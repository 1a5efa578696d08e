-- ===== src/Kheap/Free.antt =====
-- kheap.c: `free` and `kfree`. Each unification is a function of the kernel and of the local
-- variables that it changes.
use ahk_main.Base.{
  ℕ, zero, suc, Bool, true, false, not, ◌&&◌, Result, ok, ◌>>=◌, ◌>>◌, assert, ltb, ◌==◌,
  if◌then◌else◌, add32, sub32,
}
use ahk_main.Memory.{Memory}
use ahk_main.OrderedArray.{OrderedArray, lookup_ordered_array}
use ahk_main.Kernel.{Kernel}
use ahk_main.Kheap.Layout.{
  heap_magic, header_size, footer_size, header_magic, header_is_hole, header_block_size,
  set_header_size, set_is_hole, footer_magic, footer_header, set_footer_header, set_footer,
  on_memory, insert_in_index, remove_from_index,
}
use ahk_main.Kheap.Resize.{contract, heap_length}
use ahk_main.Kheap.Alloc.{no_kmalloc}

-- The local variables of `free` that its parts change: `header`, `footer`, `do_add`, `test_header`.
pub record Locals : Type 0 where
  pub header : ℕ
  pub footer : ℕ
  pub do_add : Bool
  pub test_header : ℕ

-- The hole to the left takes in the block, and its header becomes the block's.
unfoldable pub unify_left : Locals → Kernel → Locals × Kernel
unify_left v k =
    let m = k.memory in
    let test_footer = sub32 v.header footer_size in
    let left = footer_header m test_footer in
    let cache_size = header_block_size m v.header in
    let m' = set_footer_header v.footer left m in
    if (footer_magic m test_footer == heap_magic) && (header_is_hole m left == 1)
    then (
      record v { header = left; do_add = false },
      record k { memory = set_header_size left (add32 (header_block_size m' left) cache_size) m' },
    )
    else (v, k)

-- The place of an item in the index; the size of the index, where it is not there.
unfoldable pub index_of : ℕ → ℕ → ℕ → OrderedArray Memory ℕ → Result ℕ
index_of item zero iterator index = ok iterator
index_of item (suc rounds) iterator index = do
  x ← lookup_ordered_array iterator index
  let rest = index_of item rounds (suc iterator) index
  if x == item then ok iterator else rest

-- The hole to the right is taken in and leaves the index. Its footer is not rewritten.
unfoldable pub unify_right : Locals → Kernel → Result (Locals × Kernel)
unfolding index_of remove_from_index
unify_right v k =
    let m = k.memory in
    let test_header = add32 v.footer footer_size in
    let m' =
      set_header_size v.header
        (add32 (header_block_size m v.header) (header_block_size m test_header)) m in
    let taken = (do
      iterator ← index_of test_header k.heap.index.size 0 k.heap.index
      assert (ltb iterator k.heap.index.size)
      k' ← remove_from_index iterator (record k { memory = m' })
      ok (
        record v {
          footer = sub32 (add32 test_header (header_block_size m' test_header)) footer_size;
          test_header = test_header;
        },
        k',
      )) in
    if (header_magic m test_header == heap_magic) && not (header_is_hole m test_header == 0)
    then taken
    else ok (record v { test_header = test_header }, k)

-- Where the block ends the heap, the heap gives pages back. The index is searched for `test_header`.
unfoldable pub shrink : Locals → Kernel → Result Kernel
unfolding contract index_of remove_from_index
shrink v k =
    let old_length = heap_length k in
    let shrunk = (do
      (new_length, k') ← contract no_kmalloc (sub32 v.header k.heap.start_address) k
      let less = sub32 old_length new_length
      let size = sub32 (header_block_size k'.memory v.header) less
      let sized = set_header_size v.header size k'.memory
      let footer = sub32 (add32 v.header (header_block_size sized v.header)) footer_size
      let kept = ok (record k' { memory = set_footer footer v.header sized })
      let gone = (do
        iterator ← index_of v.test_header k'.heap.index.size 0 k'.heap.index
        let removed = remove_from_index iterator k'
        if ltb iterator k'.heap.index.size then removed else ok k')
      if ltb 0 size then kept else gone) in
    if add32 v.footer footer_size == k.heap.end_address then shrunk else ok k

unfoldable pub free : ℕ → Kernel → Result Kernel
unfolding unify_left unify_right shrink insert_in_index
free p k =
    let header = sub32 p header_size in
    let footer = sub32 (add32 header (header_block_size k.memory header)) footer_size in
    let freed = (do
      assert (header_magic k.memory header == heap_magic)
      assert (footer_magic k.memory footer == heap_magic)
      let start : Locals = record {
        header = header;
        footer = footer;
        do_add = true;
        test_header = 0;
      }
      let (left, k₁) = unify_left start (on_memory (set_is_hole header 1) k)
      (right, k₂) ← unify_right left k₁
      k₃ ← shrink right k₂
      let added = insert_in_index right.header k₃
      if right.do_add then added else ok k₃) in
    if p == 0 then ok k else freed

unfoldable pub kfree : ℕ → Kernel → Result Kernel
unfolding free
kfree p k = free p k
