-- ===== src/Kheap/Carve.antt =====
-- `alloc_in` at an entry of the index that is large enough, without page alignment: its two ways.
use ahk_main.Base.{
  ℕ, ◌+◌, ◌-◌, ◌^◌, ◌≤◌, ◌<◌, ◌≡◌, true, false, ok, ◌>>=◌, ltb, lt→ltb, le→ltb_false, u32, add32,
  sub32, arith,
}
use ahk_main.Memory.{Memory}
use ahk_main.OrderedArray.{OrderedArray, lookup_ordered_array, remove_ordered_array}
use ahk_main.Kernel.{Kernel}
use ahk_main.Kheap.Layout.{
  header_block_size, on_memory, set_index, remove_from_index, insert_in_index,
}
use ahk_main.Kheap.Holes.{take_hole, write_block, write_rest, split_rest, alloc_in}

module _ (k : Kernel) (i size n pos : ℕ) {out : OrderedArray Memory ℕ}
    (looked : lookup_ordered_array i k.heap.index ≡ ok pos)
    (sized : header_block_size k.memory pos ≡ n)
    (removed : remove_ordered_array i k.heap.index ≡ ok out) where
  take_hole-remove : take_hole i 0 pos n k ≡ ok (pos, n, set_index out k)
  unfolding take_hole remove_from_index
  take_hole-remove = rw removed

  -- The whole hole becomes the block.
  pub alloc_in-whole :
      size + 20 ≤ n
      → n < size + 40
      → pos + n < 2 ^ 32
      → alloc_in i size 0 k
        ≡ ok (pos + 12, on_memory (write_block pos (n - 20) n) (set_index out k))
  unfolding alloc_in split_rest
  alloc_in-whole enough tight fits =
      let asked : u32 (size + 12 + 8) ≡ size + 20 = omega arith in
      let spare : sub32 n (size + 20) ≡ n - (size + 20) = omega arith in
      let whole : ltb (n - (size + 20)) 20 ≡ true = lt→ltb (n - (size + 20)) 20 (omega arith) in
      let data_size : add32 size (n - (size + 20)) ≡ n - 20 = omega arith in
      let nothing : sub32 n n ≡ 0 = omega arith in
      let address : add32 pos 12 ≡ pos + 12 = omega arith in
      rw (looked, sized, asked, spare, whole, data_size, take_hole-remove, nothing, address)

  -- The hole is split in two.
  pub alloc_in-split :
      size + 40 ≤ n
      → pos + n < 2 ^ 32
      → let m =
          on_memory
            (λ m.
              write_rest
                (pos + (size + 20))
                (n - (size + 20))
                k.heap.end_address
                (write_block pos size (size + 20) m))
            (set_index out k) in
        alloc_in i size 0 k ≡ (insert_in_index (pos + (size + 20)) m >>= λ k'. ok (pos + 12, k'))
  unfolding alloc_in split_rest
  alloc_in-split loose fits =
      let asked : u32 (size + 12 + 8) ≡ size + 20 = omega arith in
      let spare : sub32 n (size + 20) ≡ n - (size + 20) = omega arith in
      let split : ltb (n - (size + 20)) 20 ≡ false =
        le→ltb_false (n - (size + 20)) 20 (omega arith) in
      let some_left : ltb 0 (n - (size + 20)) ≡ true = lt→ltb 0 (n - (size + 20)) (omega arith) in
      let address : add32 pos 12 ≡ pos + 12 = omega arith in
      let behind : add32 (add32 (add32 pos 12) size) 8 ≡ pos + (size + 20) = omega arith in
      rw (looked, sized, asked, spare, split, take_hole-remove, spare, some_left, behind, address)
