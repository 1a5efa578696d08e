-- ===== src/Kheap/Invariant.antt =====
-- When a heap is sound: its blocks tile its space, and its index holds the addresses of the holes.
use ahk_main.Base.{
  ℕ, ◌+◌, ◌-◌, ◌^◌, ◌≤◌, ◌<◌, ◌≡◌, false, some, List, [], ◌∷◌, ◌++◌, ltb, if◌then◌else◌, length,
  Result, ok, ◌⊎◌,
}
use ahk_main.OrderedArray.Contents.{contents}
use ahk_main.Kernel.{Kernel}
use ahk_main.Kheap.Layout.{header_t_less_than, header_size}
use ahk_main.Kheap.Blocks.{Block, hole, used, HasFooter, Tiles, SameItems, holes, total}

-- The heap is made of the blocks `bs`, and the array of its index has a slot to spare.
pub record Inv (k : Kernel) (bs : List Block) : Type 0 where
  pub tiles : Tiles k.memory k.heap.start_address bs k.heap.end_address
  pub below : k.heap.end_address < 2 ^ 32
  pub indexed : SameItems (contents k.heap.index) (holes k.heap.start_address bs)
  pub compares : k.heap.index.less_than ≡ some header_t_less_than
  pub spare_slot : k.heap.index.size < length k.heap.index.array
  pub small_index : length k.heap.index.array < 2 ^ 32

-- What a hole of `n` bytes becomes when `asked` of them are taken: a rest that is too small for a
-- header and a footer goes to the block.
abbrev pub cut : ℕ → ℕ → List Block
cut n asked = if ltb (n - asked) 20 then used n ∷ [] else used asked ∷ hole (n - asked) ∷ []

-- `r` is a normal return of a pointer into a block that was cut from a hole of `n` bytes, behind the
-- blocks `front` and in front of `back`.
pub record Allocated (size : ℕ) (k : Kernel) (bs : List Block) (r : Result (ℕ × Kernel))
    : Type 0 where
  pub after : Kernel
  pub front : List Block
  pub n : ℕ
  pub back : List Block
  pub was : bs ≡ front ++ (hole n ∷ back)
  pub enough : size + 20 ≤ n
  pub returns : r ≡ ok (k.heap.start_address + total front + header_size, after)
  pub sound : Inv after (front ++ (cut n (size + 20) ++ back))
  pub no_more_entries : after.heap.index.size ≤ k.heap.index.size
  pub same_slots : length after.heap.index.array ≡ length k.heap.index.array
  pub same_start : after.heap.start_address ≡ k.heap.start_address
  pub elsewhere :
      (x : ℕ)
      → (x < k.heap.start_address + total front) ⊎ (k.heap.start_address + total front + n ≤ x)
      → after.memory x ≡ k.memory x
  pub rest_footer :
      ltb (n - (size + 20)) 20 ≡ false
      → HasFooter after.memory (k.heap.start_address + total front + (size + 20)) (n - (size + 20))
