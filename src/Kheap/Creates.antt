-- ===== src/Kheap/Creates.antt =====
-- `create_heap` makes a sound heap: one hole behind the index.
use ahk_main.Base.{
  ℕ, ◌+◌, ◌-◌, ◌*◌, ◌%◌, ◌^◌, ◌≤◌, ◌<◌, ◌≡◌, refl, ap, ◌∙◌, true, false, Option, none, some, [],
  ◌∷◌, Result, ok, ◌==◌, eq→eqb, length, length-replicate, add32, sub32, arith,
}
use ahk_main.Memory.{Memory}
use ahk_main.OrderedArray.{LessThan, place_ordered_array}
use ahk_main.OrderedArray.Contents.{contents}
use ahk_main.OrderedArray.Insert.{insert_before, insert_ordered_array-Inserted}
use ahk_main.Kernel.{Kernel, Heap}
use ahk_main.Kheap.Layout.{heap_index_size, header_t_less_than, set_header, set_index}
use ahk_main.Kheap.Blocks.{hole, IsBlock, count}
use ahk_main.Kheap.Fields.{magic-set_header, is_hole-set_header, size-set_header}
use ahk_main.Kheap.Invariant.{Inv}
use ahk_main.Kheap.Alloc.{kmalloc, kmalloc_int, kmalloc_placement, create_heap}
use ahk_main.Kheap.Taken.{insert_in_index-ok}

module _ (n : ℕ) (f : Option (LessThan Memory ℕ)) where
  place_ordered_array-slots : length (place_ordered_array 0 n f).array ≡ n
  unfolding place_ordered_array
  place_ordered_array-slots = length-replicate {A = ℕ} n 0

  place_ordered_array-empty :
      ((place_ordered_array 0 n f).size ≡ 0)
      × ((place_ordered_array 0 n f).less_than ≡ f)
      × (contents (place_ordered_array 0 n f) ≡ [])
  unfolding place_ordered_array
  place_ordered_array-empty = (refl, refl, refl)

kmalloc-placed :
    (fuel sz : ℕ) (k : Kernel)
    → k.kheap_ready ≡ false
    → kmalloc fuel sz k ≡ ok ((kmalloc_placement sz 0 k).0, none, (kmalloc_placement sz 0 k).2)
unfolding kmalloc kmalloc_int
kmalloc-placed fuel sz k early = rw early refl

IsBlock-hole :
    (m : Memory) (a n : ℕ) → 20 ≤ n → n < 2 ^ 32 → IsBlock (set_header a 1 n m) a (hole n)
IsBlock-hole m a n room fits = record {
  room = room;
  magic = magic-set_header m a 1 n;
  kind = is_hole-set_header m a 1 n;
  size = size-set_header m a 1 n ∙ omega arith;
  footer = λ e. cc;
}

insert_before-nil :
    (m : Memory) (a : ℕ) → insert_before (λ x. header_t_less_than m x a) a [] ≡ a ∷ []
unfolding insert_before
insert_before-nil m a = refl

-- A heap of one hole, from the end of its index to the end of its range. The pages stay as they were.
pub record Created (start end_addr : ℕ) (k : Kernel) (r : Result Kernel) : Type 0 where
  pub after : Kernel
  pub returns : r ≡ ok after
  pub starts : after.heap.start_address ≡ start + 0x80000
  pub ends : after.heap.end_address ≡ end_addr
  pub same_pages : after.pages ≡ k.pages
  pub same_directory : after.kernel_directory ≡ k.kernel_directory
  pub placed : after.placement_address ≡ add32 k.placement_address 36
  pub sound : Inv after (hole (end_addr - (start + 0x80000)) ∷ [])

pub create_heap-Created :
    (fuel start end_addr max supervisor readonly : ℕ) (k : Kernel)
    → k.kheap_ready ≡ false
    → start % 4096 ≡ 0
    → end_addr % 4096 ≡ 0
    → start + 0x80000 + 20 ≤ end_addr
    → end_addr < 2 ^ 32
    → Created start end_addr k (create_heap fuel start end_addr max supervisor readonly k)
unfolding create_heap kmalloc_placement
create_heap-Created fuel start end_addr max supervisor readonly k early low high room fits =
    let k₁ = (kmalloc_placement 36 0 k).2 in
    let index = place_ordered_array 0 heap_index_size (some header_t_less_than) in
    let first = start + 0x80000 in
    let n = end_addr - first in
    let m = set_header first 1 n k₁.memory in
    let heap : Heap = record {
      index = index;
      start_address = first;
      end_address = end_addr;
      max_address = max;
      supervisor = supervisor;
      readonly = readonly;
    } in
    let made : Kernel = record k₁ { memory = m; heap = heap } in
    let (none_used, compares, nothing) =
      place_ordered_array-empty heap_index_size (some header_t_less_than) in
    let slots = place_ordered_array-slots heap_index_size (some header_t_less_than) in
    let ins =
      insert_ordered_array-Inserted m first index header_t_less_than compares (omega arith)
        (omega arith) in
    let listed : contents ins.out ≡ first ∷ [] =
      ins.entries
      ∙ ap (insert_before (λ x. header_t_less_than m x first) first) nothing
      ∙ insert_before-nil m first in
    let behind : add32 start (4 * heap_index_size) ≡ first = omega arith in
    let even : (first % 2 == 0) ≡ true = eq→eqb (first % 2) 0 (omega arith) in
    let size : sub32 end_addr first ≡ n = omega arith in
    let block = IsBlock-hole k₁.memory first n (omega arith) (omega arith) in
    let t₁ = eq→eqb (start % 4096) 0 low in
    let t₂ = eq→eqb (end_addr % 4096) 0 high in
    record {
      after = set_index ins.out made;
      returns =
          rw (kmalloc-placed fuel 36 k early, t₁, t₂, behind, even, size)
            (insert_in_index-ok first made ins.returns);
      starts = refl;
      ends = refl;
      same_pages = refl;
      same_directory = refl;
      placed = refl;
      sound = record {
        tiles = (block, omega arith);
        below = fits;
        indexed = λ x. ap (count x) listed;
        compares = ins.same_less_than ∙ compares;
        spare_slot = omega (arith, ins.size_suc, ins.same_slots);
        small_index = omega (arith, ins.same_slots);
      };
    }
