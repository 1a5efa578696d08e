-- ===== src/Kheap/Allocates.antt =====
-- `alloc` takes its block from a hole of the index, and the heap stays sound.
use ahk_main.Base.{
  ℕ, suc, ◌+◌, ◌^◌, ◌≤◌, ◌<◌, ◌≡◌, refl, sym, subst, ◌∙◌, true, some, List, ◌∷◌, ◌++◌, ok, leb,
  leb→le, le→leb, u32, length, arith,
}
use ahk_main.Memory.{Memory}
use ahk_main.OrderedArray.Contents.{contents}
use ahk_main.Kernel.{Kernel}
use ahk_main.Kheap.Layout.{header_block_size}
use ahk_main.Kheap.Holes.{find_smallest_hole, hole_fits, alloc_in}
use ahk_main.Kheap.Alloc.{alloc}
use ahk_main.Kheap.Blocks.{
  Block, hole, Tiles, Tiles-split, Tiles-end, count, count-holes-append, total, find_hole,
}
use ahk_main.Kheap.Index.{
  entry, count_pos, get_or-take, place_of, Search, missed, found, find_from-Search_all,
}
use ahk_main.Kheap.Invariant.{Inv, Allocated}
use ahk_main.Kheap.Taken.{length-take_full, alloc_in-Allocated}

alloc-found :
    (fuel size i : ℕ) (k : Kernel)
    → size + 20 < 2 ^ 32
    → find_smallest_hole (size + 20) 0 k ≡ ok (some i)
    → alloc (suc fuel) size 0 k ≡ alloc_in i size 0 k
unfolding alloc
alloc-found fuel size i k fits e =
    let asked : u32 (size + 12 + 8) ≡ size + 20 = omega arith in rw (asked, e)

fits_iff_le :
    (size header : ℕ) (m : Memory)
    → hole_fits size 0 m header ≡ leb size (header_block_size m header)
unfolding hole_fits
fits_iff_le size header m = refl

module _ (fuel size : ℕ) (k : Kernel) (xs : List Block) (big : ℕ) (ys : List Block)
    (inv : Inv k (xs ++ (hole big ∷ ys))) (fits : size + 20 ≤ big) where
  abbrev bs : List Block
  bs = xs ++ (hole big ∷ ys)

  full : length (contents k.heap.index) ≡ k.heap.index.size
  full = length-take_full k.heap.index.size k.heap.index.array (omega (arith, inv.spare_slot))

  -- The block of the tiling behind some others.
  block_behind :
      (front : List Block) (n : ℕ) (back : List Block)
      → Inv k (front ++ (hole n ∷ back))
      → Tiles k.memory (k.heap.start_address + total front) (hole n ∷ back) k.heap.end_address
  block_behind front n back v =
      (Tiles-split k.memory k.heap.start_address front (hole n ∷ back) k.heap.end_address v.tiles).1

  cut_at :
      (i : ℕ)
      → i < k.heap.index.size
      → hole_fits (size + 20) 0 k.memory (entry k.heap.index i) ≡ true
      → Allocated size k bs (alloc_in i size 0 k)
  cut_at i listed t =
      let here = get_or-take k.heap.index.size k.heap.index.array i listed in
      let c = rw here at (count_pos (contents k.heap.index) i (omega (arith, full))) in
      let (front, n, back, was, at) =
        find_hole (entry k.heap.index i) k.heap.start_address bs
          (omega (arith, c, inv.indexed (entry k.heap.index i))) in
      let inv' : Inv k (front ++ (hole n ∷ back)) = subst (λ l. Inv k l) was inv in
      let sized = (block_behind front n back inv').0.size in
      let t' = rw fits_iff_le at t in
      let enough = leb→le (size + 20) n (rw sized at (rw at at t')) in
      subst (λ l. Allocated size k l (alloc_in i size 0 k)) (sym was)
        (alloc_in-Allocated k size i n front back inv' listed at enough)

  listed_hole :
      (j : ℕ) × (j < k.heap.index.size)
      × (hole_fits (size + 20) 0 k.memory (entry k.heap.index j) ≡ true)
  listed_hole =
      let a : ℕ = k.heap.start_address + total xs in
      let c : 0 < count a (contents k.heap.index) =
        ground
          (arith, inv.indexed a, count-holes-append a k.heap.start_address xs (hole big ∷ ys)) in
      let (j, inside, e) = place_of (contents k.heap.index) a c in
      let listed : j < k.heap.index.size = omega (arith, full) in
      let here : entry k.heap.index j ≡ a =
        sym (get_or-take k.heap.index.size k.heap.index.array j listed) ∙ e in
      let sized = (block_behind xs big ys inv).0.size in
      (j, listed, rw (fits_iff_le, here, sized) (le→leb (size + 20) big fits))

  small : size + 20 < 2 ^ 32
  small = omega (
    arith,
    inv.below,
    Tiles-end k.memory (k.heap.start_address + total xs) (hole big ∷ ys)
        (block_behind xs big ys inv),
  )

  after-Search :
      Search k.heap.index (hole_fits (size + 20) 0 k.memory) 0 (find_smallest_hole (size + 20) 0 k)
      → Allocated size k bs (alloc (suc fuel) size 0 k)
  after-Search (missed e none_fit) =
      let (j, listed, t) = listed_hole in absurd (cc (none_fit j (omega arith) listed, t))
  after-Search (found i e from listed t before) =
      rw (alloc-found fuel size i k small e) (cut_at i listed t)

  -- `alloc` without page alignment, on a sound heap that has a hole of at least `size + 20` bytes,
  -- returns a pointer behind the header of a block that was cut from one of the holes. The heap stays
  -- sound with that one hole cut, a rest that is split off has its footer, and no byte outside that
  -- hole changes.
  pub alloc-Allocated : Allocated size k bs (alloc (suc fuel) size 0 k)
  unfolding find_smallest_hole
  alloc-Allocated = after-Search (
      find_from-Search_all k.heap.index (hole_fits (size + 20) 0 k.memory)
        (omega (arith, inv.spare_slot)))
