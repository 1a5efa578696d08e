-- ===== src/Kheap.antt =====
-- kheap.h and kheap.c: the kernel's heap. A heap is a run of blocks, each with a header and a footer
-- around its data, and an index of the blocks that are holes.
-- Sizes and addresses are u32int. `alloc` calls itself after growing the heap, and growing the heap
-- can call `alloc` for a page table; the calls run on fuel.
pub mod Layout
pub mod Holes
pub mod Resize
pub mod Alloc
pub mod Free
pub mod Fields
pub mod Blocks
pub mod Cut
pub mod Index
pub mod Invariant
pub mod Carve
pub mod Taken
pub mod Allocates
pub mod Pending
pub mod Unify
pub mod Stages
pub mod Frees
pub mod RoundTrip
pub mod Creates
pub mod Regions
pub mod Sequences
pub mod Sizes
pub mod Checks
