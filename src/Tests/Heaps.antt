-- ===== src/Tests/Heaps.antt =====
-- Tests of the heap of kheap.c, on heaps of a few blocks.
use ahk_main.Base.{
  ◌↔◌, ◌⊎◌, ◌%◌, ◌≤◌, ℕ, ◌+◌, ◌<◌, ◌-◌, ◌≤◌, ◌≡◌, refl, ap, Bool, true, false, ◌++◌, some, List, [],
  ◌∷◌, ok, arith,
}
use ahk_main.Memory.{Memory, load32, store8, store32}
use ahk_main.Kernel.{Kernel, zero_page}
use ahk_main.Kheap.Layout.{header_t_less_than, set_header, set_footer}
use ahk_main.Kheap.Alloc.{alloc, physical}
use ahk_main.Kheap.Free.{free}
use ahk_main.Kheap.Blocks.{Block, hole, used, flag, HasFooter}
use ahk_main.Kheap.Cut.{write-IsBlock}
use ahk_main.Kheap.Invariant.{Inv, Allocated}
use ahk_main.Kheap.Allocates.{alloc-Allocated}
use ahk_main.Kheap.Stages.{joined}
use ahk_main.Kheap.Frees.{free-Inv}
use ahk_main.Kheap.RoundTrip.{IsFenced, GivenBack, free-alloc}
use ahk_main.Kheap.Holes.{find_smallest_hole}
use ahk_main.Kheap.Resize.{round_up, contracted_size}
use ahk_main.Kheap.Sizes.{round_up-aligned, contracted_size-bounds, physical-offset}
use ahk_main.Kheap.Checks.{Smallest, find_smallest_hole-Smallest}
use ahk_main.OrderedArray.Contents.{contents}
use ahk_main.OrderedArray.Sorted.{IsSorted}

abbrev put : ℕ → Block → Memory → Memory
put a b m = set_footer (a + b.size - 8) a (set_header a (flag b.is_hole) b.size m)

abbrev empty_memory : Memory
empty_memory x = 0

abbrev kernel : Memory → List ℕ → ℕ → ℕ → Kernel
kernel m array size end = record {
  memory = m;
  placement_address = 0;
  kheap_ready = true;
  heap = record {
    index = record {
      array = array;
      size = size;
      max_size = 4;
      less_than = some header_t_less_than;
    };
    start_address = 4096;
    end_address = end;
    max_address = 65536;
    supervisor = 0;
    readonly = 0;
  };
  frames = [];
  nframes = 0;
  kernel_directory = record { tables = λ _. 0; tables_physical = λ _. 0 };
  pages = λ _ _. zero_page;
}

abbrev one_hole : Kernel
one_hole = kernel (put 4096 (hole 200) empty_memory) (4096 ∷ 0 ∷ 0 ∷ []) 1 4296

one_hole-Inv : Inv one_hole (hole 200 ∷ [])
one_hole-Inv = record {
  tiles = (write-IsBlock empty_memory 4096 (hole 200) (omega arith) (omega arith), refl);
  below = omega arith;
  indexed = λ x. refl;
  compares = refl;
  spare_slot = omega arith;
  small_index = omega arith;
}

alloc-Allocated_example : Allocated 50 one_hole (hole 200 ∷ []) (alloc 3 50 0 one_hole)
alloc-Allocated_example = alloc-Allocated 2 50 one_hole [] 200 [] one_hole-Inv (omega arith)

abbrev four_blocks : Kernel
four_blocks =
    kernel
      (put 4096 (hole 40)
        (put 4136 (used 40) (put 4176 (hole 40) (put 4216 (used 80) empty_memory))))
      (4096 ∷ 4176 ∷ 0 ∷ 0 ∷ []) 2 4296

first_footer : HasFooter four_blocks.memory 4096 40
unfolding load32 store8 store32 set_header set_footer
first_footer = record { magic = refl; header = refl }

four_blocks-Inv : Inv four_blocks (hole 40 ∷ used 40 ∷ hole 40 ∷ used 80 ∷ [])
unfolding load32 store8 store32 set_header set_footer
four_blocks-Inv = record {
  tiles = (
    record {
      room = omega arith;
      magic = refl;
      kind = refl;
      size = refl;
      footer = λ _. record { magic = refl; header = refl };
    },
    (
      record {
        room = omega arith;
        magic = refl;
        kind = refl;
        size = refl;
        footer = λ _. record { magic = refl; header = refl };
      },
      (
        record {
          room = omega arith;
          magic = refl;
          kind = refl;
          size = refl;
          footer = λ _. record { magic = refl; header = refl };
        },
        (
          record {
            room = omega arith;
            magic = refl;
            kind = refl;
            size = refl;
            footer = λ _. record { magic = refl; header = refl };
          },
          refl,
        ),
      ),
    ),
  );
  below = omega arith;
  indexed = λ x. refl;
  compares = refl;
  spare_slot = omega arith;
  small_index = omega arith;
}

free-Inv_example :
    (k : Kernel) × (free (4136 + 12) four_blocks ≡ ok k)
    × Inv k (joined [] (hole 40) 40 (hole 40) (used 80 ∷ []))
    × HasFooter k.memory 4096 80
    × ((x : ℕ) → (x < 4096) ⊎ (4176 ≤ x) → k.memory x ≡ four_blocks.memory x)
free-Inv_example =
    free-Inv four_blocks [] (hole 40) (hole 40) 40 (used 80 ∷ []) four_blocks-Inv first_footer
      (omega arith) (omega arith)

four_blocks-IsSorted :
    IsSorted (header_t_less_than four_blocks.memory) (contents four_blocks.heap.index)
unfolding load32 store8 store32 set_header set_footer
four_blocks-IsSorted = ((refl, tt), (tt, tt))

find_smallest_hole-Smallest_example : Smallest 30 four_blocks (find_smallest_hole 30 0 four_blocks)
find_smallest_hole-Smallest_example =
    find_smallest_hole-Smallest 30 four_blocks four_blocks-IsSorted (omega arith)

round_up-aligned_example :
    (5002 ≤ round_up 5002)
    × (round_up 5002 ≤ 9098)
    × ((round_up 5002 % 4096 ≡ 0) ↔ ((◌≡◌ {A = ℕ} 0 1) ⊎ (◌≡◌ {A = ℕ} 906 0)))
round_up-aligned_example = round_up-aligned 5002 (omega arith)

contracted_size-bounds_example :
    (0x70000 ≤ contracted_size 0x81000) × (contracted_size 0x81000 ≡ 0x70000)
contracted_size-bounds_example = contracted_size-bounds 0x81000

physical-offset_example :
    physical (some (record { table = 8192; index = 3 })) 12301 one_hole ≡ ok 13
physical-offset_example =
    physical-offset (record { table = 8192; index = 3 }) 12301 one_hole (omega arith)

abbrev spaced : Kernel
spaced =
    kernel (put 4096 (used 40) (put 4136 (hole 200) (put 4336 (used 80) empty_memory)))
      (4136 ∷ 0 ∷ 0 ∷ []) 1 4416

spaced-Inv : Inv spaced (used 40 ∷ hole 200 ∷ used 80 ∷ [])
unfolding load32 store8 store32 set_header set_footer
spaced-Inv = record {
  tiles = (
    record {
      room = omega arith;
      magic = refl;
      kind = refl;
      size = refl;
      footer = λ _. record { magic = refl; header = refl };
    },
    (
      record {
        room = omega arith;
        magic = refl;
        kind = refl;
        size = refl;
        footer = λ _. record { magic = refl; header = refl };
      },
      (
        record {
          room = omega arith;
          magic = refl;
          kind = refl;
          size = refl;
          footer = λ _. record { magic = refl; header = refl };
        },
        refl,
      ),
    ),
  );
  below = omega arith;
  indexed = λ x. refl;
  compares = refl;
  spare_slot = omega arith;
  small_index = omega arith;
}

first_is_hole : List Block → Bool
first_is_hole [] = false
first_is_hole (b ∷ bs) = b.is_hole

fence :
    (front : List Block) (n : ℕ) (back : List Block)
    → used 40 ∷ hole 200 ∷ used 80 ∷ [] ≡ front ++ (hole n ∷ back)
    → (xs : List Block) × (s : ℕ) × (t : ℕ) × (ys : List Block) × (front ≡ xs ++ (used s ∷ []))
      × (back ≡ used t ∷ ys)
unfolding first_is_hole
fence [] n back e = cc (ap first_is_hole e)
fence (b ∷ []) n back e = ([], 40, 80, [], cc, cc)
fence (b ∷ c ∷ []) n back e =
    let tails : used 80 ∷ [] ≡ hole n ∷ back = cc in cc (ap first_is_hole tails)
fence (b ∷ c ∷ d ∷ []) n back e = cc
fence (b ∷ c ∷ d ∷ f ∷ front) n back e = cc

spaced-IsFenced : IsFenced (used 40 ∷ hole 200 ∷ used 80 ∷ [])
spaced-IsFenced = record { between = fence }

free-alloc_example :
    (p : ℕ) × (k' : Kernel) × (k'' : Kernel) × (alloc 3 50 0 spaced ≡ ok (p, k'))
    × (free p k' ≡ ok k'')
    × GivenBack 50 p spaced k'' (used 40 ∷ hole 200 ∷ used 80 ∷ [])
free-alloc_example =
    free-alloc 2 50 spaced (used 40 ∷ []) 200 (used 80 ∷ []) spaced-Inv (omega arith)
      spaced-IsFenced (omega arith)
