-- ===== src/Tests/Frames.antt =====
-- Tests of the frames of paging.c on a bitset of two words.
use ahk_main.Base.{ℕ, ◌*◌, ◌/◌, ◌≡◌, refl, false, some, none, List, [], ◌∷◌, ok, read, arith}
use ahk_main.Base.Bits.{bit}
use ahk_main.Kernel.{Page, PagePointer, Kernel, zero_page}
use ahk_main.Paging.{first_frame, alloc_frame, free_frame}
use ahk_main.Paging.Bitset.{frame_bit}
use ahk_main.Paging.Frames.{
  FirstFree, first_frame-FirstFree, Mapped, alloc_frame-Mapped, free_frame_leaks,
}

-- Frames 0 to 32 and frame 34 are used.
abbrev words : List ℕ
words = 0xFFFFFFFF ∷ 5 ∷ []

abbrev kernel : Page → Kernel
kernel page = record {
  memory = λ _. 0;
  placement_address = 0;
  kheap_ready = false;
  heap = record {
    index = record { array = []; size = 0; max_size = 0; less_than = none };
    start_address = 0;
    end_address = 0;
    max_address = 0;
    supervisor = 0;
    readonly = 0;
  };
  frames = words;
  nframes = 64;
  kernel_directory = record { tables = λ _. 0; tables_physical = λ _. 0 };
  pages = λ _ _. page;
}

abbrev here : PagePointer
here = record { table = 8192; index = 3 }

abbrev mapped_page : Page
mapped_page = record zero_page { frame = 34; present = 1 }

first_frame-FirstFree_example : FirstFree 0 (64 / 32 * 32) words (first_frame 64 words)
first_frame-FirstFree_example = first_frame-FirstFree words 64 (omega arith)

first_of_words : first_frame 64 words ≡ ok 33
unfolding first_frame read
first_of_words = refl

alloc_frame-Mapped_example :
    Mapped here 33 0 1 (kernel zero_page) (alloc_frame (some here) 0 1 (kernel zero_page))
alloc_frame-Mapped_example =
    alloc_frame-Mapped here 33 0 1 (kernel zero_page) refl first_of_words (omega arith)
      (omega arith)

in_use : frame_bit words 34 ≡ 1
unfolding bit
in_use = refl

free_frame_leaks_example :
    (k : Kernel) × (free_frame (some here) (kernel mapped_page) ≡ ok k)
    × (frame_bit k.frames 34 ≡ 1)
free_frame_leaks_example =
    free_frame_leaks here (kernel mapped_page) (omega arith) (omega arith) in_use
