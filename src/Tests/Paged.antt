-- ===== src/Tests/Paged.antt =====
-- A test of initialise_paging, on a kernel that ends at 0x110000.
use ahk_main.Base.{false, refl, none, [], replicate, arith}
use ahk_main.Interrupts.{Interrupts}
use ahk_main.Boot.{initialise_paging}
use ahk_main.Boot.Booted.{Booted, initialise_paging-Booted}
use ahk_main.Tests.Allocations.{booting}

abbrev quiet : Interrupts
quiet = record {
  interrupt_handlers = replicate 256 none;
  seen = false;
  tick = 0;
  monitor = record { video_memory = λ _. 0; cursor_x = 0; cursor_y = 0; sent = [] };
  cr2 = 0;
}

initialise_paging-Booted_example : Booted (initialise_paging 769 booting quiet)
initialise_paging-Booted_example =
    initialise_paging-Booted 769 booting quiet refl (omega arith) (omega arith) (omega arith)
      (omega arith)
