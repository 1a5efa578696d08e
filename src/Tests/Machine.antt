-- ===== src/Tests/Machine.antt =====
-- Tests of descriptor_tables.c, isr.c and timer.c.
use ahk_main.Base.{ℕ, false, ◌+◌, ◌*◌, ◌%◌, ◌^◌, ◌≡◌, refl, [], ◌∷◌, ok, replicate, arith}
use ahk_main.Monitor.{Monitor}
use ahk_main.Descriptors.{GdtEntry, Tables, gdt_set_gate, init_idt}
use ahk_main.Descriptors.Gates.{Encoded, gdt_set_gate-Encoded}
use ahk_main.Descriptors.Vectors.{Installed, init_idt-Installed}
use ahk_main.Interrupts.{Interrupts, init_timer, init_descriptor_tables}
use ahk_main.Interrupts.Sequences.{serve, Acknowledged, no_line, line, serve-init_timer}

abbrev empty_gate : GdtEntry
empty_gate = record {
  limit_low = 0;
  base_low = 0;
  base_middle = 0;
  access = 0;
  granularity = 0;
  base_high = 0;
}

gdt_set_gate-Encoded_example :
    Encoded 1 0x12345678 0xFFFFFFFF 0x9A 0xCF
      (replicate 5 empty_gate)
      (gdt_set_gate 1 0x12345678 0xFFFFFFFF 0x9A 0xCF (replicate 5 empty_gate))
gdt_set_gate-Encoded_example =
    gdt_set_gate-Encoded 1 0x12345678 0xFFFFFFFF 0x9A 0xCF (replicate 5 empty_gate) (omega arith)
      (omega arith) (omega arith) (omega arith) (omega arith)

abbrev screen : Monitor
screen = record { video_memory = λ _. 0; cursor_x = 0; cursor_y = 0; sent = [] }

abbrev tables : Tables
tables = record {
  gdt_entries = replicate 5 empty_gate;
  gdt_ptr = record { limit = 0; base = 0 };
  idt_entries = [];
  idt_ptr = record { limit = 0; base = 0 };
}

abbrev stubs : ℕ → ℕ
stubs j = (0x100000 + 16 * j) % 2 ^ 32

init_idt-Installed_example : Installed stubs 0x5000 tables (init_idt stubs 0x5000 tables screen)
init_idt-Installed_example = init_idt-Installed stubs 0x5000 tables screen (λ j. omega arith)

abbrev booting : Interrupts
booting = record { interrupt_handlers = []; seen = false; tick = 7; monitor = screen; cr2 = 0 }

serve-init_timer_example :
    (t' : Tables) × (tabled : Interrupts) × (timed : Interrupts) × (served : Interrupts)
    × (init_descriptor_tables stubs 0x4000 0x5000 tables booting ≡ ok (t', tabled))
    × (init_timer 50 tabled ≡ ok timed)
    × (serve (32 ∷ 46 ∷ 32 ∷ []) timed ≡ ok served)
    × (served.tick ≡ 9)
    × Acknowledged (32 ∷ 46 ∷ 32 ∷ []) timed.monitor.sent served.monitor.sent
serve-init_timer_example =
    serve-init_timer stubs 0x4000 0x5000 50 (32 ∷ 46 ∷ 32 ∷ []) tables booting (λ j. omega arith)
      refl (λ e. omega arith) (omega arith)
      (line (omega arith) (omega arith)
        (line (omega arith) (omega arith) (line (omega arith) (omega arith) no_line)))
