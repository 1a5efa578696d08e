-- ===== src/Descriptors.antt =====
-- descriptor_tables.c and descriptor_tables.h: the global and the interrupt descriptor table. The
-- addresses of the tables and of the assembly stubs are parameters; `lgdt` and `lidt` are not modelled.
pub mod Gates
pub mod Vectors
use ahk_main.Base.{
  ℕ, zero, suc, ◌+◌, ◌-◌, ◌*◌, ◌/◌, ◌%◌, ◌^◌, bit_and, bit_or, List, [], ◌∷◌, Result, ok, ◌>>=◌,
  write, replicate, u8,
}
use ahk_main.Monitor.{Monitor, outb}

-- `gdt_entry_t`
pub record GdtEntry : Type 0 where
  pub limit_low : ℕ
  pub base_low : ℕ
  pub base_middle : ℕ
  pub access : ℕ
  pub granularity : ℕ
  pub base_high : ℕ

-- `gdt_ptr_t` and `idt_ptr_t`
pub record TablePointer : Type 0 where
  pub limit : ℕ
  pub base : ℕ

-- `idt_entry_t`
pub record IdtEntry : Type 0 where
  pub base_lo : ℕ
  pub sel : ℕ
  pub always0 : ℕ
  pub flags : ℕ
  pub base_hi : ℕ

-- The global variables.
pub record Tables : Type 0 where
  pub gdt_entries : List GdtEntry
  pub gdt_ptr : TablePointer
  pub idt_entries : List IdtEntry
  pub idt_ptr : TablePointer

abbrev pub gdt_entry : ℕ → ℕ → ℕ → ℕ → GdtEntry
gdt_entry base limit access gran = record {
  limit_low = limit % 2 ^ 16;
  base_low = base % 2 ^ 16;
  base_middle = base / 2 ^ 16 % 2 ^ 8;
  access = u8 access;
  granularity = bit_or (limit / 2 ^ 16 % 2 ^ 4) (bit_and gran 0xF0);
  base_high = base / 2 ^ 24 % 2 ^ 8;
}

unfoldable pub gdt_set_gate : ℕ → ℕ → ℕ → ℕ → ℕ → List GdtEntry → Result (List GdtEntry)
gdt_set_gate num base limit access gran entries =
    write entries num (gdt_entry base limit access gran)

-- `gdt_address` is `&gdt_entries`; 8 is `sizeof(gdt_entry_t)`.
unfoldable pub init_gdt : ℕ → Tables → Result Tables
init_gdt gdt_address t = do
  e ← gdt_set_gate 0 0 0 0 0 t.gdt_entries
  e ← gdt_set_gate 1 0 0xFFFFFFFF 0x9A 0xCF e
  e ← gdt_set_gate 2 0 0xFFFFFFFF 0x92 0xCF e
  e ← gdt_set_gate 3 0 0xFFFFFFFF 0xFA 0xCF e
  e ← gdt_set_gate 4 0 0xFFFFFFFF 0xF2 0xCF e
  ok (record t { gdt_entries = e; gdt_ptr = record { limit = 8 * 5 - 1; base = gdt_address } })

abbrev pub idt_entry : ℕ → ℕ → ℕ → IdtEntry
idt_entry base sel flags = record {
  base_lo = base % 2 ^ 16;
  sel = sel % 2 ^ 16;
  always0 = 0;
  flags = u8 flags;
  base_hi = base / 2 ^ 16 % 2 ^ 16;
}

abbrev pub zero_gate : IdtEntry
zero_gate = record { base_lo = 0; sel = 0; always0 = 0; flags = 0; base_hi = 0 }

unfoldable pub idt_set_gate : ℕ → ℕ → ℕ → ℕ → List IdtEntry → Result (List IdtEntry)
idt_set_gate num base sel flags entries = write entries num (idt_entry base sel flags)

-- The lines for the gates from `num` on. `stub` gives the addresses of isr0 to isr31 and, from 32 on,
-- of irq0 to irq15.
unfoldable pub set_gates : (ℕ → ℕ) → ℕ → ℕ → List IdtEntry → Result (List IdtEntry)
set_gates stub zero num entries = ok entries
set_gates stub (suc rounds) num entries =
    idt_set_gate num (stub num) 0x08 0x8E entries >>= set_gates stub rounds (suc num)

-- The bytes that move the interrupts of the two controllers to the vectors from 32 on.
unfoldable pub remap_irqs : Monitor → Monitor
remap_irqs s = outb 0xA1 0x0 (
    outb 0x21 0x0 (
      outb 0xA1 0x01 (
        outb 0x21 0x01 (
          outb 0xA1 0x02 (
            outb 0x21 0x04
              (outb 0xA1 0x28 (outb 0x21 0x20 (outb 0xA0 0x11 (outb 0x20 0x11 s)))))))))

-- 8 is `sizeof(idt_entry_t)`.
unfoldable pub init_idt : (ℕ → ℕ) → ℕ → Tables → Monitor → Result (Tables × Monitor)
init_idt stub idt_address t s = do
  entries ← set_gates stub 48 0 (replicate 256 zero_gate)
  ok (
    record t {
      idt_entries = entries;
      idt_ptr = record { limit = 8 * 256 - 1; base = idt_address };
    },
    remap_irqs s,
  )
