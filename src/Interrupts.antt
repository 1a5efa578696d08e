-- ===== src/Interrupts.antt =====
-- isr.c, isr.h, timer.c and the handler of paging.c: the dispatch of interrupts. A pointer to a handler
-- is one of the two functions that the kernel registers, or null.
pub mod Messages
pub mod Dispatch
pub mod Sequences
use ahk_main.Base.{
  ℕ, ◌+◌, ◌/◌, ◌%◌, ◌^◌, bit_and, Bool, true, false, not, Option, none, some, List, [], ◌∷◌, Result,
  ok, panic, fault, ◌>>=◌, read, write, leb, ◌==◌, if◌then◌else◌, u8, u32, add32, replicate,
}
use ahk_main.Monitor.{
  Monitor, outb, monitor_put, monitor_write, monitor_write_dec, monitor_write_hex,
}
use ahk_main.Descriptors.{Tables, init_gdt, init_idt}
use ahk_main.Interrupts.Messages.{
  unhandled_text, invalid_opcode_text, tick_text, newline_text, page_fault_text, present_text,
  read_only_text, user_mode_text, reserved_text, at_text,
}

-- `registers_t`: the fields that the handlers read.
pub record Registers : Type 0 where
  pub int_no : ℕ
  pub err_code : ℕ

pub data Handler : Type 0 where
  timer_callback page_fault : Handler

-- The global variables of isr.c and timer.c, the monitor, and the register cr2. `seen` is the flag for
-- interrupt 6.
pub record Interrupts : Type 0 where
  pub interrupt_handlers : List (Option Handler)
  pub seen : Bool
  pub tick : ℕ
  pub monitor : Monitor
  pub cr2 : ℕ

abbrev pub on_monitor : (Monitor → Monitor) → Interrupts → Interrupts
on_monitor f s = record s { monitor = f s.monitor }

unfoldable pub register_interrupt_handler : ℕ → Handler → Interrupts → Result Interrupts
register_interrupt_handler n handler s = do
  handlers ← write s.interrupt_handlers n (some handler)
  ok (record s { interrupt_handlers = handlers })

unfoldable pub on_tick : Interrupts → Result Interrupts
on_tick s = do
  let tick = add32 s.tick 1
  monitor ← monitor_write_dec tick (monitor_write tick_text s.monitor)
  ok (record s { tick = tick; monitor = monitor_write newline_text monitor })

-- `if (...) {monitor_write(...);}`
abbrev pub say_if : Bool → List ℕ → Monitor → Monitor
say_if b text m = if b then monitor_write text m else m

-- What `page_fault` prints before it panics.
unfoldable pub page_fault_report : ℕ → ℕ → Monitor → Monitor
page_fault_report faulting_address err_code m = monitor_write newline_text (
    monitor_write_hex faulting_address (
      monitor_write at_text (
        say_if (not (bit_and err_code 0x8 == 0)) reserved_text (
          say_if (not (bit_and err_code 0x4 == 0)) user_mode_text (
            say_if (not (bit_and err_code 0x2 == 0)) read_only_text (
              say_if (bit_and err_code 0x1 == 0) present_text
                (monitor_write page_fault_text m)))))))

-- The call of a handler. The page fault handler stops the machine.
unfoldable pub call_handler : Handler → Registers → Interrupts → Result Interrupts
call_handler timer_callback regs s = on_tick s
call_handler page_fault regs s = panic

-- What `isr_handler` does where no handler is registered.
unfoldable pub unhandled : Registers → Interrupts → Result Interrupts
unhandled regs s =
    let reported = (do
      monitor ← monitor_write_dec regs.int_no (monitor_write unhandled_text s.monitor)
      ok (record s { monitor = monitor_put 10 monitor })) in
    let quiet = if s.seen then s else on_monitor (monitor_write invalid_opcode_text) s in
    if regs.int_no == 6 then ok (record quiet { seen = true }) else reported

unfoldable pub isr_handler : Registers → Interrupts → Result Interrupts
isr_handler regs s = do
  handler ← read s.interrupt_handlers regs.int_no
  elim handler [ none ↦ unhandled regs s | some h ↦ call_handler h regs s ]

-- The end of the interrupt is sent before the handler is called.
unfoldable pub irq_handler : Registers → Interrupts → Result Interrupts
irq_handler regs s = do
  let slave = if leb 40 regs.int_no then on_monitor (outb 0xA0 0x20) s else s
  let sent = on_monitor (outb 0x20 0x20) slave
  handler ← read sent.interrupt_handlers regs.int_no
  elim handler [ none ↦ ok sent | some h ↦ call_handler h regs sent ]

-- A division by 0 is undefined.
unfoldable pub init_timer : ℕ → Interrupts → Result Interrupts
init_timer frequency s = do
  s ← register_interrupt_handler 32 timer_callback s
  let divisor = 1193180 / frequency
  let programmed =
      on_monitor (λ m. outb 0x40 (u8 (divisor / 2 ^ 8)) (outb 0x40 (u8 divisor) (outb 0x43 0x36 m)))
        s
  if frequency == 0 then fault else ok programmed

-- `stub`, `gdt_address` and `idt_address` are those of `init_gdt` and `init_idt`. The last step is the
-- `memset` of the handlers.
unfoldable pub init_descriptor_tables :
    (ℕ → ℕ) → ℕ → ℕ → Tables → Interrupts → Result (Tables × Interrupts)
init_descriptor_tables stub gdt_address idt_address t s = do
  t ← init_gdt gdt_address t
  (t, monitor) ← init_idt stub idt_address t s.monitor
  ok (t, record s { monitor = monitor; interrupt_handlers = replicate 256 none })
