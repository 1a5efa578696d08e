-- ===== src/Ide/Buffers.antt =====
-- ide.c: the transfer of 32-bit words between a register of a channel and a buffer, and the wait for
-- an interrupt. The saving of the segment register `es` has no effect on the state.
use ahk_main.Base.{
  ℕ, zero, suc, ◌^◌, ◌%◌, bit_or, Option, none, some, Result, ok, ◌>>=◌, read, ◌==◌, if◌then◌else◌,
  add32,
}
use ahk_main.Memory.{load32, store32}
use ahk_main.Ide.Constants.{ata_reg_control}
use ahk_main.Ide.{Ports, Ide}
use ahk_main.Ide.Registers.{register_port, is_high, write_at}

module _ {D : Type 0} (bus : Ports D) where
  -- `quads` words, to rising addresses.
  unfoldable pub insl : ℕ → ℕ → ℕ → Ide D → Ide D
  insl reg buffer zero s = s
  insl reg buffer (suc quads) s =
      let (v, hardware) = bus.inl reg s.hardware in
      insl reg (add32 buffer 4) quads
        (record s { memory = store32 s.memory buffer v; hardware = hardware })

  unfoldable pub outsl : ℕ → ℕ → ℕ → Ide D → Ide D
  outsl reg buffer zero s = s
  outsl reg buffer (suc quads) s =
      let v = load32 s.memory buffer in
      outsl reg (add32 buffer 4) quads (record s { hardware = bus.outl reg v s.hardware })

  -- `transfer` between the port of the register and the buffer, if the register has one, between the
  -- accesses of the control register.
  unfoldable pub through_register : (ℕ → Ide D → Ide D) → ℕ → ℕ → Ide D → Result (Ide D)
  through_register transfer channel reg s = do
    c ← read s.channels channel
    let moved : Ide D → Ide D =
        λ s'. elim (register_port c reg) [ none ↦ s' | some port ↦ transfer port s' ]
    if is_high reg
        then ok (
            write_at bus c ata_reg_control c.no_intr
              (moved (write_at bus c ata_reg_control (bit_or 0x80 c.no_intr) s)))
        else ok (moved s)

  unfoldable pub ide_read_buffer : ℕ → ℕ → ℕ → ℕ → Ide D → Result (Ide D)
  ide_read_buffer channel reg buffer quads =
      through_register (λ port. insl port buffer (quads % 2 ^ 32)) channel reg

  unfoldable pub ide_write_buffer : ℕ → ℕ → ℕ → ℕ → Ide D → Result (Ide D)
  ide_write_buffer channel reg buffer quads =
      through_register (λ port. outsl port buffer (quads % 2 ^ 32)) channel reg

abbrev pub ide_irq : {D : Type 0} → Ide D → Ide D
ide_irq s = record s { irq_invoked = 1 }

-- One test of the loop of `ide_wait_irq`: the state after it, or none while it still waits.
abbrev pub ide_wait_irq : {D : Type 0} → Ide D → Option (Ide D)
ide_wait_irq s = if s.irq_invoked == 0 then none else some (record s { irq_invoked = 0 })
