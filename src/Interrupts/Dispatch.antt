-- ===== src/Interrupts/Dispatch.antt =====
-- Sequences of hardware interrupts, with the timer registered.
use mathlib.Core.List.{append_assoc}
use ahk_main.Base.{
  ℕ, ◌≤◌, ◌<◌, ◌≡◌, refl, ap, sym, ◌∙◌, false, inl, inr, Bool-cases, none, some, List, [], ◌∷◌,
  ◌++◌, Result, ok, read, get_elem?, leb, ◌==◌, if◌then◌else◌, add32, ne→eqb_false, eqb→eq, arith,
}
use ahk_main.Monitor.{
  Monitor, outb, move_cursor, scroll, wrap_line, put_char, monitor_put, monitor_write,
}
use ahk_main.Monitor.Screen.{scroll-sent}
use ahk_main.Monitor.Numbers.{monitor_write_dec-returns}
use ahk_main.Interrupts.Messages.{tick_text, newline_text}
use ahk_main.Interrupts.{
  Interrupts, timer_callback, Registers, on_tick, call_handler, irq_handler, on_monitor,
}

-- The bytes that were sent stay sent.
pub record Extends (m m' : Monitor) : Type 0 where
  pub later : List (ℕ × ℕ)
  pub bytes : m'.sent ≡ later ++ m.sent

put_char-sent : (c : ℕ) (m : Monitor) → (put_char c m).sent ≡ m.sent
unfolding put_char
put_char-sent c m = ground arith

wrap_line-sent : (m : Monitor) → (wrap_line m).sent ≡ m.sent
unfolding wrap_line
wrap_line-sent m = ground arith

move_cursor-Extends : (m : Monitor) → Extends m (move_cursor m)
unfolding move_cursor
move_cursor-Extends m = record { later = _ ∷ _ ∷ _ ∷ _ ∷ []; bytes = refl }

monitor_put-Extends : (c : ℕ) (m : Monitor) → Extends m (monitor_put c m)
unfolding monitor_put
monitor_put-Extends c m =
    let e = move_cursor-Extends (scroll (wrap_line (put_char c m))) in
    let same =
      scroll-sent (wrap_line (put_char c m)) ∙ wrap_line-sent (put_char c m) ∙ put_char-sent c m in
    record { later = e.later; bytes = e.bytes ∙ ap (λ l. e.later ++ l) same }

Extends-trans : (a b c : Monitor) → Extends a b → Extends b c → Extends a c
Extends-trans a b c p q = record {
  later = q.later ++ p.later;
  bytes = q.bytes ∙ ap (λ l. q.later ++ l) p.bytes ∙ sym (append_assoc q.later p.later a.sent);
}

monitor_write-Extends : (cs : List ℕ) (m : Monitor) → Extends m (monitor_write cs m)
unfolding monitor_write
monitor_write-Extends [] m = record { later = []; bytes = refl }
monitor_write-Extends (c ∷ cs) m = elim (Bool-cases (c == 0)) [
  | inl e ↦ rw e (record { later = []; bytes = refl })
  | inr e ↦ rw e (
      Extends-trans m (monitor_put c m) _ (monitor_put-Extends c m)
        (monitor_write-Extends cs (monitor_put c m)))
]

-- The timer is registered, and no other hardware interrupt is.
pub record IsServing (s : Interrupts) : Type 0 where
  pub timer : get_elem? s.interrupt_handlers 32 ≡ some (some timer_callback)
  pub others : (n : ℕ) → 33 ≤ n → n < 48 → get_elem? s.interrupt_handlers n ≡ some none

-- What the interrupt controllers are sent for an interrupt, the last byte first.
abbrev pub acknowledged : ℕ → List (ℕ × ℕ)
acknowledged n = if leb 40 n then (0x20, 0x20) ∷ (0xA0, 0x20) ∷ [] else (0x20, 0x20) ∷ []

abbrev pub interrupt : ℕ → Registers
interrupt n = record { int_no = n; err_code = 0 }

-- One interrupt: it is acknowledged before anything else is sent, and the tick counts the timer's.
pub record Served (n : ℕ) (s : Interrupts) (r : Result Interrupts) : Type 0 where
  pub after : Interrupts
  pub later : List (ℕ × ℕ)
  pub returns : r ≡ ok after
  pub same_handlers : after.interrupt_handlers ≡ s.interrupt_handlers
  pub counted : after.tick ≡ (if n == 32 then add32 s.tick 1 else s.tick)
  pub sent : after.monitor.sent ≡ later ++ (acknowledged n ++ s.monitor.sent)

on_tick-Served :
    (s : Interrupts)
    → (after : Interrupts) × (on_tick s ≡ ok after)
      × (after.interrupt_handlers ≡ s.interrupt_handlers)
      × (after.tick ≡ add32 s.tick 1)
      × Extends s.monitor after.monitor
unfolding on_tick
on_tick-Served s =
    let m = monitor_write tick_text s.monitor in
    let (cs, returns) = monitor_write_dec-returns (add32 s.tick 1) m in
    let m' = monitor_write cs m in
    (
      record s { tick = add32 s.tick 1; monitor = monitor_write newline_text m' },
      rw returns refl,
      refl,
      refl,
      Extends-trans s.monitor m' _
          (Extends-trans s.monitor m m' (monitor_write-Extends tick_text s.monitor)
            (monitor_write-Extends cs m))
          (monitor_write-Extends newline_text m'),
    )

timer-Served : (s : Interrupts) → IsServing s → Served 32 s (irq_handler (interrupt 32) s)
unfolding irq_handler read call_handler
timer-Served s v =
    let (after, returns, handlers, tick, x) = on_tick-Served (on_monitor (outb 0x20 0x20) s) in
    rw v.timer (record {
      after = after;
      later = x.later;
      returns = returns;
      same_handlers = handlers;
      counted = tick;
      sent = x.bytes;
    })

-- The state in which the handler is looked up.
abbrev with_acknowledged : ℕ → Interrupts → Interrupts
with_acknowledged n s =
    on_monitor (outb 0x20 0x20) (if leb 40 n then on_monitor (outb 0xA0 0x20) s else s)

with_acknowledged-same :
    (n : ℕ) (s : Interrupts)
    → ((with_acknowledged n s).interrupt_handlers ≡ s.interrupt_handlers)
      × ((with_acknowledged n s).tick ≡ s.tick)
      × ((with_acknowledged n s).monitor.sent ≡ acknowledged n ++ s.monitor.sent)
with_acknowledged-same n s = elim (Bool-cases (leb 40 n)) [
  | inl e ↦ rw e (refl, refl, refl)
  | inr e ↦ rw e (refl, refl, refl)
]

other-Served :
    (n : ℕ) (s : Interrupts)
    → IsServing s
    → 33 ≤ n
    → n < 48
    → Served n s (irq_handler (interrupt n) s)
unfolding irq_handler read
other-Served n s v low high =
    let silent : (n == 32) ≡ false = ne→eqb_false n 32 (omega arith) in
    let (handlers, tick, sent) = with_acknowledged-same n s in
    let unused : get_elem? (with_acknowledged n s).interrupt_handlers n ≡ some none =
      ap (λ hs. get_elem? hs n) handlers ∙ v.others n low high in
    rw unused (record {
      after = with_acknowledged n s;
      later = [];
      returns = refl;
      same_handlers = handlers;
      counted = rw silent tick;
      sent = sent;
    })

pub irq_handler-Served :
    (n : ℕ) (s : Interrupts)
    → IsServing s
    → 32 ≤ n
    → n < 48
    → Served n s (irq_handler (interrupt n) s)
irq_handler-Served n s v low high = elim (Bool-cases (n == 32)) [
  | inl e ↦ rw (eqb→eq n 32 e) (timer-Served s v)
  | inr e ↦ other-Served n s v (grind arith) high
]
