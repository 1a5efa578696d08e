-- ===== src/Interrupts/Sequences.antt =====
-- The hardware interrupts that arrive after `init_timer`, one after the other.
use ahk_main.Base.{
  ℕ, ◌+◌, ◌%◌, ◌^◌, ◌≤◌, ◌<◌, ◌≡◌, ◌≢◌, refl, ap, subst, ◌∙◌, Option, none, some, List, [], ◌∷◌,
  ◌++◌, Result, ok, ◌>>=◌, get_elem?, get_or, ◌==◌, if◌then◌else◌, add32, u8, ◌/◌, length,
  replicate, set, length-set, length-replicate, get_or-replicate, get_elem?-eq-get_or,
  get_or-set_ne, ne→eqb_false, write, arith,
}
use ahk_main.Monitor.{outb}
use ahk_main.Descriptors.{Tables}
use ahk_main.Descriptors.Gates.{init_gdt-returns}
use ahk_main.Descriptors.Vectors.{init_idt-Installed}
use ahk_main.Interrupts.{
  Interrupts, Handler, timer_callback, register_interrupt_handler, irq_handler, init_timer,
  init_descriptor_tables,
}
use ahk_main.Interrupts.Dispatch.{IsServing, irq_handler-Served, interrupt, acknowledged}

-- Every interrupt of the list is handled, the first one first.
unfoldable pub serve : List ℕ → Interrupts → Result Interrupts
serve [] s = ok s
serve (n ∷ ns) s = irq_handler (interrupt n) s >>= serve ns

-- The numbers of the 16 lines of the controllers, as the kernel maps them.
pub data AreLines : List ℕ → Type 0 where
  no_line : AreLines []
  line : {n : ℕ} {ns : List ℕ} → 32 ≤ n → n < 48 → AreLines ns → AreLines (n ∷ ns)

abbrev pub timer_ticks : List ℕ → ℕ
timer_ticks [] = 0
timer_ticks (n ∷ ns) = (if n == 32 then 1 else 0) + timer_ticks ns

-- `Acknowledged ns sent sent'`: from `sent` to `sent'` each interrupt is acknowledged, in their order.
pub data Acknowledged : List ℕ → List (ℕ × ℕ) → List (ℕ × ℕ) → Type 0 where
  no_more : {sent : List (ℕ × ℕ)} → Acknowledged [] sent sent
  acknowledge :
      {n : ℕ} {ns : List ℕ} {sent sent' : List (ℕ × ℕ)} (later : List (ℕ × ℕ))
      → Acknowledged ns (later ++ (acknowledged n ++ sent)) sent'
      → Acknowledged (n ∷ ns) sent sent'

IsServing-same :
    (s s' : Interrupts) → s'.interrupt_handlers ≡ s.interrupt_handlers → IsServing s → IsServing s'
IsServing-same s s' same v = record {
  timer = ap (λ hs. get_elem? hs 32) same ∙ v.timer;
  others = λ n low high. ap (λ hs. get_elem? hs n) same ∙ v.others n low high;
}

-- One interrupt more, on the counter.
ticks_suc :
    (n t t' c : ℕ)
    → t < 2 ^ 32
    → t' ≡ (if n == 32 then add32 t 1 else t)
    → (t' < 2 ^ 32) × ((t' + c) % 2 ^ 32 ≡ (t + ((if n == 32 then 1 else 0) + c)) % 2 ^ 32)
ticks_suc n t t' c small e = grind arith

serve-Acknowledged :
    (ns : List ℕ) (s : Interrupts)
    → IsServing s
    → s.tick < 2 ^ 32
    → AreLines ns
    → (s' : Interrupts) × (serve ns s ≡ ok s')
      × (s'.tick ≡ (s.tick + timer_ticks ns) % 2 ^ 32)
      × Acknowledged ns s.monitor.sent s'.monitor.sent
unfolding serve
serve-Acknowledged [] s v small no_line = (s, refl, omega arith, no_more)
serve-Acknowledged (n ∷ ns) s v small (line low high are) =
    let r = irq_handler-Served n s v low high in
    let (below, more) = ticks_suc n s.tick r.after.tick (timer_ticks ns) small r.counted in
    let (s', returns, ticks, all) =
      serve-Acknowledged ns r.after (IsServing-same s r.after r.same_handlers v) below are in
    (
      s',
      rw r.returns returns,
      ticks ∙ more,
      acknowledge r.later (subst (λ l. Acknowledged ns l s'.monitor.sent) r.sent all),
    )

others-none :
    (n : ℕ)
    → 33 ≤ n
    → n < 48
    → get_elem? (set (replicate 256 none) 32 (some timer_callback)) n ≡ some none
others-none n low high =
    let zs : List (Option Handler) = replicate 256 none in
    let after = set zs 32 (some timer_callback) in
    let wide : length after ≡ 256 =
      length-set zs 32 (some timer_callback) ∙ length-replicate {A = Option Handler} 256 none in
    let empty : get_or after n none ≡ none =
      get_or-set_ne zs 32 n (some timer_callback) none (omega arith)
      ∙ get_or-replicate 256 n none in
    get_elem?-eq-get_or after n none (omega arith) ∙ ap some empty

-- After `init_descriptor_tables`, on tables with five segment descriptors and stubs at 32-bit
-- addresses, and `init_timer`, with a frequency that is not 0, the machine handles every sequence of
-- hardware interrupts with numbers from 32 to 47: no handler fails, each interrupt is acknowledged at
-- its controllers in its turn, before its handler runs, and `tick`, a number of 32 bits, grows by the
-- number of timer interrupts, modulo `2 ^ 32`.
pub serve-init_timer :
    (stub : ℕ → ℕ) (gdt_address idt_address frequency : ℕ) (ns : List ℕ) (t : Tables)
    (s : Interrupts)
    → ((j : ℕ) → stub j < 2 ^ 32)
    → length t.gdt_entries ≡ 5
    → frequency ≢ 0
    → s.tick < 2 ^ 32
    → AreLines ns
    → (t' : Tables) × (tabled : Interrupts) × (timed : Interrupts) × (served : Interrupts)
      × (init_descriptor_tables stub gdt_address idt_address t s ≡ ok (t', tabled))
      × (init_timer frequency tabled ≡ ok timed)
      × (serve ns timed ≡ ok served)
      × (served.tick ≡ (s.tick + timer_ticks ns) % 2 ^ 32)
      × Acknowledged ns timed.monitor.sent served.monitor.sent
unfolding init_descriptor_tables init_timer register_interrupt_handler write
serve-init_timer stub gdt_address idt_address frequency ns t s small five positive tick are =
    let (e, returns) = init_gdt-returns gdt_address t five in
    let i =
      init_idt-Installed stub idt_address
        (record t { gdt_entries = e; gdt_ptr = record { limit = 39; base = gdt_address } })
        s.monitor small in
    let tabled = record s { monitor = i.screen; interrupt_handlers = replicate 256 none } in
    let divisor = 1193180 / frequency in
    let sent =
      outb 0x40 (u8 (divisor / 2 ^ 8)) (outb 0x40 (u8 divisor) (outb 0x43 0x36 i.screen)) in
    let handlers = set (replicate 256 none) 32 (some timer_callback) in
    let timed = record tabled { monitor = sent; interrupt_handlers = handlers } in
    let (served, all_served, ticks, all) =
      serve-Acknowledged ns timed (record { timer = refl; others = others-none }) tick are in
    (
      i.after,
      tabled,
      timed,
      served,
      rw (returns, i.returns) refl,
      rw (ne→eqb_false frequency 0 positive) refl,
      all_served,
      ticks,
      all,
    )
