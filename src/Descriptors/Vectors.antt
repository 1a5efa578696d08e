-- ===== src/Descriptors/Vectors.antt =====
-- The interrupt table after `init_idt`: 48 gates to the stubs, and the rest empty.
use ahk_main.Base.{
  ℕ, zero, suc, ◌+◌, ◌-◌, ◌*◌, ◌^◌, ◌≤◌, ◌<◌, ◌≡◌, refl, ◌∙◌, false, inl, inr, Bool-cases, List,
  Result, ok, length, get_or, set, write-ok, get_or-set_self, get_or-set_ne, length-set, replicate,
  length-replicate, get_or-replicate, else-branch, ltb, leb, ◌&&◌, ◌==◌, if◌then◌else◌, arith,
}
use ahk_main.Monitor.{Monitor}
use ahk_main.Descriptors.{
  Tables, IdtEntry, idt_entry, zero_gate, idt_set_gate, set_gates, init_idt, remap_irqs,
}

-- The address that an interrupt jumps to.
abbrev pub target : IdtEntry → ℕ
target e = e.base_lo + e.base_hi * 2 ^ 16

record Set (stub : ℕ → ℕ) (num last : ℕ) (entries : List IdtEntry) (r : Result (List IdtEntry))
    : Type 0 where
  out : List IdtEntry
  returns : r ≡ ok out
  same_length : length out ≡ length entries
  gates :
      (j : ℕ) (d : IdtEntry)
      → get_or out j d
        ≡ (if leb num j && ltb j last then idt_entry (stub j) 0x08 0x8E else get_or entries j d)

set_gates-Set :
    (stub : ℕ → ℕ) (rounds num last : ℕ) (entries : List IdtEntry)
    → num + rounds ≡ last
    → last ≤ length entries
    → Set stub num last entries (set_gates stub rounds num entries)
unfolding set_gates idt_set_gate
set_gates-Set stub zero num last entries e h = record {
  out = entries;
  returns = refl;
  same_length = refl;
  gates = λ j d. ground arith;
}
set_gates-Set stub (suc rounds) num last entries e h =
    let gate = idt_entry (stub num) 0x08 0x8E in
    let entries' = set entries num gate in
    let rest =
      set_gates-Set stub rounds (suc num) last entries' (omega arith)
        (omega (arith, length-set entries num gate)) in
    record {
      out = rest.out;
      returns = rw (write-ok entries num gate (omega arith)) rest.returns;
      same_length = rest.same_length ∙ length-set entries num gate;
      gates = λ j d. elim (Bool-cases (num == j)) [
        | inl s ↦
            let here : num ≡ j = ground arith in
            let self : get_or entries' j d ≡ idt_entry (stub j) 0x08 0x8E =
              rw (← here) (get_or-set_self entries num gate d (omega arith)) in
            rest.gates j d ∙ ground (arith, self)
        | inr n ↦
            let other = get_or-set_ne entries num j gate d (ground arith) in
            rest.gates j d ∙ ground (arith, other)
      ];
    }

pub record Installed (stub : ℕ → ℕ) (idt_address : ℕ) (t : Tables) (r : Result (Tables × Monitor))
    : Type 0 where
  pub after : Tables
  pub screen : Monitor
  pub returns : r ≡ ok (after, screen)
  pub gates : length after.idt_entries ≡ 256
  pub handled :
      (j : ℕ)
      → j < 48
      → (target (get_or after.idt_entries j zero_gate) ≡ stub j)
        × ((get_or after.idt_entries j zero_gate).sel ≡ 0x08)
        × ((get_or after.idt_entries j zero_gate).flags ≡ 0x8E)
        × ((get_or after.idt_entries j zero_gate).always0 ≡ 0)
  pub empty : (j : ℕ) → 48 ≤ j → get_or after.idt_entries j zero_gate ≡ zero_gate
  pub pointer : (after.idt_ptr.limit ≡ 2047) × (after.idt_ptr.base ≡ idt_address)
  pub same_gdt : after.gdt_entries ≡ t.gdt_entries

-- `init_idt`, with stubs at 32-bit addresses, returns: the table has 256 gates, of which the first 48
-- lead to the stubs of their numbers, through the kernel's code segment and at ring 0, and the others
-- are zero; the pointer describes the table, and the segment descriptors are unchanged.
pub init_idt-Installed :
    (stub : ℕ → ℕ) (idt_address : ℕ) (t : Tables) (s : Monitor)
    → ((j : ℕ) → stub j < 2 ^ 32)
    → Installed stub idt_address t (init_idt stub idt_address t s)
unfolding init_idt
init_idt-Installed stub idt_address t s small =
    let full = length-replicate 256 zero_gate in
    let g =
      set_gates-Set stub 48 0 48 (replicate 256 zero_gate) (omega arith) (omega (arith, full)) in
    record {
      after = record t {
        idt_entries = g.out;
        idt_ptr = record { limit = 8 * 256 - 1; base = idt_address };
      };
      screen = remap_irqs s;
      returns = rw (g.returns) refl;
      gates = g.same_length ∙ full;
      handled = λ j h.
          let gate : get_or g.out j zero_gate ≡ idt_entry (stub j) 0x08 0x8E =
            g.gates j zero_gate ∙ ground arith in
          let fits = small j in rw gate (omega arith, refl, refl, refl);
      empty = λ j h.
          let behind : (leb 0 j && ltb j 48) ≡ false = ground arith in
          g.gates j zero_gate ∙ else-branch _ behind ∙ get_or-replicate 256 j zero_gate;
      pointer = (refl, refl);
      same_gdt = refl;
    }
