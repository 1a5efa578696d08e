-- ===== src/Boot/Booted.antt =====
-- initialise_paging as a whole: what is mapped, and the heap that it makes.
use ahk_main.Base.{
  ℕ, ◌+◌, ◌*◌, ◌≤◌, ◌<◌, ◌≡◌, ◌≢◌, refl, sym, ap, ◌∙◌, true, false, none, some, [], ◌∷◌, Result, ok,
  ◌>>=◌, length, set, get_or, get_or-set_self, write-ok, bind_assoc, arith,
}
use ahk_main.Kernel.{Kernel, PageDirectory, Page}
use ahk_main.Paging.{page_at}
use ahk_main.Kheap.Blocks.{hole}
use ahk_main.Kheap.Invariant.{Inv}
use ahk_main.Kheap.Alloc.{create_heap}
use ahk_main.Kheap.Creates.{create_heap-Created}
use ahk_main.Interrupts.{Interrupts, page_fault, register_interrupt_handler}
use ahk_main.Boot.{
  make_frames, make_directory, make_tables, identity_map, alloc_pages, initialise_paging,
}
use ahk_main.Boot.Start.{behind_directory, make-Blank}
use ahk_main.Boot.Paged.{MapsTo, loops-Paged}

-- What initialise_paging leaves: the page at each address up to the end of what has been placed is
-- mapped to itself, the first 256 pages of the heap to the frames behind, and the heap is one hole.
pub record Booted (r : Result (Kernel × Interrupts)) : Type 0 where
  pub after : Kernel
  pub interrupts : Interrupts
  pub returns : r ≡ ok (after, interrupts)
  pub ready : after.kheap_ready ≡ true
  pub end_page : ℕ
  pub covers : after.placement_address < 4096 * end_page
  pub few : end_page ≤ 768
  pub some_low : after.kernel_directory.tables 0 ≢ 0
  pub some_high : after.kernel_directory.tables 768 ≢ 0
  pub apart : after.kernel_directory.tables 0 ≢ after.kernel_directory.tables 768
  pub identity : (j : ℕ) → j < end_page → MapsTo after 0 j j
  pub heap_pages : (r : ℕ) → r < 256 → MapsTo after 768 r (end_page + r)
  pub handler : get_or interrupts.interrupt_handlers 14 none ≡ some page_fault
  pub heap_starts : after.heap.start_address ≡ 0xC0080000
  pub heap_ends : after.heap.end_address ≡ 0xC0100000
  pub sound : Inv after (hole 0x80000 ∷ [])

MapsTo-same :
    (t j f : ℕ) (k k' : Kernel)
    → k'.pages ≡ k.pages
    → k'.kernel_directory ≡ k.kernel_directory
    → MapsTo k t j f
    → MapsTo k' t j f
MapsTo-same t j f k k' same_pages same_directory m =
    let same : page_at k' (record { table = k'.kernel_directory.tables t; index = j })
        ≡ page_at k (record { table = k.kernel_directory.tables t; index = j }) =
      λ i. same_pages i ((same_directory i).tables t) j in
    record {
      present = ap (λ (p : Page). p.present) same ∙ m.present;
      frame = ap (λ (p : Page). p.frame) same ∙ m.frame;
    }

initialise_paging-returns :
    (fuel : ℕ) (k k₁ k₂ k₃ : Kernel) (s s' : Interrupts)
    → (make_frames fuel 4096 k >>= make_directory fuel) ≡ ok k₁
    → (make_tables fuel 256 0xC0000000 k₁
        >>= identity_map fuel 0
        >>= alloc_pages fuel 256 0xC0000000)
      ≡ ok k₂
    → register_interrupt_handler 14 page_fault s ≡ ok s'
    → create_heap fuel 0xC0000000 0xC0100000 0xCFFFF000 0 0 k₂ ≡ ok k₃
    → initialise_paging fuel k s ≡ ok (record k₃ { kheap_ready = true }, s')
unfolding initialise_paging
initialise_paging-returns fuel k k₁ k₂ k₃ s s' e₁ e₂ e₃ e₄ =
    bind_assoc (make_frames fuel 4096 k) (make_directory fuel) _
    ∙ rw e₁ (
        bind_assoc (make_tables fuel 256 0xC0000000 k₁) (identity_map fuel 0) _
        ∙ bind_assoc (make_tables fuel 256 0xC0000000 k₁ >>= identity_map fuel 0)
            (alloc_pages fuel 256 0xC0000000) _
        ∙ rw (e₂, e₃, e₄) refl)

-- `initialise_paging`, where the heap is not ready, the kernel ends behind the first page and below
-- 0x2F0000, the handlers have an entry 14 and the fuel is at least 769, returns: each page up to the
-- placement address is present and mapped to the frame of its own number, the first 256 pages of the
-- heap are present and mapped to the frames that follow, in order, in another table, the page fault
-- handler is in place, and the heap is ready and sound, with one hole.
pub initialise_paging-Booted :
    (fuel : ℕ) (k : Kernel) (s : Interrupts)
    → k.kheap_ready ≡ false
    → 4096 ≤ k.placement_address
    → k.placement_address ≤ 0x2F0000
    → 14 < length s.interrupt_handlers
    → 769 ≤ fuel
    → Booted (initialise_paging fuel k s)
unfolding register_interrupt_handler
initialise_paging-Booted fuel k s early behind room handlers enough =
    let (k₁, e₁, blank) = make-Blank fuel k early behind (omega arith) in
    let (k₂, e₂, p) =
      loops-Paged fuel (behind_directory k.placement_address) k₁ blank (omega arith) (omega arith)
        (omega arith) in
    let h = write-ok s.interrupt_handlers 14 (some page_fault) handlers in
    let c =
      create_heap-Created fuel 0xC0000000 0xC0100000 0xCFFFF000 0 0 k₂ p.early refl refl
        (omega arith) (omega arith) in
    let i = c.sound in
    let same = λ (t : ℕ). ap (λ (d : PageDirectory). d.tables t) c.same_directory in
    let placed = c.placed in
    let covers = p.covers in
    let few = p.few in
    record {
      after = record (c.after) { kheap_ready = true };
      interrupts = record s { interrupt_handlers = set s.interrupt_handlers 14 (some page_fault) };
      returns = initialise_paging-returns fuel k k₁ k₂ c.after s _ e₁ e₂ (rw h refl) c.returns;
      ready = refl;
      end_page = p.end_page;
      covers = omega arith;
      few = p.few;
      some_low = λ e. p.some_low (sym (same 0) ∙ e);
      some_high = λ e. p.some_high (sym (same 768) ∙ e);
      apart = λ e. p.apart (sym (same 0) ∙ e ∙ same 768);
      identity = λ j lt.
          MapsTo-same 0 j j k₂ (record (c.after) { kheap_ready = true }) c.same_pages
            c.same_directory (p.low j lt);
      heap_pages = λ r lt.
          MapsTo-same 768 r (p.end_page + r) k₂ (record (c.after) { kheap_ready = true })
            c.same_pages c.same_directory (p.high r lt);
      handler = get_or-set_self s.interrupt_handlers 14 (some page_fault) none handlers;
      heap_starts = c.starts;
      heap_ends = c.ends;
      sound = record {
        tiles = i.tiles;
        below = i.below;
        indexed = i.indexed;
        compares = i.compares;
        spare_slot = i.spare_slot;
        small_index = i.small_index;
      };
    }
