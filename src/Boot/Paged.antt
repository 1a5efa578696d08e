-- ===== src/Boot/Paged.antt =====
-- The tables and the three loops of initialise_paging together.
use ahk_main.Base.{
  ℕ, zero, suc, ◌+◌, ◌*◌, ◌≤◌, ◌<◌, ◌≡◌, ◌≢◌, refl, sym, ap, ◌∙◌, false, ok, ◌>>=◌, arith,
}
use ahk_main.Kernel.{Kernel}
use ahk_main.Paging.{page_at}
use ahk_main.Boot.{make_tables, identity_map, alloc_pages}
use ahk_main.Boot.Stages.{Stage, alloc_page-low}
use ahk_main.Boot.Directory.{next_page, with_table, CanPlace}
use ahk_main.Boot.Start.{Blank}
use ahk_main.Boot.Mapping.{
  make_tables-with_table, alloc_page-with_table, low_pages, identity_map-more, identity_map-Stage,
  alloc_pages-Stage,
}

-- The page `j` of the table that the directory has at `t` is present, and behind it is the frame `f`.
pub record MapsTo (k : Kernel) (t j f : ℕ) : Type 0 where
  pub present : (page_at k (record { table = k.kernel_directory.tables t; index = j })).present ≡ 1
  pub frame : (page_at k (record { table = k.kernel_directory.tables t; index = j })).frame ≡ f

-- The tables are there, and the pages of both are mapped.
pub record Paged (k : Kernel) : Type 0 where
  pub end_page : ℕ
  pub early : k.kheap_ready ≡ false
  pub covers : k.placement_address + 4096 ≤ 4096 * end_page
  pub few : end_page ≤ 768
  pub some_low : k.kernel_directory.tables 0 ≢ 0
  pub some_high : k.kernel_directory.tables 768 ≢ 0
  pub apart : k.kernel_directory.tables 0 ≢ k.kernel_directory.tables 768
  pub low : (j : ℕ) → j < end_page → MapsTo k 0 j j
  pub high : (r : ℕ) → r < 256 → MapsTo k 768 r (end_page + r)

Stage-Paged :
    (low high placement : ℕ) (k : Kernel)
    → placement ≤ 0x2FC000
    → Stage low high placement (low_pages placement) 256 k
    → Paged k
Stage-Paged low high placement k room st =
    let placed = st.placed in
    record {
      end_page = low_pages placement;
      early = st.early;
      covers = omega arith;
      few = omega arith;
      some_low = λ e. st.some_low (sym st.low_table ∙ e);
      some_high = λ e. st.some_high (sym st.high_table ∙ e);
      apart = λ e. st.apart (sym st.low_table ∙ e ∙ st.high_table);
      low = λ j lt.
          let m = st.low_mapped j lt in
          let at_table = λ (t : ℕ). page_at k (record { table = t; index = j }) in
          record {
            present = ap (λ t. (at_table t).present) st.low_table ∙ m.1;
            frame = ap (λ t. (at_table t).frame) st.low_table ∙ m.0;
          };
      high = λ r lt.
          let m = st.high_mapped r lt in
          let at_table = λ (t : ℕ). page_at k (record { table = t; index = r }) in
          record {
            present = ap (λ t. (at_table t).present) st.high_table ∙ m.1;
            frame = ap (λ t. (at_table t).frame) st.high_table ∙ m.0;
          };
    }

Blank-CanPlace : (p : ℕ) (k : Kernel) → Blank p k → 4096 ≤ p → p ≤ 0x2FC000 → CanPlace k
Blank-CanPlace p k b behind room =
    let placed = b.placed in record { early = b.early; behind = omega arith; room = omega arith }

-- Both tables, and no page of them.
tables-Stage :
    (p : ℕ) (k : Kernel)
    → Blank p k
    → 4096 ≤ p
    → p ≤ 0x2F8000
    → Stage
        (next_page (with_table 768 k))
        (next_page k)
        (next_page (with_table 768 k) + 4096)
        0
        0
        (with_table 0 (with_table 768 k))
tables-Stage p k b behind room =
    let placed = b.placed in
    record {
      early = b.early;
      many = b.many;
      words = b.words;
      used_below = b.unused;
      placed = refl;
      low_table = refl;
      some_low = λ e. omega arith;
      high_table = refl;
      some_high = λ e. omega arith;
      apart = λ e. omega arith;
      low_mapped = λ j lt. absurd (omega arith);
      low_free = λ j le. ground arith;
      high_mapped = λ j lt. absurd (omega arith);
      high_free = λ r le. ground arith;
    }

-- The three loops.
pub loops-Paged :
    (fuel p : ℕ) (k : Kernel)
    → Blank p k
    → 4096 ≤ p
    → p ≤ 0x2F8000
    → 768 < fuel
    → (k' : Kernel) × ((make_tables fuel 256 0xC0000000 k
          >>= identity_map fuel 0
          >>= alloc_pages fuel 256 0xC0000000)
        ≡ ok k')
      × Paged k'
loops-Paged zero p k b behind room enough = absurd (omega arith)
loops-Paged (suc fuel) p k b behind room enough =
    let placed = b.placed in
    let c = Blank-CanPlace p k b behind (omega arith) in
    let k₁ = with_table 768 k in
    let low = next_page k₁ in
    let high = next_page k in
    let end_of = next_page k₁ + 4096 in
    let c₁ : CanPlace k₁ = record { early = b.early; behind = omega arith; room = omega arith } in
    let made = make_tables-with_table (suc fuel) 255 k c (omega arith) (b.no_tables 768) in
    let st = tables-Stage p k b behind room in
    let (k₂, e₂, st₂) =
      alloc_page-low low high end_of 0 0 (with_table 0 k₁) st (omega arith) fuel refl in
    let first = alloc_page-with_table fuel k₁ c₁ (b.no_tables 0) ∙ e₂ in
    let (k₃, e₃, st₃) =
      identity_map-Stage low high end_of (omega arith) fuel 1 k₂ st₂ (omega arith) (omega arith) in
    let mapped = identity_map-more fuel 0 k₁ k₂ k₃ (omega arith) (omega arith) first e₃ in
    let (k₄, e₄, st₄) =
      alloc_pages-Stage low high end_of (omega arith) (suc fuel) 256 (low_pages end_of) 0 k₃ st₃
        (omega arith) in
    (k₄, rw (made, mapped) e₄, Stage-Paged low high end_of k₄ (omega arith) st₄)
