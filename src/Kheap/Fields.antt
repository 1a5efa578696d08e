-- ===== src/Kheap/Fields.antt =====
-- What the writers of headers and footers leave in the memory.
use ahk_main.Base.{ℕ, ◌+◌, ◌%◌, ◌^◌, ◌≤◌, ◌<◌, ◌≡◌, ◌⊎◌, inl, inr, ◌∙◌, arith}
use ahk_main.Memory.{Memory, store8, store32}
use ahk_main.Memory.Laws.{
  load32-store32_self, load32-store32_ne, store32-ne, store8_self, store8-ne, load32-store8_ne,
}
use ahk_main.Kheap.Layout.{
  heap_magic, header_magic, header_is_hole, header_block_size, set_header, footer_magic,
  footer_header, set_footer,
}

module _ (m : Memory) (h hole size : ℕ) where
  pub magic-set_header : header_magic (set_header h hole size m) h ≡ heap_magic
  unfolding set_header
  magic-set_header = omega (
    arith,
    load32-store32_ne (store8 (store32 m h heap_magic) (h + 4) hole) (h + 8) h size
        (inr (omega arith)),
    load32-store8_ne (store32 m h heap_magic) (h + 4) h hole (inr (omega arith)),
    load32-store32_self m h heap_magic,
  )

  pub is_hole-set_header : header_is_hole (set_header h hole size m) h ≡ hole % 2 ^ 8
  unfolding set_header
  is_hole-set_header = omega (
    arith,
    store32-ne (store8 (store32 m h heap_magic) (h + 4) hole) (h + 8) (h + 4) size
        (inl (omega arith)),
    store8_self (store32 m h heap_magic) (h + 4) hole,
  )

  pub size-set_header : header_block_size (set_header h hole size m) h ≡ size % 2 ^ 32
  unfolding set_header
  size-set_header = load32-store32_self (store8 (store32 m h heap_magic) (h + 4) hole) (h + 8) size

  pub set_header-ne : (x : ℕ) → (x < h) ⊎ (h + 12 ≤ x) → set_header h hole size m x ≡ m x
  unfolding set_header
  set_header-ne x out =
      store32-ne (store8 (store32 m h heap_magic) (h + 4) hole) (h + 8) x size (omega arith)
      ∙ store8-ne (store32 m h heap_magic) (h + 4) x hole (omega arith)
      ∙ store32-ne m h x heap_magic (omega arith)

module _ (m : Memory) (f header : ℕ) where
  pub magic-set_footer : footer_magic (set_footer f header m) f ≡ heap_magic
  unfolding set_footer
  magic-set_footer = omega (
    arith,
    load32-store32_ne (store32 m f heap_magic) (f + 4) f header (inr (omega arith)),
    load32-store32_self m f heap_magic,
  )

  pub header-set_footer : footer_header (set_footer f header m) f ≡ header % 2 ^ 32
  unfolding set_footer
  header-set_footer = load32-store32_self (store32 m f heap_magic) (f + 4) header

  pub set_footer-ne : (x : ℕ) → (x < f) ⊎ (f + 8 ≤ x) → set_footer f header m x ≡ m x
  unfolding set_footer
  set_footer-ne x out =
      store32-ne (store32 m f heap_magic) (f + 4) x header (omega arith)
      ∙ store32-ne m f x heap_magic (omega arith)
