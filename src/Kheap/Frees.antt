-- ===== src/Kheap/Frees.antt =====
-- `free` between two blocks: it joins the freed block with the holes at its sides, and the heap stays
-- sound.
use mathlib.Core.List.{append_assoc}
use ahk_main.Base.{
  ℕ, suc, ◌+◌, ◌-◌, ◌^◌, ◌≤◌, ◌⊎◌, inl, inr, ◌<◌, ◌≡◌, refl, ap, sym, subst, ◌∙◌, true, List, [],
  ◌∷◌, ◌++◌, ok, ne→eqb_false, if◌then◌else◌, length, add32, sub32, arith,
}
use ahk_main.Memory.Laws.{store8-ne}
use ahk_main.Kernel.{Kernel}
use ahk_main.Kheap.Layout.{on_memory, set_is_hole, insert_in_index}
use ahk_main.Kheap.Blocks.{
  Block, used, IsBlock, HasFooter, HasFooter-Agree, HasFooter-same, total-append, total,
}
use ahk_main.Kheap.Invariant.{Inv}
use ahk_main.Kheap.Free.{Locals, unify_left, unify_right, shrink, free}
use ahk_main.Kheap.Pending.{block_at, block-le-end, mark-Pending, insert-Inv}
use ahk_main.Kheap.Stages.{
  with_left, kept_left, kept_right, joined, added, joined_header, at_hole, left_stage, right_stage,
  shrink-inside, end_of,
}

module _ (k : Kernel) (xs : List Block) (l r : Block) (n : ℕ) (ys : List Block)
    (inv : Inv k (xs ++ (l ∷ used n ∷ r ∷ ys)))
    (left_footer : HasFooter k.memory (k.heap.start_address + total xs) l.size)
    (slot : suc k.heap.index.size < length k.heap.index.array)
    (inside : 0 < total (kept_right r ys)) where
  abbrev a : ℕ
  a = k.heap.start_address + total (xs ++ (l ∷ []))

  inv' : Inv k ((xs ++ (l ∷ [])) ++ (used n ∷ r ∷ ys))
  inv' = subst (λ bs. Inv k bs) (sym (append_assoc xs (l ∷ []) (used n ∷ r ∷ ys))) inv

  IsBlock-here : IsBlock k.memory a (used n)
  IsBlock-here =
      block_at k.memory k.heap.start_address (xs ++ (l ∷ [])) (used n) (r ∷ ys) k.heap.end_address
        inv'.tiles

  fits : a + n < 2 ^ 32
  fits = omega (
    arith,
    inv.below,
    block-le-end k.memory k.heap.start_address (xs ++ (l ∷ [])) (used n) (r ∷ ys) k.heap.end_address
        inv'.tiles,
  )

  abbrev marked : Kernel
  marked = on_memory (set_is_hole a 1) k

  -- The footer to the left is not touched by the mark.
  footer_left : HasFooter marked.memory (k.heap.start_address + total xs) l.size
  footer_left =
      let left =
        block_at k.memory k.heap.start_address xs l (used n ∷ r ∷ ys) k.heap.end_address
          inv.tiles in
      HasFooter-Agree (k.heap.start_address + total xs) l.size left.room
        (λ x p q. store8-ne k.memory (a + 4) x 1 (omega (arith, total-append xs (l ∷ []))))
        left_footer

  -- Nor is the block's own.
  footer_here : HasFooter marked.memory a n
  footer_here =
      let room = IsBlock-here.room in
      HasFooter-same a n IsBlock-here.room (λ x p q. store8-ne k.memory (a + 4) x 1 (omega arith))
        (IsBlock-here.footer refl)

  abbrev v₁ : Locals
  v₁ = at_hole (joined_header k xs l) (with_left l n) (added l) 0

  -- `free` on a pointer behind the header of a block in use.
  free-lines :
      {k₁ k₂ k₃ : Kernel} {v₂ : Locals}
      → unify_left (at_hole a n true 0) marked ≡ (v₁, k₁)
      → unify_right v₁ k₁ ≡ ok (v₂, k₂)
      → shrink v₂ k₂ ≡ ok k₂
      → (if v₂.do_add then insert_in_index v₂.header k₂ else ok k₂) ≡ ok k₃
      → free (a + 12) k ≡ ok k₃
  unfolding free
  free-lines e₁ e₂ e₃ e₄ =
      let here : sub32 (a + 12) 12 ≡ a = omega (arith, fits, IsBlock-here.room) in
      let foot : sub32 (add32 a n) 8 ≡ a + n - 8 = omega (arith, fits, IsBlock-here.room) in
      let some_pointer = ne→eqb_false (a + 12) 0 (omega arith) in
      let f = IsBlock-here.footer refl in
      rw (here, IsBlock-here.size, foot, some_pointer, IsBlock-here.magic, f.magic, e₁, e₂, e₃) e₄

  -- The header of the hole that the block becomes part of.
  abbrev h : ℕ
  h = joined_header k xs l

  size_left : 20 ≤ with_left l n
  size_left = let room = IsBlock-here.room in ground arith

  end_left : h + with_left l n ≡ a + n
  end_left = end_of l.is_hole k.heap.start_address l.size n xs

  reaches : n ≤ with_left l n
  reaches = ground arith

  -- `free` of the pointer into a block in use between the blocks `l` and `r`, on a sound heap where
  -- the index has two free slots, `l` has its footer and the freed hole will not end the heap, returns.
  -- It leaves a sound heap, in which the block is one hole together with those of `l` and `r` that are
  -- holes. To be sound asks nothing of the footers of holes: the footer at the end of the freed block
  -- has the magic number and leads to the header of that hole, and nothing in front of this header or
  -- behind the freed block changes, so where `r` is a hole that is taken in, its footer is what it was.
  pub free-Inv :
      (k' : Kernel) × (free (a + 12) k ≡ ok k')
      × Inv k' (joined xs l n r ys)
      × HasFooter k'.memory h (with_left l n)
      × ((x : ℕ) → (x < h) ⊎ (a + n ≤ x) → k'.memory x ≡ k.memory x)
  free-Inv =
      let p₀ = mark-Pending k (xs ++ (l ∷ [])) n (r ∷ ys) inv' slot in
      let (k₁, e₁, p₁, foot, frame₁) =
        left_stage l.is_hole marked xs l.size n (r ∷ ys) a 0 p₀ footer_left footer_here in
      let (k₂, e₂, p₂, lt, frame₂) =
        right_stage r.is_hole k₁ h (with_left l n) r.size 0 (added l) (kept_left xs l) ys p₁
          inside in
      let e₃ = shrink-inside _ k₂ lt p₂.below in
      let (k₃, e₄, done, same) = insert-Inv k₂ _ (kept_left xs l) _ (kept_right r ys) p₂ in
      let room = IsBlock-here.room in
      let wide = size_left in
      let ends = end_left in
      let longer = reaches in
      (
        k₃,
        free-lines e₁ e₂ e₃ e₄,
        done,
        HasFooter-same h (with_left l n) size_left
            (λ x p q. ap (λ m. m x) same ∙ frame₂ x (inr (omega arith))) foot,
        λ x o.
            ap (λ m. m x) same
            ∙ frame₂ x (elim o [ inl lo ↦ inl lo | inr hi ↦ inr (omega arith) ])
            ∙ frame₁ x o
            ∙ store8-ne k.memory (a + 4) x 1
                (elim o [ inl lo ↦ omega arith | inr hi ↦ omega arith ]),
      )
