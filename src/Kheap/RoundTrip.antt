-- ===== src/Kheap/RoundTrip.antt =====
-- `alloc` and then `free`, on a heap without neighbouring holes.
use mathlib.Core.List.{append_assoc}
use ahk_main.Base.{
  ℕ, suc, ◌+◌, ◌-◌, ◌≤◌, ◌<◌, ◌≡◌, refl, sym, subst, ◌∙◌, ◌⊎◌, inl, inr, false, Bool-cases, List,
  [], ◌∷◌, ◌++◌, Result, ok, ltb, length, if◌then◌else◌, arith,
}
use ahk_main.Memory.{Memory}
use ahk_main.Kernel.{Kernel}
use ahk_main.Kheap.Blocks.{Block, hole, used, HasFooter, HasFooter-Agree, Tiles, total}
use ahk_main.Kheap.Layout.{heap_magic, footer_magic, footer_header}
use ahk_main.Kheap.Invariant.{Inv, cut, Allocated}
use ahk_main.Kheap.Alloc.{alloc}
use ahk_main.Kheap.Free.{free}
use ahk_main.Kheap.Allocates.{alloc-Allocated}
use ahk_main.Kheap.Stages.{joined}
use ahk_main.Kheap.Frees.{free-Inv}
use ahk_main.Kheap.Pending.{block_at}

-- Each hole stands between two blocks in use.
pub record IsFenced (bs : List Block) : Type 0 where
  pub between :
      (front : List Block) (n : ℕ) (back : List Block)
      → bs ≡ front ++ (hole n ∷ back)
      → (xs : List Block) × (s : ℕ) × (t : ℕ) × (ys : List Block) × (front ≡ xs ++ (used s ∷ []))
        × (back ≡ used t ∷ ys)

-- The header that the footer at the end of a hole of `n` bytes at `a` leads to once a block of `asked`
-- bytes was cut from it and given back. Where a rest was split off, it is the rest's.
abbrev pub end_header : ℕ → ℕ → ℕ → ℕ
end_header a n asked = if ltb (n - asked) 20 then a else a + asked

-- What the pointer `p`, from `alloc` in `k`, leaves in `k''` when it is given back to a heap that had
-- the blocks `bs` before: the hole of `n` bytes it was cut from is there again and has a footer, and
-- nothing outside it is touched.
pub record GivenBack (size p : ℕ) (k k'' : Kernel) (bs : List Block) : Type 0 where
  pub front : List Block
  pub n : ℕ
  pub back : List Block
  pub was : bs ≡ front ++ (hole n ∷ back)
  pub enough : size + 20 ≤ n
  pub pointer : p ≡ k.heap.start_address + total front + 12
  pub sound : Inv k'' bs
  pub magic : footer_magic k''.memory (k.heap.start_address + total front + n - 8) ≡ heap_magic
  pub header :
      footer_header k''.memory (k.heap.start_address + total front + n - 8)
      ≡ end_header (k.heap.start_address + total front) n (size + 20)
  pub elsewhere :
      (x : ℕ)
      → (x < k.heap.start_address + total front) ⊎ (k.heap.start_address + total front + n ≤ x)
      → k''.memory x ≡ k.memory x

-- A block in use behind another one is freed, in front of a block in use or of a hole: the footer to
-- its left is there.
module _ (k : Kernel) (xs : List Block) (s n : ℕ) (r : Block) (ys : List Block)
    (inv : Inv k ((xs ++ (used s ∷ [])) ++ (used n ∷ r ∷ ys)))
    (slot : suc k.heap.index.size < length k.heap.index.array) where
  abbrev flat : (xs ++ (used s ∷ [])) ++ (used n ∷ r ∷ ys) ≡ xs ++ (used s ∷ used n ∷ r ∷ ys)
  flat = append_assoc xs (used s ∷ []) (used n ∷ r ∷ ys)

  pub free-behind :
      (0 < total (if r.is_hole then ys else r ∷ ys))
      → (k' : Kernel) × (free (k.heap.start_address + total (xs ++ (used s ∷ [])) + 12) k ≡ ok k')
        × Inv k' (joined xs (used s) n r ys)
        × HasFooter k'.memory (k.heap.start_address + total (xs ++ (used s ∷ []))) n
        × ((x : ℕ)
            → (x < k.heap.start_address + total (xs ++ (used s ∷ [])))
              ⊎ (k.heap.start_address + total (xs ++ (used s ∷ [])) + n ≤ x)
            → k'.memory x ≡ k.memory x)
  free-behind inside =
      let inv' : Inv k (xs ++ (used s ∷ used n ∷ r ∷ ys)) = subst (λ bs. Inv k bs) flat inv in
      let left =
        block_at k.memory k.heap.start_address xs (used s) (used n ∷ r ∷ ys) k.heap.end_address
          inv'.tiles in
      free-Inv k xs (used s) r n ys inv' (left.footer refl) slot inside

-- The block that was cut from a hole of `n` bytes between two blocks in use is given back.
module _ (k : Kernel) (xs : List Block) (s n asked t : ℕ) (ys : List Block)
    (inv : Inv k ((xs ++ (used s ∷ [])) ++ (cut n asked ++ (used t ∷ ys))))
    (slot : suc k.heap.index.size < length k.heap.index.array) (enough : asked ≤ n) where
  abbrev fence : List Block
  fence = xs ++ (used s ∷ [])

  room_right :
      (m : Memory) (a end : ℕ) (front : List Block)
      → Tiles m a (front ++ (used t ∷ ys)) end
      → 0 < total (used t ∷ ys)
  room_right m a end front tiles =
      let room = (block_at m a front (used t) ys end tiles).room in omega arith

  abbrev here : ℕ
  here = k.heap.start_address + total fence

  free-cut :
      (ltb (n - asked) 20 ≡ false → HasFooter k.memory (here + asked) (n - asked))
      → (k' : Kernel) × (free (here + 12) k ≡ ok k')
        × Inv k' (fence ++ (hole n ∷ used t ∷ ys))
        × (footer_magic k'.memory (here + n - 8) ≡ heap_magic)
        × (footer_header k'.memory (here + n - 8) ≡ end_header here n asked)
        × ((x : ℕ) → (x < here) ⊎ (here + n ≤ x) → k'.memory x ≡ k.memory x)
  free-cut rest_footer = elim (Bool-cases (ltb (n - asked) 20)) [
    | inl e ↦
        let whole : Inv k (fence ++ (used n ∷ used t ∷ ys)) = rw e at inv in
        let nested : Inv k ((fence ++ (used n ∷ [])) ++ (used t ∷ ys)) =
          subst (λ l. Inv k l) (sym (append_assoc fence (used n ∷ []) (used t ∷ ys))) whole in
        let (k', returns, sound, foot, frame) = free-behind k xs s n (used t) ys whole slot (
          room_right k.memory k.heap.start_address k.heap.end_address (fence ++ (used n ∷ []))
            nested.tiles) in
        (k', returns, sound, foot.magic, rw e foot.header, frame)
    | inr e ↦
        let split : Inv k (fence ++ (used asked ∷ hole (n - asked) ∷ used t ∷ ys)) = rw e at inv in
        let nested : Inv k ((fence ++ (used asked ∷ hole (n - asked) ∷ [])) ++ (used t ∷ ys)) =
          subst (λ l. Inv k l)
            (sym (append_assoc fence (used asked ∷ hole (n - asked) ∷ []) (used t ∷ ys))) split in
        let (k', returns, sound, _, frame) =
          free-behind k xs s asked (hole (n - asked)) (used t ∷ ys) split slot (
            room_right k.memory k.heap.start_address k.heap.end_address
              (fence ++ (used asked ∷ hole (n - asked) ∷ [])) nested.tiles) in
        let wide : 20 ≤ n - asked = ground (arith, e) in
        let foot : HasFooter k'.memory (here + asked) (n - asked) =
          HasFooter-Agree (here + asked) (n - asked) wide (λ x p q. frame x (inr p))
            (rest_footer e) in
        let whole : asked + (n - asked) ≡ n = omega arith in
        let last : here + asked + (n - asked) - 8 ≡ here + n - 8 = omega arith in
        (
          k',
          returns,
          subst (λ z. Inv k' (fence ++ (hole z ∷ used t ∷ ys))) whole sound,
          rw last at foot.magic,
          rw e (rw last at foot.header),
          λ x o. frame x (elim o [ inl lo ↦ inl lo | inr hi ↦ inr (omega arith) ]),
        )
  ]

-- What was allocated is given back.
free-Allocated :
    (size : ℕ) (k : Kernel) (bs : List Block) (r : Result (ℕ × Kernel))
    → IsFenced bs
    → suc k.heap.index.size < length k.heap.index.array
    → Allocated size k bs r
    → (p : ℕ) × (k' : Kernel) × (k'' : Kernel) × (r ≡ ok (p, k'))
      × (free p k' ≡ ok k'')
      × GivenBack size p k k'' bs
free-Allocated size k bs r fenced slot a =
    let (xs, s, t, ys, front, back) = fenced.between a.front a.n a.back a.was in
    let shape : a.front ++ (cut a.n (size + 20) ++ a.back)
        ≡ (xs ++ (used s ∷ [])) ++ (cut a.n (size + 20) ++ (used t ∷ ys)) =
      cc (front, back) in
    let whole : (xs ++ (used s ∷ [])) ++ (hole a.n ∷ used t ∷ ys) ≡ bs = cc (front, back, a.was) in
    let at : a.after.heap.start_address + total (xs ++ (used s ∷ []))
        ≡ k.heap.start_address + total a.front =
      cc (front, a.same_start) in
    let (k'', returns, sound, magic, header, frame) =
      free-cut a.after xs s a.n (size + 20) t ys (subst (λ l. Inv a.after l) shape a.sound)
        (omega (arith, slot, a.no_more_entries, a.same_slots)) a.enough
        (λ e.
          subst (λ h. HasFooter a.after.memory (h + (size + 20)) (a.n - (size + 20))) (sym at)
            (a.rest_footer e)) in
    (
      k.heap.start_address + total a.front + 12,
      a.after,
      k'',
      a.returns,
      subst (λ p. free (p + 12) a.after ≡ ok k'') at returns,
      record {
        front = a.front;
        n = a.n;
        back = a.back;
        was = a.was;
        enough = a.enough;
        pointer = refl;
        sound = subst (λ l. Inv k'' l) whole sound;
        magic = subst (λ h. footer_magic k''.memory (h + a.n - 8) ≡ heap_magic) at magic;
        header =
            subst (λ h. footer_header k''.memory (h + a.n - 8) ≡ end_header h a.n (size + 20)) at
              header;
        elsewhere =
            λ x o. frame x (subst (λ h. (x < h) ⊎ (h + a.n ≤ x)) (sym at) o) ∙ a.elsewhere x o;
      },
    )

-- `alloc` without page alignment and then `free` of its pointer, on a sound heap that has a hole of at
-- least `size + 20` bytes, where each hole is between two blocks in use and the index has two free
-- slots: both return. The blocks are the ones that the heap had before, each header is right, the
-- holes are the entries of the index, and no byte outside the hole that was taken is changed. The
-- footer at the end of this hole has the magic number and leads to the hole's header if the hole was
-- taken whole; where a rest was split off, it leads to the header that the rest had, `size + 20` bytes
-- behind the hole's.
pub free-alloc :
    (fuel size : ℕ) (k : Kernel) (xs : List Block) (big : ℕ) (ys : List Block)
    → Inv k (xs ++ (hole big ∷ ys))
    → size + 20 ≤ big
    → IsFenced (xs ++ (hole big ∷ ys))
    → suc k.heap.index.size < length k.heap.index.array
    → (p : ℕ) × (k' : Kernel) × (k'' : Kernel) × (alloc (suc fuel) size 0 k ≡ ok (p, k'))
      × (free p k' ≡ ok k'')
      × GivenBack size p k k'' (xs ++ (hole big ∷ ys))
free-alloc fuel size k xs big ys inv enough fenced slot =
    free-Allocated size k (xs ++ (hole big ∷ ys)) (alloc (suc fuel) size 0 k) fenced slot
      (alloc-Allocated fuel size k xs big ys inv enough)
