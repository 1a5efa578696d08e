-- ===== src/Kheap/Stages.antt =====
-- The stages of `free`: a freed block and its two neighbours, each of them a hole or in use.
use mathlib.Core.List.{append_assoc}
use ahk_main.Base.{
  else-branch, ℕ, ◌+◌, ◌-◌, ◌^◌, ◌≤◌, ◌⊎◌, ◌<◌, ◌≡◌, refl, ap, subst, ◌∙◌, Bool, true, false, not,
  List, [], ◌∷◌, ◌++◌, ok, ne→eqb_false, if◌then◌else◌, add32, arith,
}
use ahk_main.Memory.Laws.{store32-ne}
use ahk_main.Kernel.{Kernel}
use ahk_main.Kheap.Blocks.{
  Block, hole, used, IsBlock, HasFooter, Tiles, Tiles-split, total-append, total,
}
use ahk_main.Kheap.Free.{Locals, unify_left, unify_right, shrink}
use ahk_main.Kheap.Pending.{Pending, locals, block_at, block-le-end}
use ahk_main.Kheap.Unify.{
  unify_left-used, unify_left-Pending, unify_right-used, unify_right-Pending,
}

abbrev pub block : Bool → ℕ → Block
block h n = record { size = n; is_hole = h }

-- The size of a hole of `n` bytes once the neighbour to its left, or to its right, is in it.
abbrev pub with_left : Block → ℕ → ℕ
with_left b n = if b.is_hole then b.size + n else n

abbrev pub with_right : ℕ → Block → ℕ
with_right n b = if b.is_hole then n + b.size else n

-- The blocks that are left in front of the hole, with a neighbour `b` to its left.
abbrev pub kept_left : List Block → Block → List Block
kept_left xs b = if b.is_hole then xs else xs ++ (b ∷ [])

-- The blocks that are left behind the hole, with a neighbour `b` to its right.
abbrev pub kept_right : Block → List Block → List Block
kept_right b ys = if b.is_hole then ys else b ∷ ys

-- The hole that `n` freed bytes become between two blocks.
abbrev pub joined : List Block → Block → ℕ → Block → List Block → List Block
joined xs l n r ys = kept_left xs l ++ (hole (with_right (with_left l n) r) ∷ kept_right r ys)

-- Whether the header of the hole is still to be added, after the left unification.
abbrev pub added : Block → Bool
added l = not l.is_hole

abbrev pub joined_header : Kernel → List Block → Block → ℕ
joined_header k xs l = k.heap.start_address + total (kept_left xs l)

-- The locals once the hole has `n` bytes.
abbrev pub at_hole : ℕ → ℕ → Bool → ℕ → Locals
at_hole h n add t = locals h (h + n - 8) add t

pub left_stage :
    (lh : Bool) (k : Kernel) (xs : List Block) (s n : ℕ) (back : List Block) (a t : ℕ)
    → Pending k (at_hole a n true t) (xs ++ (block lh s ∷ [])) n back
    → HasFooter k.memory (k.heap.start_address + total xs) s
    → HasFooter k.memory a n
    → let l = block lh s in
      let v = at_hole (joined_header k xs l) (with_left l n) (added l) t in
      (k' : Kernel) × (unify_left (at_hole a n true t) k ≡ (v, k'))
      × Pending k' v (kept_left xs l) (with_left l n) back
      × HasFooter k'.memory v.header (with_left l n)
      × ((x : ℕ) → (x < v.header) ⊎ (a + n ≤ x) → k'.memory x ≡ k.memory x)
left_stage true k xs s n back a t p f g =
    let (k', e, q, _, foots, frame) = unify_left-Pending k xs s n back a t p f g.magic in
    let here : a ≡ k.heap.start_address + total xs + s =
      omega (arith, p.header, total-append xs (hole s ∷ [])) in
    let foot : a + n - 8 ≡ k.heap.start_address + total xs + (s + n) - 8 = omega (arith, here) in
    let v = ap (λ g. locals (k.heap.start_address + total xs) g false t) foot in
    (k', e ∙ ap (λ v. (v, k')) v, subst (λ v. Pending k' v xs (s + n) back) v q, foots, frame)
left_stage false k xs s n back a t p f g =
    let tiles : Tiles k.memory k.heap.start_address (xs ++ (used s ∷ hole n ∷ back))
        k.heap.end_address =
      subst (λ l. Tiles k.memory k.heap.start_address l k.heap.end_address)
        (append_assoc xs (used s ∷ []) (hole n ∷ back)) p.tiles in
    let left =
      block_at k.memory k.heap.start_address xs (used s) (hole n ∷ back) k.heap.end_address tiles in
    let ends =
      block-le-end k.memory k.heap.start_address xs (used s) (hole n ∷ back) k.heap.end_address
        tiles in
    let here : k.heap.start_address + total xs + s ≡ a =
      omega (arith, p.header, total-append xs (used s ∷ [])) in
    let below = p.below in
    let e =
      unify_left-used (at_hole a n true t) k (k.heap.start_address + total xs) s left here
        (omega arith) in
    let at : a ≡ k.heap.start_address + total (xs ++ (used s ∷ [])) = p.header in
    let same : at_hole a n true t
        ≡ at_hole (k.heap.start_address + total (xs ++ (used s ∷ []))) n true t =
      ap (λ h. at_hole h n true t) at in
    (
      k,
      e ∙ ap (λ v. (v, k)) same,
      subst (λ v. Pending k v (xs ++ (used s ∷ [])) n back) same p,
      subst (λ h. HasFooter k.memory h n) at g,
      λ x o. refl,
    )

pub right_stage :
    (rh : Bool) (k : Kernel) (h n r t : ℕ) (add : Bool) (front ys : List Block)
    → Pending k (at_hole h n add t) front n (block rh r ∷ ys)
    → 0 < total (kept_right (block rh r) ys)
    → let v = at_hole h (with_right n (block rh r)) add (h + n) in
      (k' : Kernel) × (unify_right (at_hole h n add t) k ≡ ok (v, k'))
      × Pending k' v front (with_right n (block rh r)) (kept_right (block rh r) ys)
      × (v.footer + 8 < k'.heap.end_address)
      × ((x : ℕ) → (x < h) ⊎ (h + 12 ≤ x) → k'.memory x ≡ k.memory x)
right_stage true k h n r t add front ys p more =
    let (k', e, q, wrote, _) = unify_right-Pending k h n r t add front ys p in
    let ends =
      block-le-end k'.memory k'.heap.start_address front (hole (n + r)) ys k'.heap.end_address
        q.tiles in
    (
      k',
      e,
      q,
      omega (arith, q.footer, q.header),
      λ x o. ap (λ m. m x) wrote ∙ store32-ne k.memory (h + 8) x (n + r) (omega arith),
    )
right_stage false k h n r t add front ys p more =
    let tiles =
      Tiles-split k.memory k.heap.start_address front (hole n ∷ used r ∷ ys) k.heap.end_address
        p.tiles in
    let ends =
      block-le-end k.memory k.heap.start_address front (hole n) (used r ∷ ys) k.heap.end_address
        p.tiles in
    let right = tiles.1.1.0 in
    let room = right.room in
    let here : k.heap.start_address + total front + n ≡ h + n = omega (arith, p.header) in
    let right' : IsBlock k.memory (h + n) (used r) =
      subst (λ x. IsBlock k.memory x (used r)) here right in
    let e =
      unify_right-used (at_hole h n add t) k (h + n) r right' p.footer
        (omega (arith, here, p.below)) in
    (
      k,
      e,
      record {
        header = p.header;
        footer = p.footer;
        tiles = p.tiles;
        below = p.below;
        indexed = p.indexed;
        compares = p.compares;
        spare_slot = p.spare_slot;
        small_index = p.small_index;
      },
      omega (arith, p.footer, here),
      λ x o. refl,
    )

-- A hole that does not end the heap leaves its end alone.
pub shrink-inside :
    (v : Locals) (k : Kernel)
    → v.footer + 8 < k.heap.end_address
    → k.heap.end_address < 2 ^ 32
    → shrink v k ≡ ok k
unfolding shrink
shrink-inside v k lt below =
    else-branch _ (ne→eqb_false (add32 v.footer 8) k.heap.end_address (omega arith))

-- With the block `b` to the left or without it, the hole ends where the freed block does.
pub end_of :
    (lh : Bool) (start s n : ℕ) (xs : List Block)
    → let b = block lh s in
      start + total (kept_left xs b) + with_left b n ≡ start + total (xs ++ (b ∷ [])) + n
end_of true start s n xs = omega (arith, total-append xs (hole s ∷ []))
end_of false start s n xs = refl
