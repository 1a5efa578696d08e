-- ===== src/Kheap/Sequences.antt =====
-- A sequence of allocations: what they return, and what stays in place.
use ahk_main.Base.{
  ℕ, suc, ◌+◌, ◌≤◌, ◌<◌, ◌≡◌, ◌⊎◌, refl, sym, subst, ◌∙◌, inl, inr, List, [], ◌∷◌, ◌++◌, Result, ok,
  ◌>>=◌, arith,
}
use ahk_main.Kernel.{Kernel}
use ahk_main.Kheap.Blocks.{Block, hole, total}
use ahk_main.Kheap.Invariant.{Inv, cut, Allocated}
use ahk_main.Kheap.Alloc.{alloc}
use ahk_main.Kheap.Allocates.{alloc-Allocated}
use ahk_main.Kheap.Regions.{
  UsedAt, HoleIn, UsedAt-append, UsedAt-append_left, UsedAt-append_right, UsedAt-inside,
  HoleIn-split, cut-used, total-cut, HoleIn-cut,
}

-- `alloc` of each size, without page alignment: the pointers.
unfoldable pub alloc_all : ℕ → List ℕ → Kernel → Result (List ℕ × Kernel)
alloc_all fuel [] k = ok ([], k)
alloc_all fuel (size ∷ sizes) k = do
  (p, k') ← alloc fuel size 0 k
  (ps, k'') ← alloc_all fuel sizes k'
  ok (p ∷ ps, k'')

-- The room that the sizes take with their headers and footers.
abbrev pub needed : List ℕ → ℕ
needed [] = 0
needed (size ∷ sizes) = size + 20 + needed sizes

-- The `n` bytes at `x` overlap none of the regions.
abbrev pub ClearOf : ℕ → ℕ → List ℕ → List ℕ → Type 0
ClearOf x n (size ∷ sizes) (p ∷ ps) = ((x + n ≤ p) ⊎ (p + size ≤ x)) × ClearOf x n sizes ps
ClearOf x n [] [] = Unit
ClearOf x n [] (p ∷ ps) = ⊥
ClearOf x n (size ∷ sizes) [] = ⊥

-- There is a pointer for each size, and no two regions overlap.
abbrev pub AreDisjoint : List ℕ → List ℕ → Type 0
AreDisjoint (size ∷ sizes) (p ∷ ps) = ClearOf p size sizes ps × AreDisjoint sizes ps
AreDisjoint [] [] = Unit
AreDisjoint [] (p ∷ ps) = ⊥
AreDisjoint (size ∷ sizes) [] = ⊥

-- What becomes of a block in use: it stays, its bytes too, and no new region overlaps it.
pub record Stays (sizes ps : List ℕ) (k k' : Kernel) (bs' : List Block) (x n : ℕ) : Type 0 where
  pub in_use : UsedAt x n k.heap.start_address bs'
  pub bytes : (y : ℕ) → x ≤ y → y < x + n → k'.memory y ≡ k.memory y
  pub clear : ClearOf x n sizes ps

pub record Granted (sizes : List ℕ) (k : Kernel) (bs : List Block) (r : Result (List ℕ × Kernel))
    : Type 0 where
  pub pointers : List ℕ
  pub after : Kernel
  pub blocks : List Block
  pub returns : r ≡ ok (pointers, after)
  pub sound : Inv after blocks
  pub disjoint : AreDisjoint sizes pointers
  pub stays :
      (x n : ℕ) → UsedAt x n k.heap.start_address bs → Stays sizes pointers k after blocks x n

-- A region inside a block is clear of what the block is clear of.
ClearOf-inside :
    (x n y m : ℕ) (sizes ps : List ℕ)
    → x ≤ y
    → y + m ≤ x + n
    → ClearOf x n sizes ps
    → ClearOf y m sizes ps
ClearOf-inside x n y m [] [] lo hi c = tt
ClearOf-inside x n y m [] (p ∷ ps) lo hi c = elim c [ ]
ClearOf-inside x n y m (size ∷ sizes) [] lo hi c = elim c [ ]
ClearOf-inside x n y m (size ∷ sizes) (p ∷ ps) lo hi (here, c) = (
  elim here [ inl h ↦ inl (omega arith) | inr h ↦ inr (omega arith) ],
  ClearOf-inside x n y m sizes ps lo hi c,
)

-- One allocation: where the new block is, and where the old ones are.
record Placed (size : ℕ) (k k' : Kernel) (p : ℕ) (bs bs' : List Block) : Type 0 where
  block : ℕ
  length_of : ℕ
  pointer : p ≡ block + 12
  room : size + 20 ≤ length_of
  taken : UsedAt block length_of k.heap.start_address bs'
  kept :
      (x n : ℕ)
      → UsedAt x n k.heap.start_address bs
      → UsedAt x n k.heap.start_address bs'
        × ((y : ℕ) → x ≤ y → y < x + n → k'.memory y ≡ k.memory y)
        × ((x + n ≤ block) ⊎ (block + length_of ≤ x))

Allocated-Placed :
    (size : ℕ) (k : Kernel) (bs : List Block) {r : Result (ℕ × Kernel)} (a : Allocated size k bs r)
    → Placed size k a.after
        (k.heap.start_address + total a.front + 12)
        bs
        (a.front ++ (cut a.n (size + 20) ++ a.back))
Allocated-Placed size k bs a =
    let start = k.heap.start_address in
    let at = start + total a.front in
    let (m, big, fits, here) = cut-used a.n (size + 20) a.enough at a.back in
    let same = total-cut a.n (size + 20) a.enough in
    let bs' = cut a.n (size + 20) ++ a.back in
    record {
      block = at;
      length_of = m;
      pointer = refl;
      room = big;
      taken = UsedAt-append_right at m start a.front bs' here;
      kept = λ x n u.
          elim (UsedAt-append x n start a.front (hole a.n ∷ a.back)
            (subst (UsedAt x n start) a.was u)) [
              | inl v ↦
                  let i = UsedAt-inside x n start a.front v in
                  (
                    UsedAt-append_left x n start a.front bs' v,
                    λ y lo hi. a.elsewhere y (inl (omega arith)),
                    inl (omega arith),
                  )
              | inr (inl (e, f)) ↦ absurd (cc)
              | inr (inr v) ↦
                  let i = UsedAt-inside x n (at + a.n) a.back v in
                  let behind : at + a.n ≡ at + total (cut a.n (size + 20)) = omega arith in
                  (
                    UsedAt-append_right x n start a.front bs' (
                        UsedAt-append_right x n at (cut a.n (size + 20)) a.back
                          (subst (λ z. UsedAt x n z a.back) behind v)),
                    λ y lo hi. a.elsewhere y (inr (omega arith)),
                    inr (omega arith),
                  )
            ];
    }

abbrev RoomFor : List ℕ → List Block → Type 0
RoomFor [] bs = Unit
RoomFor (size ∷ sizes) bs = HoleIn (needed (size ∷ sizes)) bs

RoomFor-cut :
    (size n : ℕ) (sizes : List ℕ) (front back : List Block)
    → size + 20 ≤ n
    → HoleIn (needed (size ∷ sizes)) (front ++ (hole n ∷ back))
    → RoomFor sizes (front ++ (cut n (size + 20) ++ back))
RoomFor-cut size n [] front back enough h = tt
RoomFor-cut size n (next ∷ sizes) front back enough h =
    HoleIn-cut n (size + 20) enough (needed (next ∷ sizes)) front back (omega arith) h

alloc-HoleIn :
    (fuel size c : ℕ) (k : Kernel) (bs : List Block)
    → Inv k bs
    → HoleIn c bs
    → size + 20 ≤ c
    → Allocated size k bs (alloc (suc fuel) size 0 k)
alloc-HoleIn fuel size c k bs inv room le =
    let (xs, big, ys, e, fits) = HoleIn-split c bs room in
    subst (λ l. Allocated size k l (alloc (suc fuel) size 0 k)) (sym e)
      (alloc-Allocated fuel size k xs big ys (subst (Inv k) e inv) (omega arith))

alloc_all-RoomFor :
    (fuel : ℕ) (sizes : List ℕ) (k : Kernel) (bs : List Block)
    → Inv k bs
    → RoomFor sizes bs
    → Granted sizes k bs (alloc_all (suc fuel) sizes k)
unfolding alloc_all
alloc_all-RoomFor fuel [] k bs inv room = record {
  pointers = [];
  after = k;
  blocks = bs;
  returns = refl;
  sound = inv;
  disjoint = tt;
  stays = λ x n u. record { in_use = u; bytes = λ y lo hi. refl; clear = tt };
}
alloc_all-RoomFor fuel (size ∷ sizes) k bs inv room =
    let a = alloc-HoleIn fuel size (needed (size ∷ sizes)) k bs inv room (omega arith) in
    let placed = Allocated-Placed size k bs a in
    let bs' = a.front ++ (cut a.n (size + 20) ++ a.back) in
    let more =
      RoomFor-cut size a.n sizes a.front a.back a.enough
        (subst (HoleIn (needed (size ∷ sizes))) a.was room) in
    let g = alloc_all-RoomFor fuel sizes a.after bs' a.sound more in
    let p = k.heap.start_address + total a.front + 12 in
    let later : (x n : ℕ)
        → UsedAt x n k.heap.start_address bs'
        → Stays sizes g.pointers a.after g.after g.blocks x n =
      λ x n u. g.stays x n (subst (λ z. UsedAt x n z bs') (sym a.same_start) u) in
    let here = later placed.block placed.length_of placed.taken in
    let at = placed.pointer in
    let wide = placed.room in
    record {
      pointers = p ∷ g.pointers;
      after = g.after;
      blocks = g.blocks;
      returns = rw (a.returns, g.returns) refl;
      sound = g.sound;
      disjoint = (
        ClearOf-inside placed.block placed.length_of p size sizes g.pointers (omega arith)
            (omega arith) here.clear,
        g.disjoint,
      );
      stays = λ x n u.
          let (kept, bytes, apart) = placed.kept x n u in
          let s = later x n kept in
          record {
            in_use = subst (λ z. UsedAt x n z g.blocks) a.same_start s.in_use;
            bytes = λ y lo hi. s.bytes y lo hi ∙ bytes y lo hi;
            clear = (elim apart [ inl h ↦ inl (omega arith) | inr h ↦ inr (omega arith) ], s.clear);
          };
    }

-- A sequence of calls of `alloc`, without page alignment, on a sound heap with a hole that has room
-- for all of them with their headers and footers: every call returns, no two of the regions that are
-- returned overlap, and the heap is sound. Each block that was in use before is still in use, its
-- bytes are the same, and no new region overlaps it.
pub alloc_all-Granted :
    (fuel : ℕ) (sizes : List ℕ) (k : Kernel) (bs : List Block)
    → Inv k bs
    → HoleIn (needed sizes) bs
    → Granted sizes k bs (alloc_all (suc fuel) sizes k)
alloc_all-Granted fuel [] k bs inv room = alloc_all-RoomFor fuel [] k bs inv tt
alloc_all-Granted fuel (size ∷ sizes) k bs inv room =
    alloc_all-RoomFor fuel (size ∷ sizes) k bs inv room
