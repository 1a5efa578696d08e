-- ===== src/Kheap/Unify.antt =====
-- The two unifications of `free`: what they do to a tiling that they fit.
use mathlib.Core.List.{append_assoc}
use ahk_main.Base.{
  ℕ, zero, suc, ◌+◌, ◌-◌, ◌^◌, ◌≤◌, ◌<◌, ◌≡◌, refl, ap, sym, subst, ◌∙◌, Bool, true, false, inl,
  inr, List, [], ◌∷◌, ◌++◌, ok, ltb, lt→ltb, ◌==◌, if◌then◌else◌, length, add32, sub32, Bool-cases,
  arith, ◌⊎◌,
}
use ahk_main.Memory.{Memory}
use ahk_main.Memory.Laws.{Agree, store32-ne, load32-store32_ne, load32-store32_self}
use ahk_main.OrderedArray.{OrderedArray}
use ahk_main.OrderedArray.Contents.{contents}
use ahk_main.OrderedArray.Remove.{remove_ordered_array-Shrunk}
use ahk_main.Kernel.{Kernel}
use ahk_main.Kheap.Layout.{
  heap_magic, footer_magic, footer_header, header_block_size, set_index, set_header_size,
  set_footer_header, remove_from_index,
}
use ahk_main.Kheap.Blocks.{
  Block, hole, used, IsBlock, IsBlock-Agree, HasFooter, Tiles, Tiles-split, total-append,
  Tiles-replace, holes, count, count-holes-append, total,
}
use ahk_main.Kheap.Free.{Locals, unify_left, index_of, unify_right}
use ahk_main.Kheap.Index.{entry, lookup-entry, get_or-take, place_of}
use ahk_main.Kheap.Taken.{count-Shrunk, length-take_full}
use ahk_main.Kheap.Pending.{Pending, pending, locals, block_at, block-le-end, IsBlock-set_size}

-- A footer to the left whose block is in use stops the left unification.
pub unify_left-used :
    (v : Locals) (k : Kernel) (a s : ℕ)
    → IsBlock k.memory a (used s)
    → a + s ≡ v.header
    → v.header < 2 ^ 32
    → unify_left v k ≡ (v, k)
unfolding unify_left
unify_left-used v k a s i e fits =
    let room = i.room in
    let f = i.footer refl in
    let place : sub32 v.header 8 ≡ a + s - 8 = omega arith in rw (place, f.magic, f.header, i.kind)

-- Where the block to the left is a hole with its footer, the two become one hole.
pub unify_left-Pending :
    (k : Kernel) (xs : List Block) (s n : ℕ) (back : List Block) (a t : ℕ)
    → Pending k (locals a (a + n - 8) true t) (xs ++ (hole s ∷ [])) n back
    → HasFooter k.memory (k.heap.start_address + total xs) s
    → footer_magic k.memory (a + n - 8) ≡ heap_magic
    → (k' : Kernel) × (unify_left (locals a (a + n - 8) true t) k
        ≡ (locals (k.heap.start_address + total xs) (a + n - 8) false t, k'))
      × Pending k' (locals (k.heap.start_address + total xs) (a + n - 8) false t) xs (s + n) back
      × (k'.heap ≡ k.heap)
      × HasFooter k'.memory (k.heap.start_address + total xs) (s + n)
      × ((x : ℕ) → (x < k.heap.start_address + total xs) ⊎ (a + n ≤ x) → k'.memory x ≡ k.memory x)
unfolding unify_left
unify_left-Pending k xs s n back a t p f g =
    let al : ℕ = k.heap.start_address + total xs in
    let m = k.memory in
    let end = k.heap.end_address in
    let list : (xs ++ (hole s ∷ [])) ++ (hole n ∷ back) ≡ xs ++ (hole s ∷ hole n ∷ back) =
      append_assoc xs (hole s ∷ []) (hole n ∷ back) in
    let tiles : Tiles m k.heap.start_address (xs ++ (hole s ∷ hole n ∷ back)) end =
      subst (λ l. Tiles m k.heap.start_address l end) list p.tiles in
    let here : a ≡ al + s = omega (arith, p.header, total-append xs (hole s ∷ [])) in
    let left = block_at m k.heap.start_address xs (hole s) (hole n ∷ back) end tiles in
    let block = (Tiles-split m k.heap.start_address xs (hole s ∷ hole n ∷ back) end tiles).1.1.0 in
    let ends = block-le-end m k.heap.start_address xs (hole s) (hole n ∷ back) end tiles in
    let room = left.room in
    let room' = block.room in
    let below = p.below in
    let m₁ : Memory = set_footer_header (a + n - 8) al m in
    let m₂ : Memory = set_header_size al (s + n) m₁ in
    let same₁ : Agree al (al + s) m m₁ = λ x p q. store32-ne m (a + n - 8 + 4) x al (omega arith) in
    let left₁ = IsBlock-Agree al same₁ left in
    let place : sub32 a 8 ≡ al + s - 8 = omega arith in
    let cache : header_block_size m a ≡ n = rw here block.size in
    let sum : add32 s n ≡ s + n = omega arith in
    let same_test : (x : ℕ)
        → pending true a x ≡ pending true (k.heap.start_address + total (xs ++ (hole s ∷ []))) x =
      λ x. ap (λ c. pending true c x) p.header in
    let sum_place : al + (s + n) ≡ al + s + n = omega arith in
    let last : al + (s + n) - 8 ≡ a + n - 8 = omega arith in
    let f₀ : ℕ = a + n - 8 in
    let foot : HasFooter m₂ al (s + n) = record {
      magic =
          ap (footer_magic m₂) last
          ∙ load32-store32_ne m₁ (al + 8) f₀ (s + n) (inl (omega arith))
          ∙ load32-store32_ne m (f₀ + 4) f₀ al (inr (omega arith))
          ∙ g;
      header =
          ap (footer_header m₂) last
          ∙ load32-store32_ne m₁ (al + 8) (f₀ + 4) (s + n) (inl (omega arith))
          ∙ load32-store32_self m (f₀ + 4) al
          ∙ omega arith;
    } in
    (
      record k { memory = m₂ },
      rw (place, f.magic, f.header, left.kind, cache, left₁.size, sum) refl,
      record {
        header = refl;
        footer = omega arith;
        tiles =
            Tiles-replace m m₂ k.heap.start_address xs (hole s ∷ hole n ∷ []) (hole (s + n) ∷ [])
              back end (omega arith) tiles
              (λ x o.
                store32-ne m₁ (al + 8) x (s + n) (omega arith)
                ∙ store32-ne m (a + n - 8 + 4) x al (omega arith))
              (IsBlock-set_size m₁ al s (s + n) left₁ (omega arith) (omega arith), omega arith);
        below = p.below;
        indexed = λ x. omega (
          arith,
          p.indexed x,
          count-holes-append x k.heap.start_address (xs ++ (hole s ∷ [])) (hole n ∷ back),
          count-holes-append x k.heap.start_address xs (hole s ∷ []),
          count-holes-append x k.heap.start_address xs (hole (s + n) ∷ back),
          same_test x,
          ap (λ c. count x (holes (c + n) back)) (sym p.header ∙ here),
          ap (λ c. count x (holes c back)) sum_place,
        );
        compares = p.compares;
        spare_slot = omega (arith, p.spare_slot);
        small_index = p.small_index;
      },
      refl,
      foot,
      λ x o.
          store32-ne m₁ (al + 8) x (s + n) (omega arith)
          ∙ store32-ne m (a + n - 8 + 4) x al (omega arith),
    )

module _ (item : ℕ) (index : OrderedArray Memory ℕ) (room : index.size ≤ length index.array) where
  -- The search for an item that is listed ends at it.
  index_of-found :
      (rounds from j : ℕ)
      → from + rounds ≡ index.size
      → from ≤ j
      → j < index.size
      → entry index j ≡ item
      → (i : ℕ) × (index_of item rounds from index ≡ ok i)
        × (i < index.size)
        × (entry index i ≡ item)
  unfolding index_of
  index_of-found zero from j e le lt here = absurd (omega arith)
  index_of-found (suc rounds) from j e le lt here =
      rw (lookup-entry index from (omega arith) room)
        (elim (Bool-cases (entry index from == item)) [
          | inl same ↦ (from, rw same refl, omega arith, ground arith)
          | inr other ↦
              rw other (index_of-found rounds (suc from) j (omega arith) (later other) lt here)
        ])
    where
      later : (entry index from == item) ≡ false → suc from ≤ j
      later other = elim (Bool-cases (from == j)) [
        | inl s ↦ let s' : from ≡ j = ground arith in absurd (ground (arith, ap (entry index) s'))
        | inr d ↦ ground arith
      ]

-- A block to the right that is in use stops the right unification.
pub unify_right-used :
    (v : Locals) (k : Kernel) (b s : ℕ)
    → IsBlock k.memory b (used s)
    → v.footer + 8 ≡ b
    → b < 2 ^ 32
    → unify_right v k ≡ ok (record v { test_header = b }, k)
unfolding unify_right
unify_right-used v k b s i e fits =
    let place : add32 v.footer 8 ≡ b = omega arith in rw (place, i.magic, i.kind)

module _ (k : Kernel) (h n r t : ℕ) (add : Bool) (front ys : List Block)
    (p : Pending k (locals h (h + n - 8) add t) front n (hole r ∷ ys)) where
  abbrev start : ℕ
  start = k.heap.start_address

  abbrev b : ℕ
  b = h + n

  tiling : Tiles k.memory h (hole n ∷ hole r ∷ ys) k.heap.end_address
  tiling =
      subst (λ x. Tiles k.memory x (hole n ∷ hole r ∷ ys) k.heap.end_address) (sym p.header)
        (Tiles-split k.memory start front (hole n ∷ hole r ∷ ys) k.heap.end_address p.tiles).1

  -- How often an address is a hole, with the two holes set apart.
  holes_of :
      (x : ℕ)
      → pending add h x + count x (contents k.heap.index)
        ≡ count x (holes start front)
          + ((if x == h then 1 else 0) + ((if x == b then 1 else 0) + count x (holes (b + r) ys)))
  holes_of x =
      p.indexed x ∙ count-holes-append x start front (hole n ∷ hole r ∷ ys) ∙ rw (← p.header) refl

  -- The holes from the place of the merged one.
  after :
      (x : ℕ)
      → count x (holes (start + total front) (hole (n + r) ∷ ys))
        ≡ (if x == h then 1 else 0) + count x (holes (b + r) ys)
  after x = let e : h + (n + r) ≡ b + r = omega arith in rw (← p.header, e) refl

  spare : k.heap.index.size < length k.heap.index.array
  spare = ground (arith, p.spare_slot)

  listed : 0 < count b (contents k.heap.index)
  listed = let room = tiling.0.room in ground (arith, holes_of b)

  -- The hole to the right is in the index.
  right_place :
      (i : ℕ) × (index_of b k.heap.index.size 0 k.heap.index ≡ ok i)
      × (i < k.heap.index.size)
      × (entry k.heap.index i ≡ b)
  right_place =
      let (j, inside, e) = place_of (contents k.heap.index) b listed in
      let full = length-take_full k.heap.index.size k.heap.index.array (omega (arith, spare)) in
      let lt : j < k.heap.index.size = omega (arith, full, inside) in
      index_of-found b k.heap.index (omega (arith, spare)) k.heap.index.size 0 j (omega arith)
        (omega arith) lt (sym (get_or-take k.heap.index.size k.heap.index.array j lt) ∙ e)

  abbrev merged : Memory
  merged = set_header_size h (n + r) k.memory

  -- The right unification takes the hole to the right in and takes its entry from the index.
  pub unify_right-Pending :
      (k' : Kernel) × (unify_right (locals h (h + n - 8) add t) k
        ≡ ok (locals h (h + (n + r) - 8) add b, k'))
      × Pending k' (locals h (h + (n + r) - 8) add b) front (n + r) ys
      × (k'.memory ≡ merged)
      × (k'.heap.end_address ≡ k.heap.end_address)
  unfolding unify_right remove_from_index
  unify_right-Pending =
      let (i, found, lt, at) = right_place in
      let m = k.memory in
      let block = tiling.0 in
      let right = tiling.1.0 in
      let room = block.room in
      let room' = right.room in
      let ends = block-le-end m start front (hole n) (hole r ∷ ys) k.heap.end_address p.tiles in
      let below = p.below in
      let header = p.header in
      let s = remove_ordered_array-Shrunk i k.heap.index lt spare p.small_index in
      let place : add32 (h + n - 8) 8 ≡ b = omega arith in
      let sum : add32 n r ≡ n + r = omega arith in
      let same : Agree b (b + r) m merged = λ x p q. store32-ne m (h + 8) x (n + r) (omega arith) in
      let right' = IsBlock-Agree b same right in
      let foot : sub32 (add32 b r) 8 ≡ h + (n + r) - 8 = omega arith in
      let test : ltb i k.heap.index.size ≡ true = lt→ltb i k.heap.index.size lt in
      (
        set_index s.out (record k { memory = merged }),
        rw
            (
              place, right.magic, right.kind, block.size, right.size, sum, found, test, s.returns,
              right'.size, foot,
            )
            refl,
        record {
          header = p.header;
          footer = omega arith;
          tiles =
              Tiles-replace m merged start front (hole n ∷ hole r ∷ []) (hole (n + r) ∷ []) ys
                k.heap.end_address (omega arith) p.tiles
                (λ x o. store32-ne m (h + 8) x (n + r) (omega arith))
                (
                  subst (λ x. IsBlock merged x (hole (n + r))) header
                      (IsBlock-set_size m h n (n + r) block (omega arith) (omega arith)),
                  omega arith,
                );
          below = p.below;
          indexed = λ x. omega (
            arith,
            rw at at (count-Shrunk i k.heap.index s x lt spare),
            holes_of x,
            count-holes-append x start front (hole (n + r) ∷ ys),
            after x,
          );
          compares = s.same_less_than ∙ p.compares;
          spare_slot = ground (arith, p.spare_slot, s.size_suc, s.same_slots);
          small_index = omega (arith, s.same_slots, p.small_index);
        },
        refl,
        refl,
      )
