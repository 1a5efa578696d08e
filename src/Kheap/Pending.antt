-- ===== src/Kheap/Pending.antt =====
-- `free`, step by step: between its first write and its last the block is a hole of the tiling, and
-- its header may not be in the index yet.
use ahk_main.Base.{
  ℕ, suc, ◌+◌, ◌-◌, ◌^◌, ◌≤◌, ◌<◌, ◌≡◌, refl, ap, ◌∙◌, Bool, true, inl, inr, some, List, [], ◌∷◌,
  ◌++◌, ok, ◌==◌, if◌then◌else◌, length, Bool-cases, arith,
}
use ahk_main.Memory.{Memory}
use ahk_main.Memory.Laws.{
  Agree, load32-Agree, load32-store32_self, store32-ne, store8-ne, store8_self,
}
use ahk_main.OrderedArray.Contents.{contents}
use ahk_main.Kernel.{Kernel}
use ahk_main.Kheap.Layout.{
  header_t_less_than, on_memory, set_index, insert_in_index, set_is_hole, set_header_size,
}
use ahk_main.Kheap.Blocks.{
  Block, hole, used, IsBlock, Tiles, Tiles-split, Tiles-end, Tiles-replace, holes, count,
  count-holes-append, total,
}
use ahk_main.Kheap.Invariant.{Inv}
use ahk_main.Kheap.Free.{Locals}
use ahk_main.Kheap.Index.{count-insert_before}
use ahk_main.Kheap.Taken.{insert_in_index-ok}
use ahk_main.OrderedArray.Insert.{insert_ordered_array-Inserted}

abbrev pub pending : Bool → ℕ → ℕ → ℕ
pending do_add header x = if do_add then (if x == header then 1 else 0) else 0

abbrev pub locals : ℕ → ℕ → Bool → ℕ → Locals
locals h f add t = record { header = h; footer = f; do_add = add; test_header = t }

-- The block of `v` is the hole of `n` bytes behind `front`; with its header, where it is still to be
-- added, the index holds the holes.
pub record Pending (k : Kernel) (v : Locals) (front : List Block) (n : ℕ) (back : List Block)
    : Type 0 where
  pub header : v.header ≡ k.heap.start_address + total front
  pub footer : v.footer + 8 ≡ v.header + n
  pub tiles : Tiles k.memory k.heap.start_address (front ++ (hole n ∷ back)) k.heap.end_address
  pub below : k.heap.end_address < 2 ^ 32
  pub indexed :
      (x : ℕ)
      → pending v.do_add v.header x + count x (contents k.heap.index)
        ≡ count x (holes k.heap.start_address (front ++ (hole n ∷ back)))
  pub compares : k.heap.index.less_than ≡ some header_t_less_than
  pub spare_slot :
      (if v.do_add then suc k.heap.index.size else k.heap.index.size) < length k.heap.index.array
  pub small_index : length k.heap.index.array < 2 ^ 32

-- The block of a tiling behind some others.
pub block_at :
    (m : Memory) (a : ℕ) (front : List Block) (b : Block) (back : List Block) (end : ℕ)
    → Tiles m a (front ++ (b ∷ back)) end
    → IsBlock m (a + total front) b
block_at m a front b back end t = (Tiles-split m a front (b ∷ back) end t).1.0

pub block-le-end :
    (m : Memory) (a : ℕ) (front : List Block) (b : Block) (back : List Block) (end : ℕ)
    → Tiles m a (front ++ (b ∷ back)) end
    → a + total front + (b.size + total back) ≡ end
block-le-end m a front b back end t =
    omega
      (arith, Tiles-end m (a + total front) (b ∷ back) (Tiles-split m a front (b ∷ back) end t).1)

-- Setting `is_hole` of a block in use makes it a hole.
pub IsBlock-set_is_hole :
    (m : Memory) (a n : ℕ) → IsBlock m a (used n) → IsBlock (set_is_hole a 1 m) a (hole n)
IsBlock-set_is_hole m a n i =
    let low : Agree a (a + 4) m (set_is_hole a 1 m) =
      λ x p q. store8-ne m (a + 4) x 1 (omega arith) in
    let high : Agree (a + 8) (a + 12) m (set_is_hole a 1 m) =
      λ x p q. store8-ne m (a + 4) x 1 (omega arith) in
    record {
      room = i.room;
      magic = load32-Agree a low (omega arith) (omega arith) ∙ i.magic;
      kind = store8_self m (a + 4) 1;
      size = load32-Agree (a + 8) high (omega arith) (omega arith) ∙ i.size;
      footer = λ e. absurd (cc e);
    }

-- Setting the size of a hole makes it a hole of that size.
pub IsBlock-set_size :
    (m : Memory) (a n n' : ℕ)
    → IsBlock m a (hole n)
    → 20 ≤ n'
    → n' < 2 ^ 32
    → IsBlock (set_header_size a n' m) a (hole n')
IsBlock-set_size m a n n' i room fits =
    let low : Agree a (a + 8) m (set_header_size a n' m) =
      λ x p q. store32-ne m (a + 8) x n' (omega arith) in
    record {
      room = room;
      magic = load32-Agree a low (omega arith) (omega arith) ∙ i.magic;
      kind = low (a + 4) (omega arith) (omega arith) ∙ i.kind;
      size = omega (arith, load32-store32_self m (a + 8) n');
      footer = λ e. absurd (cc e);
    }

-- The first step of `free`: the block is marked as a hole.
pub mark-Pending :
    (k : Kernel) (front : List Block) (n : ℕ) (back : List Block)
    → Inv k (front ++ (used n ∷ back))
    → suc k.heap.index.size < length k.heap.index.array
    → let a = k.heap.start_address + total front in
      Pending (on_memory (set_is_hole a 1) k) (locals a (a + n - 8) true 0) front n back
mark-Pending k front n back inv slot =
    let a : ℕ = k.heap.start_address + total front in
    let m = k.memory in
    let block = block_at m k.heap.start_address front (used n) back k.heap.end_address inv.tiles in
    let room = block.room in
    let m' : Memory = set_is_hole a 1 m in
    record {
      header = refl;
      footer = omega arith;
      tiles =
          Tiles-replace m m' k.heap.start_address front (used n ∷ []) (hole n ∷ []) back
            k.heap.end_address refl inv.tiles (λ x o. store8-ne m (a + 4) x 1 (omega arith))
            (IsBlock-set_is_hole m a n block, omega arith);
      below = inv.below;
      indexed = λ x. omega (
        arith,
        inv.indexed x,
        count-holes-append x k.heap.start_address front (used n ∷ back),
        count-holes-append x k.heap.start_address front (hole n ∷ back),
      );
      compares = inv.compares;
      spare_slot = slot;
      small_index = inv.small_index;
    }

-- The last step: the header goes into the index, if it is not there.
pub insert-Inv :
    (k : Kernel) (v : Locals) (front : List Block) (n : ℕ) (back : List Block)
    → Pending k v front n back
    → (k' : Kernel) × ((if v.do_add then insert_in_index v.header k else ok k) ≡ ok k')
      × Inv k' (front ++ (hole n ∷ back))
      × (k'.memory ≡ k.memory)
insert-Inv k v front n back p = elim (Bool-cases v.do_add) [
  | inl e ↦
      let slot = rw e at p.spare_slot in
      let ins =
        insert_ordered_array-Inserted k.memory v.header k.heap.index header_t_less_than p.compares
          (omega arith) p.small_index in
      (
        set_index ins.out k,
        rw e (insert_in_index-ok v.header k ins.returns),
        record {
          tiles = p.tiles;
          below = p.below;
          indexed = λ x.
              ap (count x) ins.entries
              ∙ count-insert_before (λ y. header_t_less_than k.memory y v.header) v.header x
                  (contents k.heap.index)
              ∙ rw e at (p.indexed x);
          compares = ins.same_less_than ∙ p.compares;
          spare_slot = omega (arith, ins.size_suc, ins.same_slots, slot);
          small_index = omega (arith, ins.same_slots, p.small_index);
        },
        refl,
      )
  | inr e ↦ (
    k,
    rw e refl,
    record {
      tiles = p.tiles;
      below = p.below;
      indexed = λ x. omega (arith, rw e at (p.indexed x));
      compares = p.compares;
      spare_slot = rw e at p.spare_slot;
      small_index = p.small_index;
    },
    refl,
  )
]
