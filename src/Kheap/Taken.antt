-- ===== src/Kheap/Taken.antt =====
-- What `alloc` does with the hole that it found: it takes it whole or cuts it, and the heap stays sound.
use ahk_main.Base.{
  ℕ, zero, suc, ◌+◌, ◌-◌, ◌≤◌, ◌<◌, ◌≡◌, refl, ap, ◌∙◌, true, false, ◌⊎◌, inl, inr, List, [], ◌∷◌,
  ◌++◌, Result, ok, ◌>>=◌, ltb, lt→ltb, le→ltb_false, ◌==◌, if◌then◌else◌, length, take, Bool-cases,
  arith,
}
use ahk_main.Memory.{Memory}
use ahk_main.OrderedArray.{OrderedArray, insert_ordered_array, remove_ordered_array}
use ahk_main.OrderedArray.Contents.{contents}
use ahk_main.OrderedArray.Insert.{insert_ordered_array-Inserted}
use ahk_main.OrderedArray.Remove.{Shrunk, remove_ordered_array-Shrunk}
use ahk_main.Kernel.{Kernel}
use ahk_main.Kheap.Layout.{header_t_less_than, on_memory, set_index, insert_in_index}
use ahk_main.Kheap.Holes.{alloc_in, write_block, write_rest}
use ahk_main.Kheap.Blocks.{
  Block, hole, used, IsBlock, IsBlock-Agree, Tiles, Tiles-split, Tiles-end, Tiles-replace, holes,
  count, count-holes-append, total,
}
use ahk_main.Kheap.Cut.{write-HasFooter, write-IsBlock, write-ne, write_block-eq, write_rest-eq}
use ahk_main.Kheap.Index.{entry, lookup-entry, count-insert_before, count-remove_at, get_or-take}
use ahk_main.Kheap.Invariant.{Inv, Allocated}
use ahk_main.Kheap.Carve.{alloc_in-whole, alloc_in-split}

-- `insert_in_index` where the index has a slot to spare.
pub insert_in_index-ok :
    (item : ℕ) (k : Kernel) {r : OrderedArray Memory ℕ}
    → insert_ordered_array k.memory item k.heap.index ≡ ok r
    → insert_in_index item k ≡ ok (set_index r k)
unfolding insert_in_index
insert_in_index-ok item k e = rw e

pub length-take_full : (n : ℕ) (xs : List ℕ) → n ≤ length xs → length (take n xs) ≡ n
length-take_full zero xs h = refl
length-take_full (suc n) [] h = absurd (omega arith)
length-take_full (suc n) (x ∷ xs) h = ap suc (length-take_full n xs (omega arith))

-- Removing an entry takes away one occurrence of its address.
pub count-Shrunk :
    (i : ℕ) (o : OrderedArray Memory ℕ) {r : Result (OrderedArray Memory ℕ)} (s : Shrunk i o r)
    (x : ℕ)
    → i < o.size
    → o.size < length o.array
    → count x (entry o i ∷ contents s.out) ≡ count x (contents o)
count-Shrunk i o s x used spare =
    let full = length-take_full o.size o.array (omega arith) in
    let c = count-remove_at (contents o) i x (omega arith) in
    rw s.entries (rw (get_or-take o.size o.array i used) at c)

module _ (k : Kernel) (size i n : ℕ) (front back : List Block)
    (inv : Inv k (front ++ (hole n ∷ back))) (listed : i < k.heap.index.size)
    (at : entry k.heap.index i ≡ k.heap.start_address + total front) (enough : size + 20 ≤ n) where
  abbrev a : ℕ
  a = k.heap.start_address + total front

  tail-Tiles : Tiles k.memory a (hole n ∷ back) k.heap.end_address
  tail-Tiles =
      (Tiles-split k.memory k.heap.start_address front (hole n ∷ back) k.heap.end_address
        inv.tiles).1

  inside : a + n ≤ k.heap.end_address
  inside = omega (arith, Tiles-end k.memory (a + n) back tail-Tiles.1)

  shrunk : Shrunk i k.heap.index (remove_ordered_array i k.heap.index)
  shrunk = remove_ordered_array-Shrunk i k.heap.index listed inv.spare_slot inv.small_index

  -- With the hole's address the entries that are left are the holes.
  left_over :
      (x : ℕ)
      → (if x == a then 1 else 0) + count x (contents shrunk.out)
        ≡ count x (holes k.heap.start_address front)
          + ((if x == a then 1 else 0) + count x (holes (a + n) back))
  left_over x =
      let c = count-Shrunk i k.heap.index shrunk x listed inv.spare_slot in
      let c' = rw at at c in
      c' ∙ inv.indexed x ∙ count-holes-append x k.heap.start_address front (hole n ∷ back)

  -- The index after the hole's entry is gone and the hole `rest` behind the block, if any, is put in.
  count_new :
      (new : List Block) (x others : ℕ)
      → count x (holes a (new ++ back)) ≡ others + count x (holes (a + n) back)
      → others + count x (contents shrunk.out)
        ≡ count x (holes k.heap.start_address (front ++ (new ++ back)))
  count_new new x others e =
      omega (arith, left_over x, count-holes-append x k.heap.start_address front (new ++ back), e)

  whole-Allocated :
      n < size + 40 → Allocated size k (front ++ (hole n ∷ back)) (alloc_in i size 0 k)
  whole-Allocated tight =
      let end_fits = inv.below in
      let test : ltb (n - (size + 20)) 20 ≡ true = lt→ltb (n - (size + 20)) 20 (omega arith) in
      let lines = write_block-eq k.memory a n (omega arith) (omega (arith, inside)) in
      let m : Memory = write_block a (n - 20) n k.memory in
      let out : (x : ℕ) → (x < a) ⊎ (a + n ≤ x) → m x ≡ k.memory x =
        λ x o. rw lines (write-ne k.memory a (used n) x (omega arith) o) in
      let block : IsBlock m a (used n) =
        rw lines (write-IsBlock k.memory a (used n) (omega arith) (omega (arith, inside))) in
      record {
        after = on_memory (write_block a (n - 20) n) (set_index shrunk.out k);
        front = front;
        n = n;
        back = back;
        was = refl;
        enough = enough;
        returns =
            alloc_in-whole k i size n a
              (lookup-entry k.heap.index i listed (omega (arith, inv.spare_slot)) ∙ ap ok at)
              tail-Tiles.0.size shrunk.returns enough tight (omega (arith, inside));
        sound = rw test (record {
          tiles =
              Tiles-replace k.memory m k.heap.start_address front (hole n ∷ []) (used n ∷ []) back
                k.heap.end_address refl inv.tiles (λ x o. out x (omega arith)) (block, omega arith);
          below = inv.below;
          indexed = λ x. omega (arith, count_new (used n ∷ []) x 0 (omega arith));
          compares = shrunk.same_less_than ∙ inv.compares;
          spare_slot = omega (arith, shrunk.size_suc, shrunk.same_slots, inv.spare_slot);
          small_index = omega (arith, shrunk.same_slots, inv.small_index);
        });
        no_more_entries = omega (arith, shrunk.size_suc);
        same_slots = shrunk.same_slots;
        same_start = refl;
        elsewhere = out;
        rest_footer = λ e. absurd (ground (arith, test, e));
      }

  split-Allocated :
      size + 40 ≤ n → Allocated size k (front ++ (hole n ∷ back)) (alloc_in i size 0 k)
  split-Allocated loose =
      let end_fits = inv.below in
      let asked : ℕ = size + 20 in
      let rest : ℕ = n - asked in
      let b : ℕ = a + asked in
      let test : ltb rest 20 ≡ false = le→ltb_false rest 20 (omega arith) in
      let m₁ : Memory = write_block a size asked k.memory in
      let m₂ : Memory = write_rest b rest k.heap.end_address m₁ in
      let data_size : asked - 20 ≡ size = omega arith in
      let lines₁ =
        rw data_size at (write_block-eq k.memory a asked (omega arith) (omega (arith, inside))) in
      let lines₂ =
        write_rest-eq m₁ b rest k.heap.end_address (omega arith) (omega (arith, inside))
          inv.below in
      let out₁ : (x : ℕ) → (x < a) ⊎ (b ≤ x) → m₁ x ≡ k.memory x =
        λ x o. rw lines₁ (write-ne k.memory a (used asked) x (omega arith) o) in
      let out₂ : (x : ℕ) → (x < b) ⊎ (a + n ≤ x) → m₂ x ≡ m₁ x =
        λ x o. rw lines₂ (write-ne m₁ b (hole rest) x (omega arith) (omega arith)) in
      let block₁ : IsBlock m₁ a (used asked) =
        rw lines₁ (write-IsBlock k.memory a (used asked) (omega arith) (omega (arith, inside))) in
      let block₂ : IsBlock m₂ b (hole rest) =
        rw lines₂ (write-IsBlock m₁ b (hole rest) (omega arith) (omega (arith, inside))) in
      let ins =
        insert_ordered_array-Inserted m₂ b shrunk.out header_t_less_than
          (shrunk.same_less_than ∙ inv.compares)
          (omega (arith, shrunk.size_suc, shrunk.same_slots, inv.spare_slot))
          (omega (arith, shrunk.same_slots, inv.small_index)) in
      let wrote : Kernel =
        on_memory (λ m. write_rest b rest k.heap.end_address (write_block a size asked m))
          (set_index shrunk.out k) in
      record {
        after = set_index ins.out wrote;
        front = front;
        n = n;
        back = back;
        was = refl;
        enough = enough;
        returns =
            alloc_in-split k i size n a
              (lookup-entry k.heap.index i listed (omega (arith, inv.spare_slot)) ∙ ap ok at)
              tail-Tiles.0.size shrunk.returns loose (omega (arith, inside))
            ∙ ap (λ r. r >>= λ k'. ok (a + 12, k')) (insert_in_index-ok b wrote ins.returns);
        sound = rw test (record {
          tiles =
              Tiles-replace k.memory m₂ k.heap.start_address front (hole n ∷ [])
                (used asked ∷ hole rest ∷ []) back k.heap.end_address (omega arith) inv.tiles
                (λ x o. out₂ x (omega arith) ∙ out₁ x (omega arith))
                (IsBlock-Agree a (λ x p q. out₂ x (inl q)) block₁, (block₂, omega arith));
          below = inv.below;
          indexed = λ x.
              ap (count x) ins.entries
              ∙ count-insert_before (λ y. header_t_less_than m₂ y b) b x (contents shrunk.out)
              ∙ count_new (used asked ∷ hole rest ∷ []) x (if x == b then 1 else 0)
                  (ap (λ c. (if x == b then 1 else 0) + count x (holes c back)) (omega arith));
          compares = ins.same_less_than ∙ shrunk.same_less_than ∙ inv.compares;
          spare_slot = omega (
            arith, ins.size_suc, ins.same_slots, shrunk.size_suc, shrunk.same_slots, inv.spare_slot,
          );
          small_index = omega (arith, ins.same_slots, shrunk.same_slots, inv.small_index);
        });
        no_more_entries = omega (arith, ins.size_suc, shrunk.size_suc);
        same_slots = ins.same_slots ∙ shrunk.same_slots;
        same_start = refl;
        elsewhere = λ x o. out₂ x (omega arith) ∙ out₁ x (omega arith);
        rest_footer = λ e. rw lines₂ (write-HasFooter m₁ b (hole rest) (omega (arith, inside)));
      }

  pub alloc_in-Allocated : Allocated size k (front ++ (hole n ∷ back)) (alloc_in i size 0 k)
  alloc_in-Allocated = elim (Bool-cases (ltb n (size + 40))) [
    | inl e ↦ whole-Allocated (ground arith)
    | inr e ↦ split-Allocated (ground arith)
  ]
