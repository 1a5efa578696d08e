-- ===== src/Kheap/Checks.antt =====
-- What the search for a hole finds.
use ahk_main.Base.{
  ℕ, zero, suc, ◌≤◌, ◌<◌, ◌≡◌, Bool, false, inl, inr, Bool-cases, Option, none, some, List, [], ◌∷◌,
  Result, ok, ltb, leb, ◌==◌, length, get_or, arith,
}
use ahk_main.OrderedArray.Contents.{contents}
use ahk_main.OrderedArray.Sorted.{IsSorted, NoneBefore}
use ahk_main.Kernel.{Kernel}
use ahk_main.Kheap.Layout.{header_block_size, header_t_less_than}
use ahk_main.Kheap.Holes.{hole_fits, find_smallest_hole}
use ahk_main.Kheap.Index.{entry, Search, missed, found, find_from-Search_all, get_or-take}
use ahk_main.Kheap.Taken.{length-take_full}

NoneBefore-get_or :
    (lt : ℕ → ℕ → Bool) (x : ℕ) (xs : List ℕ) (j : ℕ)
    → NoneBefore lt x xs
    → j < length xs
    → lt (get_or xs j 0) x ≡ false
NoneBefore-get_or lt x [] j n h = absurd (omega arith)
NoneBefore-get_or lt x (y ∷ ys) zero n h = n.0
NoneBefore-get_or lt x (y ∷ ys) (suc j) n h = NoneBefore-get_or lt x ys j n.1 (omega arith)

-- In a sorted list no later entry precedes an earlier one.
IsSorted-get_or :
    (lt : ℕ → ℕ → Bool) (xs : List ℕ) (i j : ℕ)
    → IsSorted lt xs
    → i < j
    → j < length xs
    → lt (get_or xs j 0) (get_or xs i 0) ≡ false
IsSorted-get_or lt [] i j s u h = absurd (omega arith)
IsSorted-get_or lt (x ∷ xs) i zero s u h = absurd (omega arith)
IsSorted-get_or lt (x ∷ xs) zero (suc j) s u h = NoneBefore-get_or lt x xs j s.0 (omega arith)
IsSorted-get_or lt (x ∷ xs) (suc i) (suc j) s u h =
    IsSorted-get_or lt xs i j s.1 (omega arith) (omega arith)

-- `find_smallest_hole` without page alignment: no entry fits, or one that fits and is as small as any
-- that does.
pub data Smallest (size : ℕ) (k : Kernel) (r : Result (Option ℕ)) : Type 0 where
  too_small :
      r ≡ ok none
      → ((j : ℕ) → j < k.heap.index.size → header_block_size k.memory (entry k.heap.index j) < size)
      → Smallest size k r
  smallest :
      (i : ℕ)
      → r ≡ ok (some i)
      → i < k.heap.index.size
      → size ≤ header_block_size k.memory (entry k.heap.index i)
      → ((j : ℕ)
          → j < k.heap.index.size
          → size ≤ header_block_size k.memory (entry k.heap.index j)
          → header_block_size k.memory (entry k.heap.index i)
            ≤ header_block_size k.memory (entry k.heap.index j))
      → Smallest size k r

module _ (size : ℕ) (k : Kernel)
    (sorted : IsSorted (header_t_less_than k.memory) (contents k.heap.index))
    (room : k.heap.index.size ≤ length k.heap.index.array) where
  abbrev size_at : ℕ → ℕ
  size_at j = header_block_size k.memory (entry k.heap.index j)

  in_order : (i j : ℕ) → i < j → j < k.heap.index.size → size_at i ≤ size_at j
  in_order i j u h =
      let n = k.heap.index.size in
      let full = length-take_full n k.heap.index.array room in
      let lt =
        IsSorted-get_or (header_t_less_than k.memory) (contents k.heap.index) i j sorted u
          (omega (arith, full)) in
      let ei = get_or-take n k.heap.index.array i (omega arith) in
      let ej = get_or-take n k.heap.index.array j h in let lt' = rw (ei, ej) at lt in ground arith

  from_Search :
      {r : Result (Option ℕ)}
      → Search k.heap.index (λ h. leb size (header_block_size k.memory h)) 0 r
      → Smallest size k r
  from_Search (missed e none_fit) =
      too_small e (λ j h. let f = none_fit j (omega arith) h in ground arith)
  from_Search (found i e le listed fits before) = smallest i e listed (ground arith) (λ j h enough.
      elim (Bool-cases (ltb j i)) [
        | inl l ↦ let f = before j (omega arith) (ground arith) in absurd (ground arith)
        | inr g ↦ elim (Bool-cases (i == j)) [
          | inl s ↦ let s' : i ≡ j = ground arith in rw s' (omega arith)
          | inr d ↦ in_order i j (ground arith) h
        ]
      ])

  -- On an index whose entries have their slots and are sorted by the sizes in memory, `find_smallest_hole` without page alignment finds an entry of
  -- at least the asked size that is as small as any such entry, or finds that there is none.
  pub find_smallest_hole-Smallest : Smallest size k (find_smallest_hole size 0 k)
  unfolding find_smallest_hole hole_fits
  find_smallest_hole-Smallest =
      from_Search
        (find_from-Search_all k.heap.index (λ h. leb size (header_block_size k.memory h)) room)
