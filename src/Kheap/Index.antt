-- ===== src/Kheap/Index.antt =====
-- The index of a heap as a collection of addresses: how often each one is in it.
use ahk_main.Base.{
  ℕ, zero, suc, ◌+◌, ◌≤◌, ◌<◌, ◌≡◌, refl, Bool, true, false, List, [], ◌∷◌, inl, inr, Option, none,
  some, Result, ok, ltb, lt→ltb, ◌==◌, length, take, get_or, read-ok, Bool-cases, arith,
}
use ahk_main.Memory.{Memory}
use ahk_main.OrderedArray.{OrderedArray, lookup_ordered_array}
use ahk_main.OrderedArray.Insert.{insert_before}
use ahk_main.OrderedArray.Remove.{remove_at}
use ahk_main.Kheap.Blocks.{count}
use ahk_main.Kheap.Holes.{find_from}

pub count-insert_before :
    (before : ℕ → Bool) (item x : ℕ) (xs : List ℕ)
    → count x (insert_before before item xs) ≡ count x (item ∷ xs)
unfolding insert_before
count-insert_before before item x [] = refl
count-insert_before before item x (y ∷ ys) = ground (arith, count-insert_before before item x ys)

-- Taking an entry away takes away one of its occurrences.
pub count-remove_at :
    (xs : List ℕ) (i x : ℕ) → i < length xs → count x (get_or xs i 0 ∷ remove_at xs i) ≡ count x xs
unfolding remove_at
count-remove_at [] i x h = absurd (omega arith)
count-remove_at (y ∷ ys) zero x h = refl
count-remove_at (y ∷ ys) (suc i) x h = omega (arith, count-remove_at ys i x (omega arith))

pub count_pos : (xs : List ℕ) (i : ℕ) → i < length xs → 0 < count (get_or xs i 0) xs
count_pos [] i h = absurd (omega arith)
count_pos (y ∷ ys) zero h = ground arith
count_pos (y ∷ ys) (suc i) h = omega (arith, count_pos ys i (omega arith))

-- An address that is in a list has a place in it.
pub place_of :
    (xs : List ℕ) (x : ℕ) → 0 < count x xs → (i : ℕ) × (i < length xs) × (get_or xs i 0 ≡ x)
place_of [] x h = absurd (omega arith)
place_of (y ∷ ys) x h = elim (Bool-cases (x == y)) [
  | inl e ↦ (0, omega arith, ground arith)
  | inr e ↦ let (i, p, q) = place_of ys x (ground arith) in (suc i, omega arith, q)
]

pub get_or-take : (n : ℕ) (xs : List ℕ) (i : ℕ) → i < n → get_or (take n xs) i 0 ≡ get_or xs i 0
get_or-take zero xs i h = absurd (omega arith)
get_or-take (suc n) [] i h = refl
get_or-take (suc n) (x ∷ xs) zero h = refl
get_or-take (suc n) (x ∷ xs) (suc i) h = get_or-take n xs i (omega arith)

module _ (index : OrderedArray Memory ℕ) where
  abbrev pub entry : ℕ → ℕ
  entry i = get_or index.array i 0

  pub lookup-entry :
      (i : ℕ)
      → i < index.size
      → index.size ≤ length index.array
      → lookup_ordered_array i index ≡ ok (entry i)
  unfolding lookup_ordered_array
  lookup-entry i used fits =
      let t : ltb i index.size ≡ true = lt→ltb i index.size used in
      rw t (read-ok index.array i 0 (omega arith))

  -- Where the search ends: at the first entry that passes the test, or at the end.
  pub data Search (fits : ℕ → Bool) (from : ℕ) (r : Result (Option ℕ)) : Type 0 where
    missed :
        r ≡ ok none
        → ((j : ℕ) → from ≤ j → j < index.size → fits (entry j) ≡ false)
        → Search fits from r
    found :
        (i : ℕ)
        → r ≡ ok (some i)
        → from ≤ i
        → i < index.size
        → fits (entry i) ≡ true
        → ((j : ℕ) → from ≤ j → j < i → fits (entry j) ≡ false)
        → Search fits from r

  find_from-Search :
      (fits : ℕ → Bool) (rounds from : ℕ)
      → from + rounds ≡ index.size
      → index.size ≤ length index.array
      → Search fits from (find_from fits rounds from index)
  unfolding find_from
  find_from-Search fits zero from e room = missed refl (λ j p q. absurd (omega arith))
  find_from-Search fits (suc rounds) from e room =
      rw (lookup-entry from (omega arith) room) (elim (Bool-cases (fits (entry from))) [
        | inl t ↦
            rw t (found from refl (omega arith) (omega arith) t (λ j p q. absurd (omega arith)))
        | inr f ↦ rw f (later f (find_from-Search fits rounds (suc from) (omega arith) room))
      ])
    where
      past :
          (j : ℕ)
          → from ≤ j
          → fits (entry from) ≡ false
          → (suc from ≤ j → fits (entry j) ≡ false)
          → fits (entry j) ≡ false
      past j p f h = elim (Bool-cases (from == j)) [
        | inl s ↦ let s' : j ≡ from = ground arith in rw s' f
        | inr s ↦ h (ground arith)
      ]

      later :
          {r : Result (Option ℕ)}
          → fits (entry from) ≡ false
          → Search fits (suc from) r
          → Search fits from r
      later f (missed e' none_fit) = missed e' (λ j p q. past j p f (λ l. none_fit j l q))
      later f (found i e' p q t before) =
          found i e' (omega arith) q t (λ j l u. past j l f (λ l'. before j l' u))

  pub find_from-Search_all :
      (fits : ℕ → Bool)
      → index.size ≤ length index.array
      → Search fits 0 (find_from fits index.size 0 index)
  find_from-Search_all fits room = find_from-Search fits index.size 0 (omega arith) room
