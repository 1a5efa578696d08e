-- ===== src/OrderedArray/Insert.antt =====
-- insert_ordered_array puts the item before the first one that does not precede it.
use ahk_main.Base.{
  ℕ, zero, suc, ◌-◌, ◌^◌, add32, ◌≤◌, ◌<◌, ◌≡◌, refl, ap, inl, inr, Bool, true, false, some, List,
  [], ◌∷◌, Result, ok, panic, fault, out_of_fuel, ◌>>=◌, read, write, ◌==◌, if◌then◌else◌, length,
  take, drop, Bool-cases, arith, bind_assoc, ◌∙◌,
}
use ahk_main.OrderedArray.{OrderedArray, LessThan, scan, shift_up, place_at, insert_ordered_array}
use ahk_main.OrderedArray.Contents.{contents}

module _ {ℓ} {A : Type ℓ} where
  -- The item goes in front of the first entry that `before` does not hold of.
  unfoldable pub insert_before : (A → Bool) → A → List A → List A
  insert_before before item [] = item ∷ []
  insert_before before item (x ∷ xs) =
      if before x then x ∷ insert_before before item xs else item ∷ x ∷ xs

  -- What the shifting loop leaves behind the item: the displaced entry, then the old ones.
  shifted : ℕ → A → List A → List A
  shifted zero tmp xs = xs
  shifted (suc n) tmp [] = []
  shifted (suc n) tmp (x ∷ xs) = tmp ∷ shifted n x xs

  length-shifted : (n : ℕ) (tmp : A) (xs : List A) → length (shifted n tmp xs) ≡ length xs
  unfolding shifted
  length-shifted zero tmp xs = refl
  length-shifted (suc n) tmp [] = refl
  length-shifted (suc n) tmp (x ∷ xs) = ap suc (length-shifted n x xs)

  take-shifted :
      (n : ℕ) (tmp : A) (xs : List A)
      → suc n ≤ length xs
      → take (suc n) (shifted (suc n) tmp xs) ≡ tmp ∷ take n xs
  unfolding shifted
  take-shifted zero tmp [] h = absurd (omega arith)
  take-shifted zero tmp (x ∷ xs) h = refl
  take-shifted (suc n) tmp [] h = absurd (omega arith)
  take-shifted (suc n) tmp (x ∷ xs) h = ap (λ l. tmp ∷ l) (take-shifted n x xs (omega arith))

  drop-shifted : (n : ℕ) (tmp : A) (xs : List A) → drop n (shifted n tmp xs) ≡ drop n xs
  unfolding shifted
  drop-shifted zero tmp xs = refl
  drop-shifted (suc n) tmp [] = refl
  drop-shifted (suc n) tmp (x ∷ xs) = drop-shifted n x xs

  scan-cons :
      (before : A → Bool) (n i : ℕ) (x : A) (xs : List A)
      → scan before n (suc i) (x ∷ xs) ≡ (scan before n i xs >>= λ j. ok (suc j))
  unfolding scan read
  scan-cons before zero i x xs = refl
  scan-cons before (suc n) i x xs = ground (arith, scan-cons before n (suc i) x xs)

  pub bind_cons :
      (x : A) (r : Result (List A)) (f g : List A → Result (List A))
      → ((l : List A) → f (x ∷ l) ≡ (g l >>= λ l'. ok (x ∷ l')))
      → (r >>= (λ l. ok (x ∷ l)) >>= f) ≡ (r >>= g >>= λ l. ok (x ∷ l))
  bind_cons x (ok l) f g h = h l
  bind_cons x panic f g h = refl
  bind_cons x fault f g h = refl
  bind_cons x out_of_fuel f g h = refl

  pub bind_same :
      (x : A) (r : Result A) (f g : A → Result (List A))
      → ((t : A) → f t ≡ (g t >>= λ l. ok (x ∷ l)))
      → (r >>= f) ≡ (r >>= g >>= λ l. ok (x ∷ l))
  bind_same x (ok t) f g h = h t
  bind_same x panic f g h = refl
  bind_same x fault f g h = refl
  bind_same x out_of_fuel f g h = refl

  shift_up-cons :
      (n i : ℕ) (tmp x : A) (xs : List A)
      → shift_up n (suc i) tmp (x ∷ xs) ≡ (shift_up n i tmp xs >>= λ l. ok (x ∷ l))
  unfolding shift_up read write
  shift_up-cons zero i tmp x xs = refl
  shift_up-cons (suc n) i tmp x xs =
      bind_same x (read xs (suc i)) _ _
        λ t. bind_cons x (write xs (suc i) tmp) _ _ λ l. shift_up-cons n (suc i) t x l

  shift_up-shifted :
      (n : ℕ) (tmp y : A) (xs : List A)
      → n ≤ length xs
      → shift_up n 0 tmp (y ∷ xs) ≡ ok (y ∷ shifted n tmp xs)
  unfolding shift_up shifted read write
  shift_up-shifted zero tmp y xs h = refl
  shift_up-shifted (suc n) tmp y [] h = absurd (omega arith)
  shift_up-shifted (suc n) tmp y (x ∷ xs) h =
      ground (arith, shift_up-cons n 0 x y (tmp ∷ xs), shift_up-shifted n x tmp xs)

  place_at-cons :
      (item : A) (s i : ℕ) (x : A) (xs : List A)
      → place_at item (suc s) (suc i) (x ∷ xs) ≡ (place_at item s i xs >>= λ l. ok (x ∷ l))
  unfolding place_at read write
  place_at-cons item s i x xs =
      let same : (suc i == suc s) ≡ (i == s) = ground arith in
      let rounds : suc s - suc i ≡ s - i = omega arith in
      rw (same, rounds)
        (elim (Bool-cases (i == s)) [
          | inl e ↦ rw e refl
          | inr e ↦ rw e (
              bind_same x (read xs i) _ _
                λ t. bind_cons x (write xs i item) _ _ λ l. shift_up-cons (s - i) i t x l)
        ])

  under_cons :
      (item : A) (s : ℕ) (x : A) (xs : List A) (r : Result ℕ)
      → (r >>= (λ j. ok (suc j)) >>= λ i. place_at item (suc s) i (x ∷ xs))
        ≡ (r >>= (λ i. place_at item s i xs) >>= λ l. ok (x ∷ l))
  under_cons item s x xs (ok i) = place_at-cons item s i x xs
  under_cons item s x xs panic = refl
  under_cons item s x xs fault = refl
  under_cons item s x xs out_of_fuel = refl

  place_at-front :
      (item : A) (s : ℕ) (x : A) (xs : List A)
      → suc s ≤ length xs
      → place_at item (suc s) 0 (x ∷ xs) ≡ ok (item ∷ shifted (suc s) x xs)
  unfolding place_at read write
  place_at-front item s x xs h =
      let differ : (0 == suc s) ≡ false = ground arith in
      let rounds : suc s - 0 ≡ suc s = omega arith in
      rw (differ, rounds) (shift_up-shifted (suc s) x item xs h)

  -- `r` is a normal return of the slots `xs`, the first `s` in use, with the item among them.
  pub record Placed (before : A → Bool) (item : A) (s : ℕ) (xs : List A) (r : Result (List A))
      : Type ℓ where
    pub out : List A
    pub returns : r ≡ ok out
    pub same_length : length out ≡ length xs
    pub entries : take (suc s) out ≡ insert_before before item (take s xs)
    pub same_behind : drop (suc s) out ≡ drop (suc s) xs

  Placed-cons :
      {before : A → Bool} {item : A} {s : ℕ} {xs : List A} {r : Result (List A)} (x : A)
      → before x ≡ true
      → Placed before item s xs r
      → Placed before item (suc s) (x ∷ xs) (r >>= λ l. ok (x ∷ l))
  unfolding insert_before
  Placed-cons x e p = record {
    out = x ∷ p.out;
    returns = rw p.returns;
    same_length = ap suc p.same_length;
    entries = rw e (ap (λ l. x ∷ l) p.entries);
    same_behind = p.same_behind;
  }

  pub place-Placed :
      (before : A → Bool) (item : A) (s : ℕ) (xs : List A)
      → s < length xs
      → Placed before item s xs (scan before s 0 xs >>= λ i. place_at item s i xs)
  unfolding scan place_at insert_before read write
  place-Placed before item s [] h = absurd (omega arith)
  place-Placed before item zero (x ∷ xs) h = record {
    out = item ∷ xs;
    returns = refl;
    same_length = refl;
    entries = refl;
    same_behind = refl;
  }
  place-Placed before item (suc s) (x ∷ xs) h = elim (Bool-cases (before x)) [
    | inl e ↦
        rw (e, scan-cons before s 0 x xs, under_cons item s x xs (scan before s 0 xs))
          (Placed-cons x e (place-Placed before item s xs (omega arith)))
    | inr e ↦
        rw (e, place_at-front item s x xs (omega arith))
          (record {
            out = item ∷ shifted (suc s) x xs;
            returns = refl;
            same_length = ap suc (length-shifted (suc s) x xs);
            entries = rw e (ap (λ l. item ∷ l) (take-shifted s x xs (omega arith)));
            same_behind = drop-shifted (suc s) x xs;
          })
  ]

module _ {ℓ κ} {M : Type ℓ} {A : Type κ} where
  pub record Inserted (before : A → Bool) (item : A) (o : OrderedArray M A)
      (r : Result (OrderedArray M A)) : Type (ℓ ⊔ κ) where
    pub out : OrderedArray M A
    pub returns : r ≡ ok out
    pub entries : contents out ≡ insert_before before item (contents o)
    pub same_behind : drop (suc o.size) out.array ≡ drop (suc o.size) o.array
    pub same_slots : length out.array ≡ length o.array
    pub size_suc : out.size ≡ suc o.size
    pub same_max_size : out.max_size ≡ o.max_size
    pub same_less_than : out.less_than ≡ o.less_than

  -- `insert_ordered_array` into an array with a predicate and a free slot returns; the entries in use
  -- are the old ones with the item in front of the first one that does not precede it, and the slots
  -- behind them, the number of slots, the predicate and `max_size` do not change.
  pub insert_ordered_array-Inserted :
      (m : M) (item : A) (o : OrderedArray M A) (f : LessThan M A)
      → o.less_than ≡ some f
      → o.size < length o.array
      → length o.array < 2 ^ 32
      → Inserted (λ x. f m x item) item o (insert_ordered_array m item o)
  unfolding insert_ordered_array
  insert_ordered_array-Inserted m item o f e room fits =
      let p = place-Placed (λ x. f m x item) item o.size o.array room in
      let count : add32 o.size 1 ≡ suc o.size = omega arith in
      record {
        out = record o { array = p.out; size = suc o.size };
        returns =
            rw (e, count)
              (bind_assoc (scan (λ x. f m x item) o.size 0 o.array) _ _
                ∙ ap
                    (λ r. r >>= λ a. ok (record {
                      array = a;
                      size = suc o.size;
                      max_size = o.max_size;
                      less_than = some f;
                    }))
                    p.returns);
        entries = p.entries;
        same_behind = p.same_behind;
        same_slots = p.same_length;
        size_suc = refl;
        same_max_size = refl;
        same_less_than = refl;
      }
