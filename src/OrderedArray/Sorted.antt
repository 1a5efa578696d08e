-- ===== src/OrderedArray/Sorted.antt =====
-- Insertion keeps an ordered array sorted, and adds the item to its entries.
use mathlib.Core.List.{Perm}
use mathlib.Core.List.Perm
use ahk_main.Base.{
  ◌^◌, ◌<◌, ◌≡◌, Bool, true, false, inl, inr, some, List, [], ◌∷◌, Result, ok, Bool-cases, length,
}
use ahk_main.OrderedArray.{OrderedArray, LessThan, insert_ordered_array}
use ahk_main.OrderedArray.Contents.{contents}
use ahk_main.OrderedArray.Insert.{insert_before, insert_ordered_array-Inserted}

module _ {ℓ} {A : Type ℓ} (lt : A → A → Bool) where
  -- A predicate that orders by a key, as the comparison of sizes does.
  pub record IsStrictWeakOrder : Type ℓ where
    pub asymmetric : (x y : A) → lt x y ≡ true → lt y x ≡ false
    pub negatively_transitive : (x y z : A) → lt x y ≡ false → lt y z ≡ false → lt x z ≡ false

  -- None of the entries precedes `x`.
  abbrev pub NoneBefore : A → List A → Type 0
  NoneBefore x [] = Unit
  NoneBefore x (y ∷ ys) = (lt y x ≡ false) × NoneBefore x ys

  abbrev pub IsSorted : List A → Type 0
  IsSorted [] = Unit
  IsSorted (x ∷ xs) = NoneBefore x xs × IsSorted xs

module _ {ℓ} {A : Type ℓ} where
  pub insert_before-perm :
      (before : A → Bool) (item : A) (xs : List A) → Perm (insert_before before item xs) (item ∷ xs)
  unfolding insert_before
  insert_before-perm before item [] = Perm.refl (item ∷ [])
  insert_before-perm before item (x ∷ xs) = elim (Bool-cases (before x)) [
    | inl e ↦
        rw e (Perm.trans (Perm.cons x (insert_before-perm before item xs)) (Perm.swap item x xs))
    | inr e ↦ rw e (Perm.refl (item ∷ x ∷ xs))
  ]

  module _ {lt : A → A → Bool} (order : IsStrictWeakOrder lt) where
    NoneBefore-mono :
        (x y : A) (ys : List A) → lt y x ≡ false → NoneBefore lt y ys → NoneBefore lt x ys
    NoneBefore-mono x y [] h n = tt
    NoneBefore-mono x y (z ∷ zs) h n =
        (order.negatively_transitive z y x n.0 h, NoneBefore-mono x y zs h n.1)

    NoneBefore-insert_before :
        (x item : A) (xs : List A) (before : A → Bool)
        → lt item x ≡ false
        → NoneBefore lt x xs
        → NoneBefore lt x (insert_before before item xs)
    unfolding insert_before
    NoneBefore-insert_before x item [] before h n = (h, tt)
    NoneBefore-insert_before x item (y ∷ ys) before h n = elim (Bool-cases (before y)) [
      | inl e ↦ rw e (n.0, NoneBefore-insert_before x item ys before h n.1)
      | inr e ↦ rw e (h, n)
    ]

    pub insert_before-IsSorted :
        (item : A) (xs : List A)
        → IsSorted lt xs
        → IsSorted lt (insert_before (λ x. lt x item) item xs)
    unfolding insert_before
    insert_before-IsSorted item [] s = (tt, tt)
    insert_before-IsSorted item (x ∷ xs) s = elim (Bool-cases (lt x item)) [
      | inl e ↦ rw e (
        NoneBefore-insert_before x item xs (λ y. lt y item) (order.asymmetric x item e) s.0,
        insert_before-IsSorted item xs s.1,
      )
      | inr e ↦ rw e ((e, NoneBefore-mono item x xs e s.0), s)
    ]

module _ {ℓ κ} {M : Type ℓ} {A : Type κ} where
  pub record KeepsSorted (lt : A → A → Bool) (item : A) (o : OrderedArray M A)
      (r : Result (OrderedArray M A)) : Type (ℓ ⊔ κ) where
    pub out : OrderedArray M A
    pub returns : r ≡ ok out
    pub sorted : IsSorted lt (contents out)
    pub permuted : Perm (contents out) (item ∷ contents o)

  -- `insert_ordered_array` into a sorted array with a free slot, whose predicate is a strict weak order, returns;
  -- the entries stay sorted, and they are the old ones and the item.
  pub insert_ordered_array-KeepsSorted :
      (m : M) (item : A) (o : OrderedArray M A) (f : LessThan M A)
      → o.less_than ≡ some f
      → IsStrictWeakOrder (f m)
      → o.size < length o.array
      → length o.array < 2 ^ 32
      → IsSorted (f m) (contents o)
      → KeepsSorted (f m) item o (insert_ordered_array m item o)
  insert_ordered_array-KeepsSorted m item o f e order room fits s =
      let i = insert_ordered_array-Inserted m item o f e room fits in
      record {
        out = i.out;
        returns = i.returns;
        sorted = rw i.entries (insert_before-IsSorted order item (contents o) s);
        permuted = rw i.entries (insert_before-perm (λ x. f m x item) item (contents o));
      }
