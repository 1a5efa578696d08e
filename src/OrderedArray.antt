-- ===== src/OrderedArray.antt =====
-- ordered_array.h and ordered_array.c: an array that is kept sorted by insertion.
-- The memory of the array is the list of its slots, of which the first `size` are in use; an
-- access to a slot that is not there is a fault. The predicate of the kernel's heap dereferences
-- its arguments, so a predicate is given the memory `M` too.
pub mod Contents
pub mod Insert
pub mod Remove
pub mod Sorted
use ahk_main.Base.{
  ℕ, zero, suc, ◌-◌, Bool, true, false, Option, none, some, List, Result, ok, panic, ◌>>=◌, ◌>>◌,
  assert, or_fault, read, write, ltb, ◌==◌, if◌then◌else◌, add32, sub32, replicate,
}

-- `lessthan_predicate_t`
abbrev pub LessThan {ℓ κ} : Type ℓ → Type κ → Type (ℓ ⊔ κ)
LessThan M A = M → A → A → Bool

-- `standard_lessthan_predicate`
unfoldable pub standard_lessthan_predicate {ℓ} : {M : Type ℓ} → LessThan M ℕ
standard_lessthan_predicate m a b = if ltb a b then true else false

-- `ordered_array_t`; `none` is a null predicate.
pub record OrderedArray {ℓ κ} (M : Type ℓ) (A : Type κ) : Type (ℓ ⊔ κ) where
  pub array : List A
  pub size : ℕ
  pub max_size : ℕ
  pub less_than : Option (LessThan M A)

module _ {ℓ} {A : Type ℓ} where
  -- `while (iterator < size && less_than(array[iterator], item)) iterator++;`
  -- on the rounds that are left, `size - iterator`
  unfoldable pub scan : (A → Bool) → ℕ → ℕ → List A → Result ℕ
  scan before zero iterator array = ok iterator
  scan before (suc rounds) iterator array = do
    x ← read array iterator
    let rest = scan before rounds (suc iterator) array
    if before x then rest else ok iterator

  -- `while (iterator < size) { iterator++; tmp2 = array[iterator]; array[iterator] = tmp; tmp = tmp2; }`
  unfoldable pub shift_up : ℕ → ℕ → A → List A → Result (List A)
  shift_up zero iterator tmp array = ok array
  shift_up (suc rounds) iterator tmp array = do
    tmp2 ← read array (suc iterator)
    array' ← write array (suc iterator) tmp
    shift_up rounds (suc iterator) tmp2 array'

  -- the array after `item` is put at `iterator`
  unfoldable pub place_at : A → ℕ → ℕ → List A → Result (List A)
  unfolding shift_up
  place_at item size iterator array = if iterator == size then write array size item else do
    tmp ← read array iterator
    array' ← write array iterator item
    shift_up (size - iterator) iterator tmp array'

  -- `while (i < size) { array[i] = array[i+1]; i++; }`
  unfoldable pub shift_down : ℕ → ℕ → List A → Result (List A)
  shift_down zero i array = ok array
  shift_down (suc rounds) i array = do
    x ← read array (suc i)
    array' ← write array i x
    shift_down rounds (suc i) array'

module _ {ℓ κ} {M : Type ℓ} {A : Type κ} where
  -- `place_ordered_array`: `null` is the item whose bytes are 0, which `memset` writes to each slot.
  unfoldable pub place_ordered_array : A → ℕ → Option (LessThan M A) → OrderedArray M A
  place_ordered_array null max_size less_than = record {
    array = replicate max_size null;
    size = 0;
    max_size = max_size;
    less_than = less_than;
  }

  unfoldable pub insert_ordered_array : M → A → OrderedArray M A → Result (OrderedArray M A)
  unfolding scan place_at
  insert_ordered_array m item o = do
    less_than ← elim o.less_than [ none ↦ panic | some f ↦ ok f ]
    iterator ← scan (λ x. less_than m x item) o.size 0 o.array
    array' ← place_at item o.size iterator o.array
    ok (record o { array = array'; size = add32 o.size 1 })

  unfoldable pub lookup_ordered_array : ℕ → OrderedArray M A → Result A
  lookup_ordered_array i o = do assert (ltb i o.size); read o.array i

  unfoldable pub remove_ordered_array : ℕ → OrderedArray M A → Result (OrderedArray M A)
  unfolding shift_down
  remove_ordered_array i o = do
    array' ← shift_down (o.size - i) i o.array
    ok (record o { array = array'; size = sub32 o.size 1 })
