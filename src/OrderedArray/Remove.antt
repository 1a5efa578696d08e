-- ===== src/OrderedArray/Remove.antt =====
-- remove_ordered_array drops one entry and closes the gap.
use mathlib.Core.List.{Perm}
use mathlib.Core.List.Perm
use mathlib.Core.Option.{some-injective}
use ahk_main.Base.{
  ℕ, zero, suc, ◌-◌, ◌^◌, ◌≤◌, ◌<◌, ◌≡◌, refl, ap, ◌∙◌, sym, List, [], ◌∷◌, some, Result, ok, ◌>>=◌,
  read, write, length, take, get_elem?, sub32, arith,
}
use ahk_main.OrderedArray.{OrderedArray, shift_down, remove_ordered_array}
use ahk_main.OrderedArray.Contents.{contents}
use ahk_main.OrderedArray.Insert.{bind_cons, bind_same}

module _ {ℓ} {A : Type ℓ} where
  -- The list without its entry at an index.
  unfoldable pub remove_at : List A → ℕ → List A
  remove_at [] i = []
  remove_at (x ∷ xs) zero = xs
  remove_at (x ∷ xs) (suc i) = x ∷ remove_at xs i

  pub remove_at-perm :
      (xs : List A) (i : ℕ) {a : A} → get_elem? xs i ≡ some a → Perm (a ∷ remove_at xs i) xs
  unfolding remove_at
  remove_at-perm [] i e = absurd (cc)
  remove_at-perm (x ∷ xs) zero {a} e = rw (some-injective x a e) (Perm.refl (a ∷ xs))
  remove_at-perm (x ∷ xs) (suc i) {a} e =
      Perm.trans (Perm.swap x a (remove_at xs i)) (Perm.cons x (remove_at-perm xs i e))

  shift_down-cons :
      (n i : ℕ) (x : A) (xs : List A)
      → shift_down n (suc i) (x ∷ xs) ≡ (shift_down n i xs >>= λ l. ok (x ∷ l))
  unfolding shift_down read write
  shift_down-cons zero i x xs = refl
  shift_down-cons (suc n) i x xs =
      bind_same x (read xs (suc i)) _ _
        λ t. bind_cons x (write xs i t) _ _ λ l. shift_down-cons n (suc i) x l

  -- `r` is a normal return whose first `n` slots are those of `xs`.
  record Closed (n : ℕ) (xs : List A) (r : Result (List A)) : Type ℓ where
    out : List A
    returns : r ≡ ok out
    same_length : length out ≡ suc (length xs)
    entries : (k : ℕ) → k ≤ n → take k out ≡ take k xs

  shift_down-Closed :
      (n : ℕ) (x : A) (xs : List A) → n ≤ length xs → Closed n xs (shift_down n 0 (x ∷ xs))
  unfolding shift_down read write
  shift_down-Closed zero x xs h = record {
    out = x ∷ xs;
    returns = refl;
    same_length = refl;
    entries = none_taken;
  }
    where
      none_taken : (k : ℕ) → k ≤ 0 → take k (x ∷ xs) ≡ take k xs
      none_taken zero h = refl
      none_taken (suc k) h = absurd (omega arith)
  shift_down-Closed (suc n) x [] h = absurd (omega arith)
  shift_down-Closed (suc n) x (y ∷ ys) h =
      let rest = shift_down-Closed n y ys (omega arith) in
      rw (shift_down-cons n 0 y (y ∷ ys), rest.returns)
        (record {
          out = y ∷ rest.out;
          returns = refl;
          same_length = ap suc rest.same_length;
          entries = more rest.out rest.entries;
        })
    where
      more :
          (out : List A)
          → ((k : ℕ) → k ≤ n → take k out ≡ take k ys)
          → (k : ℕ) → k ≤ suc n
          → take k (y ∷ out) ≡ take k (y ∷ ys)
      more out e zero h = refl
      more out e (suc k) h = ap (λ l. y ∷ l) (e k (omega arith))

  record Removed (s i : ℕ) (xs : List A) (r : Result (List A)) : Type ℓ where
    out : List A
    returns : r ≡ ok out
    same_length : length out ≡ length xs
    entries : take s out ≡ remove_at (take (suc s) xs) i

  shift_down-Removed :
      (s i : ℕ) (xs : List A)
      → i ≤ s
      → suc s < length xs
      → Removed s i xs (shift_down (suc s - i) i xs)
  unfolding remove_at
  shift_down-Removed s i [] le h = absurd (omega arith)
  shift_down-Removed s zero (x ∷ xs) le h =
      let c = shift_down-Closed (suc s) x xs (omega arith) in
      record {
        out = c.out;
        returns = ap (λ n. shift_down n 0 (x ∷ xs)) (omega arith) ∙ c.returns;
        same_length = c.same_length;
        entries = c.entries s (omega arith);
      }
  shift_down-Removed zero (suc i) (x ∷ xs) le h = absurd (omega arith)
  shift_down-Removed (suc s) (suc i) (x ∷ xs) le h =
      let r = shift_down-Removed s i xs (omega arith) (omega arith) in
      let rounds : suc (suc s) - suc i ≡ suc s - i = omega arith in
      record {
        out = x ∷ r.out;
        returns = rw (rounds, shift_down-cons (suc s - i) i x xs, r.returns) refl;
        same_length = ap suc r.same_length;
        entries = ap (λ l. x ∷ l) r.entries;
      }

module _ {ℓ κ} {M : Type ℓ} {A : Type κ} where
  pub record Shrunk (i : ℕ) (o : OrderedArray M A) (r : Result (OrderedArray M A))
      : Type (ℓ ⊔ κ) where
    pub out : OrderedArray M A
    pub returns : r ≡ ok out
    pub entries : contents out ≡ remove_at (contents o) i
    pub same_slots : length out.array ≡ length o.array
    pub size_suc : suc out.size ≡ o.size
    pub same_max_size : out.max_size ≡ o.max_size
    pub same_less_than : out.less_than ≡ o.less_than

  remove_ordered_array-eq :
      (i : ℕ) (o : OrderedArray M A) {rounds size : ℕ} {out : List A}
      → o.size - i ≡ rounds
      → shift_down rounds i o.array ≡ ok out
      → sub32 o.size 1 ≡ size
      → remove_ordered_array i o ≡ ok (record o { array = out; size = size })
  unfolding remove_ordered_array
  remove_ordered_array-eq i o e returns c = rw (e, returns, c)

  -- `remove_ordered_array` at an entry in use, on an array with a slot to spare, returns, and drops that
  -- entry alone.
  pub remove_ordered_array-Shrunk :
      (i : ℕ) (o : OrderedArray M A)
      → i < o.size
      → o.size < length o.array
      → length o.array < 2 ^ 32
      → Shrunk i o (remove_ordered_array i o)
  remove_ordered_array-Shrunk i o used spare fits =
      let s = o.size - 1 in
      let e : o.size ≡ suc s = omega arith in
      let c : sub32 o.size 1 ≡ s = omega arith in
      let r = shift_down-Removed s i o.array (omega arith) (omega arith) in
      record {
        out = record o { array = r.out; size = s };
        returns = remove_ordered_array-eq i o (omega arith) r.returns c;
        entries = r.entries ∙ ap (λ k. remove_at (take k o.array) i) (sym e);
        same_slots = r.same_length;
        size_suc = omega arith;
        same_max_size = refl;
        same_less_than = refl;
      }
