-- ===== src/Base/Outcome.antt =====
-- The outcomes of C code. `panic` is a failed ASSERT or a PANIC, which stop the machine; `fault` is
-- behaviour that C leaves undefined, such as an access outside an array; `out_of_fuel` is a loop
-- that has used up the rounds it was given.
use mathlib.Core.Path.{◌≡◌, refl}
use mathlib.Core.Bool.{Bool, true, false}
use mathlib.Core.List.{List, [], ◌∷◌}
use mathlib.Core.Option.{Option, none, some}
use Prim.Native.Nat.{ℕ, zero, suc, ◌<◌}
use native.Mathlib.Omega.{arith}
use ahk_main.Base.Lists.{get_elem?, get_or, set, length, get_elem?-eq-get_or}

pub data Result {ℓ} (A : Type ℓ) : Type ℓ where
  ok : A → Result A
  panic fault out_of_fuel : Result A

infixl 5 ◌>>=◌ ◌>>◌
abbrev pub ◌>>=◌ {ℓ κ} : {A : Type ℓ} {B : Type κ} → Result A → (A → Result B) → Result B
ok a >>= f = f a
panic >>= f = panic
fault >>= f = fault
out_of_fuel >>= f = out_of_fuel

abbrev pub ◌>>◌ {ℓ} : {B : Type ℓ} → Result (Unit {0}) → Result B → Result B
m >> k = m >>= λ _. k

-- `ASSERT(b)` of common.h.
abbrev pub assert : Bool → Result (Unit {0})
assert true = ok tt
assert false = panic

abbrev pub or_fault {ℓ} : {A : Type ℓ} → Option A → Result A
or_fault none = fault
or_fault (some a) = ok a

-- `a[i]` as a value and as the target of an assignment, a fault outside the array.
unfoldable pub read {ℓ} : {A : Type ℓ} → List A → ℕ → Result A
read xs i = or_fault (get_elem? xs i)

unfoldable pub write {ℓ} : {A : Type ℓ} → List A → ℕ → A → Result (List A)
write [] i v = fault
write (x ∷ xs) zero v = ok (v ∷ xs)
write (x ∷ xs) (suc i) v = write xs i v >>= λ ys. ok (x ∷ ys)

pub read-ok {ℓ} :
    {A : Type ℓ} (xs : List A) (i : ℕ) (d : A) → i < length xs → read xs i ≡ ok (get_or xs i d)
unfolding read
read-ok xs i d h = rw (get_elem?-eq-get_or xs i d h)

pub write-ok {ℓ} :
    {A : Type ℓ} (xs : List A) (i : ℕ) (v : A) → i < length xs → write xs i v ≡ ok (set xs i v)
unfolding write
write-ok [] i v h = absurd (omega arith)
write-ok (x ∷ xs) zero v h = refl
write-ok (x ∷ xs) (suc i) v h = rw (write-ok xs i v (omega arith))

pub bind_assoc {ℓ κ μ} :
    {A : Type ℓ} {B : Type κ} {C : Type μ} (r : Result A) (f : A → Result B) (g : B → Result C)
    → (r >>= (λ a. f a >>= g)) ≡ (r >>= f >>= g)
bind_assoc (ok a) f g = refl
bind_assoc panic f g = refl
bind_assoc fault f g = refl
bind_assoc out_of_fuel f g = refl

-- Inversion of a bind that returns.
pub >>=-eq-ok {ℓ κ} :
    {A : Type ℓ} {B : Type κ} (r : Result A) (f : A → Result B) {b : B}
    → (r >>= f) ≡ ok b
    → (a : A) × (r ≡ ok a) × (f a ≡ ok b)
>>=-eq-ok (ok a) f h = (a, refl, h)
>>=-eq-ok panic f h = cc
>>=-eq-ok fault f h = cc
>>=-eq-ok out_of_fuel f h = cc
