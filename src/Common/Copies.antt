-- ===== src/Common/Copies.antt =====
-- common.c: `strcpy`, on buffers as lists of characters.
use ahk_main.Base.{
  ℕ, suc, ◌≤◌, ◌≡◌, refl, List, [], ◌∷◌, ◌++◌, length, drop, Result, ok, fault, ◌>>=◌, ◌==◌,
  if◌then◌else◌, ne→eqb_false, arith,
}
use ahk_main.Common.{NoNull}

-- The first character is copied whatever it is; then the loop ends at a null, which is not copied. An
-- access outside a buffer is a fault.
unfoldable pub strcpy : List ℕ → List ℕ → Result (List ℕ)
strcpy [] src = fault
strcpy (d ∷ dest) [] = fault
strcpy (d ∷ dest) (x ∷ []) = fault
strcpy (d ∷ dest) (x ∷ y ∷ src) =
    let rest = strcpy dest (y ∷ src) >>= λ out. ok (x ∷ out) in
    if y == 0 then ok (x ∷ dest) else rest

-- `strcpy` of a string that is not empty, with its null, into a buffer that is long enough for it
-- without the null.
pub strcpy-copies :
    (dest : List ℕ) (x : ℕ) (xs behind : List ℕ)
    → NoNull (x ∷ xs)
    → length (x ∷ xs) ≤ length dest
    → strcpy dest (x ∷ (xs ++ (0 ∷ behind))) ≡ ok (x ∷ (xs ++ drop (suc (length xs)) dest))
unfolding strcpy
strcpy-copies [] x xs behind p h = absurd (omega arith)
strcpy-copies (d ∷ dest) x [] behind p h = refl
strcpy-copies (d ∷ dest) x (y ∷ xs) behind p h =
    rw (ne→eqb_false y 0 p.1.0, strcpy-copies dest y xs behind p.1 (omega arith)) refl
