-- ===== src/Common.antt =====
-- common.c: the comparison of strings. A string is the list of its characters, which end with a null
-- or with the list.
pub mod Bytes
pub mod Copies
pub mod Messages
pub mod Panic
use ahk_main.Base.{
  ℕ, ◌≡◌, ◌≢◌, ◌⊎◌, refl, ne→eqb_false, inl, inr, Bool-cases, List, [], ◌∷◌, ◌==◌, if◌then◌else◌,
  arith,
}

-- Where one string has ended: 0 if the other one ends here too.
unfoldable pub ends_here : List ℕ → ℕ
ends_here [] = 0
ends_here (y ∷ ys) = if y == 0 then 0 else 1

unfoldable pub strcmp : List ℕ → List ℕ → ℕ
unfolding ends_here
strcmp [] str2 = ends_here str2
strcmp (x ∷ str1) [] = ends_here (x ∷ str1)
strcmp (x ∷ str1) (y ∷ str2) =
    let rest = strcmp str1 str2 in
    if x == 0 then ends_here (y ∷ str2) else if y == 0 then 1 else if x == y then rest else 1

-- A string without a null inside.
abbrev pub NoNull : List ℕ → Type 0
NoNull [] = Unit
NoNull (x ∷ xs) = (x ≢ 0) × NoNull xs

cons_eq : (x y : ℕ) (xs ys : List ℕ) → x ≡ y → xs ≡ ys → x ∷ xs ≡ y ∷ ys
cons_eq x y xs ys e f = cc

head_eq : (x y : ℕ) (xs ys : List ℕ) → x ∷ xs ≡ y ∷ ys → (x ≡ y) × (xs ≡ ys)
head_eq x y xs ys e = (cc, cc)

-- `strcmp` of two strings is 0 if they are equal, and 1 if they differ, whichever is the lesser one.
pub strcmp-equal :
    (str1 str2 : List ℕ)
    → NoNull str1
    → NoNull str2
    → ((strcmp str1 str2 ≡ 0) × (str1 ≡ str2)) ⊎ ((strcmp str1 str2 ≡ 1) × (str1 ≢ str2))
unfolding strcmp
strcmp-equal [] [] p q = inl (refl, refl)
strcmp-equal [] (y ∷ ys) p q = inr (rw (ne→eqb_false y 0 q.0) refl, λ e. cc)
strcmp-equal (x ∷ xs) [] p q = inr (rw (ne→eqb_false x 0 p.0) refl, λ e. cc)
strcmp-equal (x ∷ xs) (y ∷ ys) p q = elim (Bool-cases (x == y)) [
  | inr d ↦ inr (
    rw (ne→eqb_false x 0 p.0, ne→eqb_false y 0 q.0, d) refl,
    λ e. let h = (head_eq x y xs ys e).0 in absurd (ground (arith, h)),
  )
  | inl s ↦
      let same : x ≡ y = ground arith in
      elim (strcmp-equal xs ys p.1 q.1) [
        | inl r ↦
            inl (rw (ne→eqb_false x 0 p.0, ne→eqb_false y 0 q.0, s) r.0, cons_eq x y xs ys same r.1)
        | inr r ↦ inr (
          rw (ne→eqb_false x 0 p.0, ne→eqb_false y 0 q.0, s) r.0,
          λ e. r.1 ((head_eq x y xs ys e).1),
        )
      ]
]
