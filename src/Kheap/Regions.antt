-- ===== src/Kheap/Regions.antt =====
-- The blocks of a heap by their addresses: which are in use, and whether there is a large enough hole.
use ahk_main.Base.{
  ℕ, ◌+◌, ◌-◌, ◌≤◌, ◌≡◌, ◌⊎◌, refl, ap, subst, inl, inr, Bool-cases, true, false, List, [], ◌∷◌,
  ◌++◌, ltb, arith,
}
use ahk_main.Kheap.Blocks.{Block, hole, used, total}
use ahk_main.Kheap.Invariant.{cut}

-- A block in use of `n` bytes is at `x`, in a run of blocks from `a` on.
abbrev pub UsedAt : ℕ → ℕ → ℕ → List Block → Type 0
UsedAt x n a [] = ⊥
UsedAt x n a (b ∷ bs) = ((x ≡ a) × (b ≡ used n)) ⊎ UsedAt x n (a + b.size) bs

-- One of the blocks is a hole of at least `c` bytes.
abbrev pub HoleIn : ℕ → List Block → Type 0
HoleIn c [] = ⊥
HoleIn c (b ∷ bs) = ((b.is_hole ≡ true) × (c ≤ b.size)) ⊎ HoleIn c bs

pub UsedAt-append :
    (x n a : ℕ) (xs ys : List Block)
    → UsedAt x n a (xs ++ ys)
    → UsedAt x n a xs ⊎ UsedAt x n (a + total xs) ys
UsedAt-append x n a [] ys u =
    let e : a ≡ a + 0 = omega arith in inr (subst (λ z. UsedAt x n z ys) e u)
UsedAt-append x n a (b ∷ xs) ys (inl h) = inl (inl h)
UsedAt-append x n a (b ∷ xs) ys (inr u) = elim (UsedAt-append x n (a + b.size) xs ys u) [
  | inl v ↦ inl (inr v)
  | inr v ↦
      let e : a + b.size + total xs ≡ a + total (b ∷ xs) = omega arith in
      inr (subst (λ z. UsedAt x n z ys) e v)
]

pub UsedAt-append_left :
    (x n a : ℕ) (xs ys : List Block) → UsedAt x n a xs → UsedAt x n a (xs ++ ys)
UsedAt-append_left x n a [] ys u = elim u [ ]
UsedAt-append_left x n a (b ∷ xs) ys (inl h) = inl h
UsedAt-append_left x n a (b ∷ xs) ys (inr u) = inr (UsedAt-append_left x n (a + b.size) xs ys u)

pub UsedAt-append_right :
    (x n a : ℕ) (xs ys : List Block) → UsedAt x n (a + total xs) ys → UsedAt x n a (xs ++ ys)
UsedAt-append_right x n a [] ys u =
    let e : a + 0 ≡ a = omega arith in subst (λ z. UsedAt x n z ys) e u
UsedAt-append_right x n a (b ∷ xs) ys u =
    let e : a + total (b ∷ xs) ≡ a + b.size + total xs = omega arith in
    inr (UsedAt-append_right x n (a + b.size) xs ys (subst (λ z. UsedAt x n z ys) e u))

-- A block lies in its run.
pub UsedAt-inside :
    (x n a : ℕ) (xs : List Block) → UsedAt x n a xs → (a ≤ x) × (x + n ≤ a + total xs)
UsedAt-inside x n a [] u = elim u [ ]
UsedAt-inside x n a (b ∷ xs) (inl (here, e)) =
    let size : b.size ≡ n = ap (λ (c : Block). c.size) e in (omega arith, omega arith)
UsedAt-inside x n a (b ∷ xs) (inr u) = let i = UsedAt-inside x n (a + b.size) xs u in omega arith

HoleIn-append : (c : ℕ) (xs ys : List Block) → HoleIn c (xs ++ ys) → HoleIn c xs ⊎ HoleIn c ys
HoleIn-append c [] ys h = inr h
HoleIn-append c (b ∷ xs) ys (inl h) = inl (inl h)
HoleIn-append c (b ∷ xs) ys (inr h) = elim (HoleIn-append c xs ys h) [
  | inl v ↦ inl (inr v)
  | inr v ↦ inr v
]

HoleIn-append_left : (c : ℕ) (xs ys : List Block) → HoleIn c xs → HoleIn c (xs ++ ys)
HoleIn-append_left c [] ys h = elim h [ ]
HoleIn-append_left c (b ∷ xs) ys (inl h) = inl h
HoleIn-append_left c (b ∷ xs) ys (inr h) = inr (HoleIn-append_left c xs ys h)

HoleIn-append_right : (c : ℕ) (xs ys : List Block) → HoleIn c ys → HoleIn c (xs ++ ys)
HoleIn-append_right c [] ys h = h
HoleIn-append_right c (b ∷ xs) ys h = inr (HoleIn-append_right c xs ys h)

HoleIn-le : (c d : ℕ) (xs : List Block) → d ≤ c → HoleIn c xs → HoleIn d xs
HoleIn-le c d [] le h = elim h [ ]
HoleIn-le c d (b ∷ xs) le (inl (is, big)) = inl (is, omega arith)
HoleIn-le c d (b ∷ xs) le (inr h) = inr (HoleIn-le c d xs le h)

pub HoleIn-split :
    (c : ℕ) (bs : List Block)
    → HoleIn c bs
    → (xs : List Block) × (big : ℕ) × (ys : List Block) × (bs ≡ xs ++ (hole big ∷ ys)) × (c ≤ big)
HoleIn-split c [] h = elim h [ ]
HoleIn-split c (b ∷ bs) (inl (is, big)) = ([], b.size, bs, cc, big)
HoleIn-split c (b ∷ bs) (inr h) =
    let (xs, big, ys, e, le) = HoleIn-split c bs h in (b ∷ xs, big, ys, ap (λ l. b ∷ l) e, le)

-- A hole of `n` bytes is cut, and `asked` bytes of it are in use.
module _ (n asked : ℕ) (enough : asked ≤ n) where
  pub cut-used :
      (a : ℕ) (back : List Block)
      → (m : ℕ) × (asked ≤ m) × (m ≤ n) × UsedAt a m a (cut n asked ++ back)
  cut-used a back = elim (Bool-cases (ltb (n - asked) 20)) [
    | inl e ↦ rw e (n, enough, omega arith, inl (refl, refl))
    | inr e ↦ rw e (asked, omega arith, enough, inl (refl, refl))
  ]

  pub total-cut : total (cut n asked) ≡ n
  total-cut = elim (Bool-cases (ltb (n - asked) 20)) [
    | inl e ↦ rw e (omega arith)
    | inr e ↦ rw e (omega arith)
  ]

  -- Enough room for `asked` and `c` more bytes, if any, leaves room for `c`.
  pub HoleIn-cut :
      (c : ℕ) (front back : List Block)
      → 20 ≤ c
      → HoleIn (asked + c) (front ++ (hole n ∷ back))
      → HoleIn c (front ++ (cut n asked ++ back))
  HoleIn-cut c front back some h = elim (HoleIn-append (asked + c) front (hole n ∷ back) h) [
    | inl v ↦ HoleIn-append_left c front _ (HoleIn-le (asked + c) c front (omega arith) v)
    | inr (inl (is, big)) ↦
        let loose : ltb (n - asked) 20 ≡ false = ground arith in
        HoleIn-append_right c front _ (rw loose (inr (inl (refl, omega arith))))
    | inr (inr v) ↦
        HoleIn-append_right c front _
          (HoleIn-append_right c (cut n asked) back (HoleIn-le (asked + c) c back (omega arith) v))
  ]
