-- ===== src/Kheap/Blocks.antt =====
-- The abstract view of a heap: a list of blocks that tile the space from its start to its end.
use ahk_main.Base.{
  ℕ, ◌+◌, ◌-◌, ◌≤◌, ◌<◌, ◌≡◌, ap, sym, subst, ◌∙◌, ◌&&◌, Bool, true, false, List, [], ◌∷◌, ◌++◌,
  ◌==◌, if◌then◌else◌, inl, inr, ◌⊎◌, Bool-cases, arith,
}
use ahk_main.Memory.{Memory}
use ahk_main.Memory.Laws.{Agree, load32-Agree}
use ahk_main.Kheap.Layout.{
  heap_magic, header_magic, header_is_hole, header_block_size, footer_magic, footer_header,
}

pub record Block : Type 0 where
  pub size : ℕ
  pub is_hole : Bool

abbrev pub hole : ℕ → Block
hole n = record { size = n; is_hole = true }

abbrev pub used : ℕ → Block
used n = record { size = n; is_hole = false }

abbrev pub flag : Bool → ℕ
flag true = 1
flag false = 0

-- A footer that leads back to the header of its block.
pub record HasFooter (m : Memory) (a size : ℕ) : Type 0 where
  pub magic : footer_magic m (a + size - 8) ≡ heap_magic
  pub header : footer_header m (a + size - 8) ≡ a

-- The memory at `a` holds the block: its header, and its footer if the block is in use. The footer
-- of a hole may be missing.
pub record IsBlock (m : Memory) (a : ℕ) (b : Block) : Type 0 where
  pub room : 20 ≤ b.size
  pub magic : header_magic m a ≡ heap_magic
  pub kind : header_is_hole m a ≡ flag b.is_hole
  pub size : header_block_size m a ≡ b.size
  pub footer : b.is_hole ≡ false → HasFooter m a b.size

abbrev pub Tiles : Memory → ℕ → List Block → ℕ → Type 0
Tiles m a [] end = a ≡ end
Tiles m a (b ∷ bs) end = IsBlock m a b × Tiles m (a + b.size) bs end

abbrev pub total : List Block → ℕ
total [] = 0
total (b ∷ bs) = b.size + total bs

pub total-append : (xs ys : List Block) → total (xs ++ ys) ≡ total xs + total ys
total-append [] ys = omega arith
total-append (b ∷ xs) ys = omega (arith, total-append xs ys)

-- The addresses of the holes.
abbrev pub holes : ℕ → List Block → List ℕ
holes a [] = []
holes a (b ∷ bs) = if b.is_hole then a ∷ holes (a + b.size) bs else holes (a + b.size) bs

abbrev pub count : ℕ → List ℕ → ℕ
count x [] = 0
count x (y ∷ ys) = (if x == y then 1 else 0) + count x ys

-- Two lists hold the same items, as often.
abbrev pub SameItems : List ℕ → List ℕ → Type 0
SameItems xs ys = (x : ℕ) → count x xs ≡ count x ys

pub HasFooter-Agree :
    {m m' : Memory} (a size : ℕ)
    → 20 ≤ size
    → Agree a (a + size) m m'
    → HasFooter m a size
    → HasFooter m' a size
HasFooter-Agree a size room same f = record {
  magic = load32-Agree (a + size - 8) same (omega arith) (omega arith) ∙ f.magic;
  header = load32-Agree (a + size - 8 + 4) same (omega arith) (omega arith) ∙ f.header;
}

-- A footer stands in the last bytes of its block.
pub HasFooter-same :
    {m m' : Memory} (a size : ℕ)
    → 20 ≤ size
    → Agree (a + size - 8) (a + size) m m'
    → HasFooter m a size
    → HasFooter m' a size
HasFooter-same a size room same f = record {
  magic = load32-Agree (a + size - 8) same (omega arith) (omega arith) ∙ f.magic;
  header = load32-Agree (a + size - 8 + 4) same (omega arith) (omega arith) ∙ f.header;
}

pub IsBlock-Agree :
    {m m' : Memory} (a : ℕ) {b : Block} → Agree a (a + b.size) m m' → IsBlock m a b → IsBlock m' a b
IsBlock-Agree a {b} same i =
    let room = i.room in
    record {
      room = i.room;
      magic = load32-Agree a same (omega arith) (omega arith) ∙ i.magic;
      kind = same (a + 4) (omega arith) (omega arith) ∙ i.kind;
      size = load32-Agree (a + 8) same (omega arith) (omega arith) ∙ i.size;
      footer = λ e. HasFooter-Agree a b.size i.room same (i.footer e);
    }

module _ (m : Memory) where
  pub Tiles-end : (a : ℕ) (bs : List Block) {end : ℕ} → Tiles m a bs end → a + total bs ≡ end
  Tiles-end a [] t = omega arith
  Tiles-end a (b ∷ bs) t = omega (arith, Tiles-end (a + b.size) bs t.1)

  pub Tiles-append :
      (a mid : ℕ) (xs ys : List Block) (end : ℕ)
      → Tiles m a xs mid
      → Tiles m mid ys end
      → Tiles m a (xs ++ ys) end
  Tiles-append a mid [] ys end t u = subst (λ x. Tiles m x ys end) (sym t) u
  Tiles-append a mid (b ∷ xs) ys end t u = (t.0, Tiles-append (a + b.size) mid xs ys end t.1 u)

  pub Tiles-split :
      (a : ℕ) (xs ys : List Block) (end : ℕ)
      → Tiles m a (xs ++ ys) end
      → Tiles m a xs (a + total xs) × Tiles m (a + total xs) ys end
  Tiles-split a [] ys end t =
      let e : a ≡ a + 0 = omega arith in (e, subst (λ x. Tiles m x ys end) e t)
  Tiles-split a (b ∷ xs) ys end t =
      let r = Tiles-split (a + b.size) xs ys end t.1 in
      let e : a + b.size + total xs ≡ a + total (b ∷ xs) = omega arith in
      ((t.0, subst (λ x. Tiles m (a + b.size) xs x) e r.0), subst (λ x. Tiles m x ys end) e r.1)

pub Tiles-Agree :
    (m m' : Memory) (a : ℕ) (bs : List Block) (end : ℕ)
    → Agree a end m m'
    → Tiles m a bs end
    → Tiles m' a bs end
Tiles-Agree m m' a [] end same t = t
Tiles-Agree m m' a (b ∷ bs) end same t =
    let e = Tiles-end m (a + b.size) bs t.1 in
    (
      IsBlock-Agree a (λ x p q. same x p (omega (arith, e))) t.0,
      Tiles-Agree m m' (a + b.size) bs end (λ x p q. same x (omega arith) q) t.1,
    )

-- A run of blocks in the middle of a tiling is replaced by another of the same length.
pub Tiles-replace :
    (m m' : Memory) (a : ℕ) (xs old new ys : List Block) (end : ℕ)
    → total new ≡ total old
    → Tiles m a (xs ++ (old ++ ys)) end
    → ((x : ℕ) → (x < a + total xs) ⊎ (a + total xs + total old ≤ x) → m' x ≡ m x)
    → Tiles m' (a + total xs) new (a + total xs + total old)
    → Tiles m' a (xs ++ (new ++ ys)) end
Tiles-replace m m' a xs old new ys end e t same middle =
    let front = Tiles-split m a xs (old ++ ys) end t in
    let back = Tiles-split m (a + total xs) old ys end front.1 in
    Tiles-append m' a (a + total xs) xs (new ++ ys) end
      (Tiles-Agree m m' a xs (a + total xs) (λ x p q. same x (inl q)) front.0)
      (Tiles-append m' (a + total xs) (a + total xs + total old) new ys end middle
        (Tiles-Agree m m' (a + total xs + total old) ys end (λ x p q. same x (inr p)) back.1))

pub count-append : (x : ℕ) (xs ys : List ℕ) → count x (xs ++ ys) ≡ count x xs + count x ys
count-append x [] ys = omega arith
count-append x (y ∷ xs) ys = omega (arith, count-append x xs ys)

pub count-holes-append :
    (x a : ℕ) (xs ys : List Block)
    → count x (holes a (xs ++ ys)) ≡ count x (holes a xs) + count x (holes (a + total xs) ys)
count-holes-append x a [] ys = let e : a + 0 ≡ a = omega arith in rw e (omega arith)
count-holes-append x a (b ∷ xs) ys =
    let e : a + b.size + total xs ≡ a + total (b ∷ xs) = omega arith in
    rw (← e) (ground (arith, count-holes-append x (a + b.size) xs ys))

hole_lem : (b : Block) → b.is_hole ≡ true → b ≡ hole b.size
hole_lem b e = λ i. record { size = b.size; is_hole = e i }

-- A hole of the tiling from its address: the blocks in front of it, the hole, and those behind it.
pub find_hole :
    (x a : ℕ) (bs : List Block)
    → 0 < count x (holes a bs)
    → (xs : List Block) × (n : ℕ) × (ys : List Block) × (bs ≡ xs ++ (hole n ∷ ys))
      × (x ≡ a + total xs)
find_hole x a [] h = absurd (omega arith)
find_hole x a (b ∷ bs) h = elim (Bool-cases (b.is_hole && (x == a))) [
  | inl e ↦ ([], b.size, bs, ap (λ c. c ∷ bs) (hole_lem b (ground arith)), ground arith)
  | inr e ↦
      let (xs, n, ys, p, q) = find_hole x (a + b.size) bs (ground arith) in
      (b ∷ xs, n, ys, ap (λ l. b ∷ l) p, omega arith)
]
