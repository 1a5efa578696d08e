-- ===== src/Fat12/Entries.antt =====
-- The 12-bit entries of a FAT: two in three bytes.
use ahk_main.Base.{
  ℕ, zero, suc, ◌+◌, ◌*◌, ◌/◌, ◌%◌, ◌^◌, ◌<◌, ◌≡◌, refl, ap, ◌∙◌, List, [], ◌∷◌, ok, read, length,
  get_or, arith,
}
use ahk_main.Fat12.{next_cluster}

-- The table of a list of entries.
unfoldable pub packed : List ℕ → List ℕ
packed [] = []
packed (a ∷ []) = a % 2 ^ 8 ∷ a / 2 ^ 8 ∷ []
packed (a ∷ b ∷ es) = a % 2 ^ 8 ∷ (a / 2 ^ 8 + b % 2 ^ 4 * 2 ^ 4) ∷ b / 2 ^ 4 ∷ packed es

abbrev pub AreEntries : List ℕ → Type 0
AreEntries [] = Unit
AreEntries (e ∷ es) = (e < 2 ^ 12) × AreEntries es

-- The entries behind the first two stand three bytes further on.
skip_pair :
    (x y z : ℕ) (fat : List ℕ) (c : ℕ)
    → next_cluster (x ∷ y ∷ z ∷ fat) (suc (suc c)) ≡ next_cluster fat c
unfolding next_cluster read
skip_pair x y z fat c =
    let place : suc (suc c) * 3 / 2 ≡ suc (suc (suc (c * 3 / 2))) = omega arith in
    let next : suc (suc (suc (c * 3 / 2))) + 1 ≡ suc (suc (suc (c * 3 / 2 + 1))) = omega arith in
    let parity : suc (suc c) % 2 ≡ c % 2 = omega arith in rw (place, next, parity) refl

-- `readFile` reads the entry of each cluster back from a table of 12-bit entries.
pub next_cluster-packed :
    (es : List ℕ) (c : ℕ)
    → AreEntries es
    → c < length es
    → next_cluster (packed es) c ≡ ok (get_or es c 0)
unfolding packed next_cluster read
next_cluster-packed [] c h lt = absurd (omega arith)
next_cluster-packed (a ∷ []) zero h lt = ap ok (omega arith)
next_cluster-packed (a ∷ []) (suc c) h lt = absurd (omega arith)
next_cluster-packed (a ∷ b ∷ es) zero h lt = ap ok (omega arith)
next_cluster-packed (a ∷ b ∷ es) (suc zero) h lt = ap ok (omega arith)
next_cluster-packed (a ∷ b ∷ es) (suc (suc c)) h lt =
    skip_pair _ _ _ (packed es) c ∙ next_cluster-packed es c h.1.1 (omega arith)
