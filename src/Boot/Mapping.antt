-- ===== src/Boot/Mapping.antt =====
-- The loops of initialise_paging: what they map, and that the fuel is enough for the identity mapping.
use ahk_main.Base.{
  ℕ, zero, suc, ◌+◌, ◌*◌, ◌/◌, ◌≤◌, ◌<◌, ◌≡◌, ◌≢◌, refl, inl, inr, Bool-cases, true, false, ok, ltb,
  subst, add32, arith,
}
use ahk_main.Kernel.{Kernel}
use ahk_main.Boot.{make_tables, alloc_page, identity_map, alloc_pages}
use ahk_main.Boot.Stages.{Stage, alloc_page-low, alloc_page-high}
use ahk_main.Boot.Directory.{next_page, with_table, CanPlace, get_page-with_table, get_page-there}

-- The rounds of the first loop that find the table.
make_tables-there :
    (fuel rounds i table : ℕ) (k : Kernel)
    → i + rounds ≤ 1024
    → k.kernel_directory.tables 768 ≡ table
    → table ≢ 0
    → make_tables fuel rounds (768 * 0x400000 + i * 4096) k ≡ ok k
unfolding make_tables
make_tables-there fuel zero i table k fits there ne = refl
make_tables-there fuel (suc rounds) i table k fits there ne =
    let page = get_page-there fuel 768 i table k (omega arith) there ne in
    let next : add32 (768 * 0x400000 + i * 4096) 0x1000 ≡ 768 * 0x400000 + suc i * 4096 =
      omega arith in
    rw (page, next) (make_tables-there fuel rounds (suc i) table k (omega arith) there ne)

pub make_tables-with_table :
    (fuel rounds : ℕ) (k : Kernel)
    → CanPlace k
    → rounds < 1024
    → k.kernel_directory.tables 768 ≡ 0
    → make_tables fuel (suc rounds) 0xC0000000 k ≡ ok (with_table 768 k)
unfolding make_tables
make_tables-with_table fuel rounds k c small empty =
    rw (get_page-with_table fuel 768 0 k c (omega arith) empty) (
      make_tables-there fuel rounds 1 (next_page k) (with_table 768 k) (omega arith) refl
        (λ e. let b = c.behind in omega arith))

-- The first round of the second loop makes the table of the first pages.
pub alloc_page-with_table :
    (fuel : ℕ) (k : Kernel)
    → CanPlace k
    → k.kernel_directory.tables 0 ≡ 0
    → alloc_page fuel 0 k ≡ alloc_page fuel 0 (with_table 0 k)
unfolding alloc_page
alloc_page-with_table fuel k c empty =
    let made = get_page-with_table fuel 0 0 k c (omega arith) empty in
    let there =
      get_page-there fuel 0 0 (next_page k) (with_table 0 k) (omega arith) refl
        (λ e. let b = c.behind in omega arith) in
    rw (made, there) refl

-- The pages up to the end of what has been placed, one more included.
abbrev pub low_pages : ℕ → ℕ
low_pages placement = (placement + 8191) / 4096

-- A round of the second loop that is not its last, and the end of the loop.
pub identity_map-more :
    (fuel n : ℕ) (k k₁ k₂ : Kernel)
    → k.placement_address < 0x300000
    → 4096 * n < k.placement_address + 4096
    → alloc_page fuel (4096 * n) k ≡ ok k₁
    → identity_map fuel (4096 * suc n) k₁ ≡ ok k₂
    → identity_map (suc fuel) (4096 * n) k ≡ ok k₂
unfolding identity_map
identity_map-more fuel n k k₁ k₂ room lt e₁ e₂ =
    let test : ltb (4096 * n) (add32 k.placement_address 0x1000) ≡ true = ground arith in
    let next : add32 (4096 * n) 0x1000 ≡ 4096 * suc n = omega arith in rw (test, e₁, next) e₂

identity_map-end :
    (fuel n : ℕ) (k : Kernel)
    → k.placement_address < 0x300000
    → k.placement_address + 4096 ≤ 4096 * n
    → identity_map (suc fuel) (4096 * n) k ≡ ok k
unfolding identity_map
identity_map-end fuel n k room le =
    let test : ltb (4096 * n) (add32 k.placement_address 0x1000) ≡ false = ground arith in
    rw test refl

module _ (low high placement : ℕ) (room : placement < 0x300000) where
  -- The second loop, from its round `n` on.
  pub identity_map-Stage :
      (fuel n : ℕ) (k : Kernel)
      → Stage low high placement n 0 k
      → n ≤ low_pages placement
      → low_pages placement < fuel + n
      → (k' : Kernel) × (identity_map fuel (4096 * n) k ≡ ok k')
        × Stage low high placement (low_pages placement) 0 k'
  identity_map-Stage zero n k st le enough = absurd (omega arith)
  identity_map-Stage (suc fuel) n k st le enough =
      let placed = st.placed in
      elim (Bool-cases (ltb n (low_pages placement))) [
        | inl lt ↦
            let (k₁, e₁, st₁) =
              alloc_page-low low high placement n 0 k st (omega arith) fuel refl in
            let (k₂, e₂, st₂) =
              identity_map-Stage fuel (suc n) k₁ st₁ (ground arith) (omega arith) in
            (k₂, identity_map-more fuel n k k₁ k₂ (omega arith) (ground arith) e₁ e₂, st₂)
        | inr ge ↦
            let all : n ≡ low_pages placement = ground arith in
            (
              k,
              identity_map-end fuel n k (omega arith) (ground arith),
              subst (λ v. Stage low high placement v 0 k) all st,
            )
      ]

  -- The third loop, from its round `h` on.
  pub alloc_pages-Stage :
      (fuel rounds n h : ℕ) (k : Kernel)
      → Stage low high placement n h k
      → n + h + rounds < 1024
      → (k' : Kernel) × (alloc_pages fuel rounds (0xC0000000 + 4096 * h) k ≡ ok k')
        × Stage low high placement n (h + rounds) k'
  unfolding alloc_pages
  alloc_pages-Stage fuel zero n h k st small =
      let same : h ≡ h + 0 = omega arith in
      (k, refl, subst (λ v. Stage low high placement n v k) same st)
  alloc_pages-Stage fuel (suc rounds) n h k st small =
      let (k₁, e₁, st₁) = alloc_page-high low high placement n h k st (omega arith) fuel in
      let (k₂, e₂, st₂) = alloc_pages-Stage fuel rounds n (suc h) k₁ st₁ (omega arith) in
      let next : add32 (0xC0000000 + 4096 * h) 0x1000 ≡ 0xC0000000 + 4096 * suc h = omega arith in
      let same : suc h + rounds ≡ h + suc rounds = omega arith in
      (k₂, rw (e₁, next) e₂, subst (λ v. Stage low high placement n v k₂) same st₂)
