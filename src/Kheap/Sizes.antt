-- ===== src/Kheap/Sizes.antt =====
-- The sizes that kheap.c computes: the rounding of `expand` and `contract`, the placement allocator,
-- and what is stored into `phys`.
use ahk_main.Base.{
  ℕ, ◌+◌, ◌*◌, ◌/◌, ◌%◌, ◌^◌, ◌≤◌, ◌<◌, ◌≡◌, ◌↔◌, ◌⊎◌, refl, inl, inr, Bool-cases, some, max, ok,
  ◌==◌, if◌then◌else◌, add32, u32, arith,
}
use ahk_main.Kernel.{PagePointer, Kernel}
use ahk_main.Paging.{page_at}
use ahk_main.Kheap.Layout.{heap_min_size}
use ahk_main.Kheap.Resize.{round_up, contracted_size}
use ahk_main.Kheap.Alloc.{physical, kmalloc_placement}

-- The rounding of `expand`, where nothing wraps, never gives less than was asked for, nor more than a
-- page more; but what it gives is page-aligned exactly when the asked size is odd or aligned already.
pub round_up-aligned :
    (n : ℕ)
    → n + 4096 < 2 ^ 32
    → (n ≤ round_up n)
      × (round_up n ≤ n + 4096)
      × ((round_up n % 4096 ≡ 0) ↔ ((n % 2 ≡ 1) ⊎ (n % 4096 ≡ 0)))
unfolding round_up
round_up-aligned n fits = elim (Bool-cases (n % 2 == 0)) [
  | inl e ↦
      let even : n % 2 ≡ 0 = ground arith in
      rw e (
        omega arith,
        omega arith,
        (λ a. inr a, λ o. elim o [ inl odd ↦ absurd (omega arith) | inr a ↦ a ]),
      )
  | inr e ↦
      let odd : n % 2 ≡ 1 = ground arith in
      let next : add32 (n / 4096 * 4096) 4096 ≡ n / 4096 * 4096 + 4096 = omega arith in
      rw (e, next) (omega arith, omega arith, (λ a. inl odd, λ o. omega arith))
]

-- The size that `contract` goes to is never below the least size, and is exactly the least size where
-- bit 12 of the asked size is set; otherwise it is the larger of the two.
pub contracted_size-bounds :
    (n : ℕ)
    → (heap_min_size ≤ contracted_size n)
      × (contracted_size n ≡ (if n / 4096 % 2 == 0 then max n heap_min_size else heap_min_size))
unfolding contracted_size
contracted_size-bounds n = (ground arith, ground arith)

-- The placement allocator, asked for alignment, returns a page boundary behind the placement address
-- and at most a page from it, where that address is not in the first page and nothing wraps; the next
-- placement address is behind the space that was asked for.
kmalloc_placement-aligned :
    (sz : ℕ) (k : Kernel)
    → 4096 ≤ k.placement_address
    → k.placement_address + sz + 4096 < 2 ^ 32
    → let (a, phys, k') = kmalloc_placement sz 1 k in
      (a % 4096 ≡ 0)
      × (k.placement_address < a)
      × (a ≤ k.placement_address + 4096)
      × (phys ≡ a)
      × (k'.placement_address ≡ a + sz)
unfolding kmalloc_placement
kmalloc_placement-aligned sz k above fits = ground arith

-- What `kmalloc_int` stores as the physical address of a 32-bit address is only the offset of that
-- address in its page, whatever frame the page has.
pub physical-offset :
    (p : PagePointer) (addr : ℕ) (k : Kernel)
    → addr < 2 ^ 32
    → physical (some p) addr k ≡ ok (addr % 4096)
unfolding physical
physical-offset p addr k fits =
    let e : add32 (u32 ((page_at k p).frame * 0x1000)) addr % 0x1000 ≡ addr % 4096 = omega arith in
    rw e refl
