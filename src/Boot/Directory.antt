-- ===== src/Boot/Directory.antt =====
-- The first steps of initialise_paging: the bitset, the directory and a new page table, all placed
-- behind the kernel.
use ahk_main.Base.{
  ℕ, ◌+◌, ◌*◌, ◌/◌, ◌%◌, ◌^◌, ◌≤◌, ◌<◌, ◌≡◌, ◌≢◌, refl, false, some, ok, ◌==◌, ne→eqb_false, add32,
  arith,
}
use ahk_main.Kernel.{Kernel}
use ahk_main.Paging.{add_table, get_page}
use ahk_main.Kheap.Alloc.{kmalloc_ap, kmalloc_int, kmalloc_placement}
use ahk_main.Boot.{table_kmalloc}

-- The next page boundary, where the next table is placed.
abbrev pub next_page : Kernel → ℕ
next_page k = k.placement_address / 4096 * 4096 + 4096

-- `k` with a new table for the entry `t` of the directory.
abbrev pub with_table : ℕ → Kernel → Kernel
with_table t k =
    add_table t (next_page k) (next_page k) (record k { placement_address = next_page k + 4096 })

-- What can be placed: the heap is not ready, and the placement address is behind the first page and far
-- from the end of the address space.
pub record CanPlace (k : Kernel) : Type 0 where
  pub early : k.kheap_ready ≡ false
  pub behind : 4096 ≤ k.placement_address
  pub room : k.placement_address + 0x10000 < 2 ^ 32

table_kmalloc-placed :
    (fuel : ℕ) (k : Kernel)
    → CanPlace k
    → table_kmalloc fuel 4096 1 k
      ≡ ok (next_page k, next_page k, record k { placement_address = next_page k + 4096 })
unfolding table_kmalloc kmalloc_ap kmalloc_int kmalloc_placement
table_kmalloc-placed fuel k c =
    let early = c.early in
    let some_page : (k.placement_address / 4096 * 4096 == 0) ≡ false =
      ne→eqb_false (k.placement_address / 4096 * 4096) 0 (let b = c.behind in omega arith) in
    let room = c.room in
    let aligned : add32 (k.placement_address / 4096 * 4096) 4096 ≡ next_page k = omega arith in
    let behind : add32 (next_page k) 4096 ≡ next_page k + 4096 = omega arith in
    rw (early, some_page, aligned, behind) refl

-- `get_page` where the directory has no table yet.
pub get_page-with_table :
    (fuel t i : ℕ) (k : Kernel)
    → CanPlace k
    → i < 1024
    → k.kernel_directory.tables t ≡ 0
    → get_page (table_kmalloc fuel) (t * 0x400000 + i * 4096) 1 k
      ≡ ok (some (record { table = next_page k; index = i }), with_table t k)
unfolding get_page
get_page-with_table fuel t i k c small empty =
    let table : (t * 0x400000 + i * 4096) / 0x1000 / 1024 ≡ t = omega arith in
    let index : (t * 0x400000 + i * 4096) / 0x1000 % 1024 ≡ i = omega arith in
    rw (table, index, empty, table_kmalloc-placed fuel k c) refl

-- `get_page` where there is one.
pub get_page-there :
    (fuel t i table : ℕ) (k : Kernel)
    → i < 1024
    → k.kernel_directory.tables t ≡ table
    → table ≢ 0
    → get_page (table_kmalloc fuel) (t * 0x400000 + i * 4096) 1 k
      ≡ ok (some (record { table = table; index = i }), k)
unfolding get_page
get_page-there fuel t i table k small there ne =
    let table' : (t * 0x400000 + i * 4096) / 0x1000 / 1024 ≡ t = omega arith in
    let index : (t * 0x400000 + i * 4096) / 0x1000 % 1024 ≡ i = omega arith in
    rw (table', index, there, ne→eqb_false table 0 ne) refl
