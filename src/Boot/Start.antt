-- ===== src/Boot/Start.antt =====
-- make_frames and make_directory: before a page is mapped no frame is in use, and no table is there.
use ahk_main.Base.{
  ℕ, zero, suc, ◌+◌, ◌*◌, ◌/◌, ◌%◌, ◌^◌, ◌≤◌, ◌<◌, ◌≡◌, refl, ap, ◌∙◌, false, ok, ◌>>=◌, ltb, ◌==◌,
  ne→eqb_false, length, get_or, add32, arith,
}
use ahk_main.Base.Bits.{bit-zero}
use ahk_main.Memory.{Memory, load32}
use ahk_main.Common.Bytes.{memset, memset-bytes}
use ahk_main.Kernel.{Kernel}
use ahk_main.Kheap.Alloc.{kmalloc, kmalloc_a, kmalloc_int, kmalloc_placement}
use ahk_main.Boot.{words_at, make_frames, make_directory}
use ahk_main.Boot.Stages.{UsedBelow}

length-words_at : (n a : ℕ) (m : Memory) → length (words_at n a m) ≡ n
unfolding words_at
length-words_at zero a m = refl
length-words_at (suc n) a m = ap suc (length-words_at n (add32 a 4) m)

get_or-words_at :
    (n a i : ℕ) (m : Memory)
    → i < n
    → a + 4 * n < 2 ^ 32
    → get_or (words_at n a m) i 0 ≡ load32 m (a + 4 * i)
unfolding words_at
get_or-words_at zero a i m lt fits = absurd (omega arith)
get_or-words_at (suc n) a zero m lt fits = let here : a + 4 * 0 ≡ a = omega arith in rw here refl
get_or-words_at (suc n) a (suc i) m lt fits =
    let next : add32 a 4 ≡ a + 4 = omega arith in
    let place : a + 4 + 4 * i ≡ a + 4 * suc i = omega arith in
    rw next (get_or-words_at n (a + 4) i m (omega arith) (omega arith) ∙ rw place refl)

-- The words that lie in a cleared range are 0.
load32-cleared :
    (a len i : ℕ) (m : Memory)
    → a + len < 2 ^ 32
    → 4 * i + 4 ≤ len
    → load32 (memset a 0 len m) (a + 4 * i) ≡ 0
unfolding load32
load32-cleared a len i m fits inside =
    let clear = λ (j : ℕ) (lt : j < len). memset-bytes a 0 len m (a + j) fits in
    let b₀ = clear (4 * i) (omega arith) in
    let b₁ = clear (4 * i + 1) (omega arith) in
    let b₂ = clear (4 * i + 2) (omega arith) in
    let b₃ = clear (4 * i + 3) (omega arith) in
    let p₁ : a + 4 * i + 1 ≡ a + (4 * i + 1) = omega arith in
    let p₂ : a + 4 * i + 2 ≡ a + (4 * i + 2) = omega arith in
    let p₃ : a + 4 * i + 3 ≡ a + (4 * i + 3) = omega arith in
    rw (p₁, p₂, p₃, b₀, b₁, b₂, b₃) (ground arith)

-- No frame below 1024 is in use, and the directory has no table.
pub record Blank (placement : ℕ) (k : Kernel) : Type 0 where
  pub early : k.kheap_ready ≡ false
  pub many : k.nframes ≡ 4096
  pub words : length k.frames ≡ 128
  pub unused : UsedBelow 0 k
  pub no_tables : (t : ℕ) → k.kernel_directory.tables t ≡ 0
  pub placed : k.placement_address ≡ placement

-- The address behind the bitset and the directory, where the bitset starts at `a`.
abbrev pub behind_directory : ℕ → ℕ
behind_directory a = (a + 128) / 4096 * 4096 + 4096 + 8196

pub make-Blank :
    (fuel : ℕ) (k : Kernel)
    → k.kheap_ready ≡ false
    → 4096 ≤ k.placement_address
    → k.placement_address + 0x10000 < 2 ^ 32
    → (k' : Kernel) × ((make_frames fuel 4096 k >>= make_directory fuel) ≡ ok k')
      × Blank (behind_directory k.placement_address) k'
unfolding make_frames make_directory kmalloc kmalloc_a kmalloc_int kmalloc_placement
make-Blank fuel k early behind room =
    let a = k.placement_address in
    let memory = memset a 0 128 k.memory in
    let next : add32 a 128 ≡ a + 128 = omega arith in
    let some_page : ((a + 128) / 4096 * 4096 == 0) ≡ false =
      ne→eqb_false ((a + 128) / 4096 * 4096) 0 (omega arith) in
    let aligned : add32 ((a + 128) / 4096 * 4096) 4096 ≡ (a + 128) / 4096 * 4096 + 4096 =
      omega arith in
    let placed : add32 ((a + 128) / 4096 * 4096 + 4096) 8196 ≡ behind_directory a = omega arith in
    let made : Kernel = record k {
      nframes = 4096;
      memory = memory;
      frames = words_at 128 a memory;
      placement_address = behind_directory a;
      kernel_directory = record { tables = λ _. 0; tables_physical = λ _. 0 };
    } in
    let blank : Blank (behind_directory a) made = record {
      early = early;
      many = refl;
      words = length-words_at 128 a memory;
      unused = λ j lt.
          let word : get_or (words_at 128 a memory) (j / 32) 0 ≡ 0 =
            get_or-words_at 128 a (j / 32) memory (omega arith) (omega arith)
            ∙ load32-cleared a 128 (j / 32) k.memory (omega arith) (omega arith) in
          let none_below : ltb j 0 ≡ false = ground arith in
          rw (word, none_below) (bit-zero (j % 32));
      no_tables = λ t. refl;
      placed = refl;
    } in
    (made, rw (early, next, some_page, aligned, placed) refl, blank)
