-- ===== src/Paging/Frames.antt =====
-- first_frame, alloc_frame and free_frame.
use ahk_main.Base.{
  ℕ, zero, suc, ◌+◌, ◌*◌, ◌/◌, ◌%◌, ◌^◌, ◌≤◌, ◌<◌, ◌≡◌, ◌≢◌, refl, ap, ◌∙◌, ◌⊎◌, inl, inr, true,
  false, Bool-cases, Option, none, some, List, Result, ok, fault, ◌==◌, if◌then◌else◌, length,
  get_or, read-ok, ne→eqb_false, eq→eqb, bit_and, u32, arith,
}
use native.Mathlib.Nat.{one-le-pow, zero-mul}
use ahk_main.Base.Bits.{bit, bit-lt, bit_and-two_pow, bit-complement, bit-zero}
use ahk_main.Kernel.{Page, PagePointer, Kernel}
use ahk_main.Paging.{
  first_bit, first_frame_from, first_frame, map_frame, alloc_frame, free_frame, page_at, set_page,
}
use ahk_main.Paging.Bitset.{frame_bit, set_frame-Changed, clear_frame-Changed}

tested : (w j : ℕ) → (bit_and w (2 ^ j) == 0) ≡ (bit j w == 0)
tested w j =
    let e = bit_and-two_pow j w in
    let p = one-le-pow j 2 (omega arith) in
    elim (Bool-cases (bit j w == 0)) [
      | inl z ↦ let z' : bit j w ≡ 0 = ground arith in rw (e, z', zero-mul) refl
      | inr o ↦ let o' : bit j w ≡ 1 = ground (arith, bit-lt j w) in rw (e, o') (ground arith)
    ]

-- The lowest clear bit from `j` on, or none among the `rounds` bits.
data FirstBit (w j rounds : ℕ) (r : Option ℕ) : Type 0 where
  all_set : r ≡ none → ((i : ℕ) → j ≤ i → i < j + rounds → bit i w ≡ 1) → FirstBit w j rounds r
  clear_at :
      (b : ℕ)
      → r ≡ some b
      → j ≤ b
      → b < j + rounds
      → bit b w ≡ 0
      → ((i : ℕ) → j ≤ i → i < b → bit i w ≡ 1)
      → FirstBit w j rounds r

one_more : (w j i : ℕ) → bit j w ≡ 1 → (suc j ≤ i → bit i w ≡ 1) → j ≤ i → bit i w ≡ 1
one_more w j i e h le = elim (Bool-cases (j == i)) [
  | inl s ↦ let s' : i ≡ j = ground arith in rw s' e
  | inr d ↦ h (ground arith)
]

first_bit-FirstBit : (rounds j w : ℕ) → FirstBit w j rounds (first_bit rounds j w)
unfolding first_bit
first_bit-FirstBit zero j w = all_set refl (λ i p q. absurd (omega arith))
first_bit-FirstBit (suc rounds) j w = rw (tested w j) (elim (Bool-cases (bit j w == 0)) [
  | inl z ↦
      rw z
        (clear_at j refl (omega arith) (omega arith) (ground arith) (λ i p q. absurd (omega arith)))
  | inr o ↦ rw o (later (ground (arith, bit-lt j w)) (first_bit-FirstBit rounds (suc j) w))
])
  where
    later : {r : Option ℕ} → bit j w ≡ 1 → FirstBit w (suc j) rounds r → FirstBit w j (suc rounds) r
    later e (all_set n h) = all_set n (λ i p q. one_more w j i e (λ l. h i l (omega arith)) p)
    later e (clear_at b s p q z h) =
        clear_at b s (omega arith) (omega arith) z (λ i l u. one_more w j i e (λ l'. h i l' u) l)

-- The least free frame from word `i` on, or a fault where all of them are used.
pub data FirstFree (from last : ℕ) (frames : List ℕ) (r : Result ℕ) : Type 0 where
  no_frame :
      r ≡ fault
      → ((n : ℕ) → from ≤ n → n < last → frame_bit frames n ≡ 1)
      → FirstFree from last frames r
  frame_at :
      (f : ℕ)
      → r ≡ ok f
      → from ≤ f
      → f < last
      → frame_bit frames f ≡ 0
      → ((n : ℕ) → from ≤ n → n < f → frame_bit frames n ≡ 1)
      → FirstFree from last frames r

module _ (frames : List ℕ) where
  all_used :
      (i n : ℕ)
      → ((b : ℕ) → b < 32 → bit b (get_or frames i 0) ≡ 1)
      → n / 32 ≡ i
      → frame_bit frames n ≡ 1
  all_used i n h e = rw e (h (n % 32) (omega arith))

  -- Every frame of a word is used: the search goes on behind the word.
  skip :
      (i last : ℕ) {r : Result ℕ}
      → ((b : ℕ) → b < 32 → bit b (get_or frames i 0) ≡ 1)
      → FirstFree (suc i * 32) last frames r
      → FirstFree (i * 32) last frames r
  skip i last ones (no_frame e h) = no_frame e (λ n p q. elim (Bool-cases (n / 32 == i)) [
    | inl s ↦ all_used i n ones (ground arith)
    | inr d ↦ h n (ground arith) q
  ])
  skip i last ones (frame_at f e p q z h) = frame_at f e (omega arith) q z (λ n l u.
      elim (Bool-cases (n / 32 == i)) [
        | inl s ↦ all_used i n ones (ground arith)
        | inr d ↦ h n (ground arith) u
      ])

  in_word :
      (i last : ℕ) {fb : Option ℕ} {rest : Result ℕ}
      → suc i * 32 ≤ last
      → FirstBit (get_or frames i 0) 0 32 fb
      → FirstFree (suc i * 32) last frames rest
      → FirstFree (i * 32) last frames (elim fb [ none ↦ rest | some j ↦ ok (i * 4 * 8 + j) ])
  in_word i last le (all_set e h) rest =
      rw e (skip i last (λ b lt. h b (omega arith) (omega arith)) rest)
  in_word i last le (clear_at b e p q z h) rest =
      let word : (i * 4 * 8 + b) / 32 ≡ i = omega arith in
      let place : (i * 4 * 8 + b) % 32 ≡ b = omega arith in
      rw e (
        frame_at (i * 4 * 8 + b) refl (omega arith) (omega arith) (rw (word, place) z) (λ n l u.
          let word' : n / 32 ≡ i = omega arith in
          rw word' (h (n % 32) (omega arith) (omega arith))))

  full_word : (i b : ℕ) → get_or frames i 0 ≡ 0xFFFFFFFF → b < 32 → bit b (get_or frames i 0) ≡ 1
  full_word i b e lt = rw e (omega (arith, bit-complement 32 b 0 lt (omega arith), bit-zero b))

  first_frame_from-FirstFree :
      (rounds i last : ℕ)
      → (i + rounds) * 32 ≡ last
      → i + rounds ≤ length frames
      → FirstFree (i * 32) last frames (first_frame_from rounds i frames)
  unfolding first_frame_from
  first_frame_from-FirstFree zero i last e inside = no_frame refl (λ n p q. absurd (omega arith))
  first_frame_from-FirstFree (suc rounds) i last e inside =
      let rest = first_frame_from-FirstFree rounds (suc i) last (omega arith) (omega arith) in
      rw (read-ok frames i 0 (omega arith)) (elim (Bool-cases (get_or frames i 0 == 0xFFFFFFFF)) [
        | inl f ↦ rw f (skip i last (λ b lt. full_word i b (ground arith) lt) rest)
        | inr d ↦
            rw d (in_word i last (omega arith) (first_bit-FirstBit 32 0 (get_or frames i 0)) rest)
      ])

  -- `first_frame`, on a bitset that has the words of `nframes` frames, is the least free frame below
  -- `nframes` rounded down to a multiple of 32; where all of those are used it ends without a value.
  pub first_frame-FirstFree :
      (nframes : ℕ)
      → nframes / 32 ≤ length frames
      → FirstFree 0 (nframes / 32 * 32) frames (first_frame nframes frames)
  unfolding first_frame
  first_frame-FirstFree nframes inside =
      first_frame_from-FirstFree (nframes / 32) 0 (nframes / 32 * 32) (omega arith) (omega arith)

pub page_at-set_page_self :
    (k : Kernel) (p : PagePointer) (v : Page) → page_at (set_page k p v) p ≡ v
page_at-set_page_self k p v =
    let t : (p.table == p.table) ≡ true = eq→eqb _ _ refl in
    let i : (p.index == p.index) ≡ true = eq→eqb _ _ refl in rw (t, i)

pub page_at-set_page_ne :
    (k : Kernel) (p q : PagePointer) (v : Page)
    → (q.table ≢ p.table) ⊎ (q.index ≢ p.index)
    → page_at (set_page k p v) q ≡ page_at k q
page_at-set_page_ne k p q v ne = elim (Bool-cases (q.table == p.table)) [
  | inl e ↦
      let i : (q.index == p.index) ≡ false = ground arith in
      let t : q.table ≡ p.table = ground arith in rw (e, i, t)
  | inr d ↦ rw d
]

-- `alloc_frame` on an unmapped page, with `f` the least free frame.
pub record Mapped (p : PagePointer) (f is_kernel is_writeable : ℕ) (k : Kernel) (r : Result Kernel)
    : Type 0 where
  pub after : Kernel
  pub returns : r ≡ ok after
  pub bits : (j : ℕ) → frame_bit after.frames j ≡ (if j == f then 1 else frame_bit k.frames j)
  pub frame : (page_at after p).frame ≡ f
  pub present : (page_at after p).present ≡ 1
  pub user : (page_at after p).user ≡ (if is_kernel == 0 then 1 else 0)
  pub writeable : (page_at after p).rw_bit ≡ (if is_writeable == 0 then 0 else 1)
  pub other_pages :
      (q : PagePointer) → (q.table ≢ p.table) ⊎ (q.index ≢ p.index) → page_at after q ≡ page_at k q
  pub same_words : length after.frames ≡ length k.frames
  pub same_nframes : after.nframes ≡ k.nframes
  pub same_directory : after.kernel_directory ≡ k.kernel_directory
  pub same_placement : after.placement_address ≡ k.placement_address
  pub same_ready : after.kheap_ready ≡ k.kheap_ready

module _ (p : PagePointer) (f is_kernel is_writeable : ℕ) (k : Kernel)
    (unmapped : (page_at k p).frame ≡ 0) (first : first_frame k.nframes k.frames ≡ ok f)
    (inside : f / 32 < length k.frames) (small : f < 2 ^ 20) where
  -- `alloc_frame` on a page with no frame gives it the frame that `first_frame` finds, where the bitset
  -- has its word and its number fits in 20 bits, with the asked flags; that frame alone is marked as
  -- used, and no other page changes.
  pub alloc_frame-Mapped :
      Mapped p f is_kernel is_writeable k (alloc_frame (some p) is_kernel is_writeable k)
  unfolding alloc_frame map_frame
  alloc_frame-Mapped =
      let c = set_frame-Changed k.frames f inside in
      let addr : u32 (f * 0x1000) ≡ f * 0x1000 = omega arith in
      let number : f % 2 ^ 20 ≡ f = omega arith in
      let free : ((page_at k p).frame == 0) ≡ true = eq→eqb _ _ unmapped in
      let page : Page = record (page_at k p) {
        present = 1;
        rw_bit = if is_writeable == 0 then 0 else 1;
        user = if is_kernel == 0 then 1 else 0;
        frame = f;
      } in
      let marked : Kernel = record k { frames = c.out } in
      let self = page_at-set_page_self marked p page in
      rw (free, first, addr, number, c.returns)
        (record {
          after = set_page marked p page;
          returns = refl;
          bits = c.bits;
          frame = ap (λ (v : Page). v.frame) self;
          present = ap (λ (v : Page). v.present) self;
          user = ap (λ (v : Page). v.user) self;
          writeable = ap (λ (v : Page). v.rw_bit) self;
          other_pages = λ q ne. page_at-set_page_ne marked p q page ne;
          same_words = c.same_length;
          same_nframes = refl;
          same_directory = refl;
          same_placement = refl;
          same_ready = refl;
        })

-- A page that has a frame keeps it: `alloc_frame` changes nothing.
pub alloc_frame-mapped :
    (p : PagePointer) (is_kernel is_writeable : ℕ) (k : Kernel)
    → (page_at k p).frame ≢ 0
    → alloc_frame (some p) is_kernel is_writeable k ≡ ok k
unfolding alloc_frame
alloc_frame-mapped p is_kernel is_writeable k ne =
    let t : ((page_at k p).frame == 0) ≡ false = ne→eqb_false _ _ ne in rw t

pub record Freed (p : PagePointer) (k : Kernel) (r : Result Kernel) : Type 0 where
  pub after : Kernel
  pub returns : r ≡ ok after
  pub unmapped : (page_at after p).frame ≡ 0
  pub bits :
      (j : ℕ)
      → frame_bit after.frames j
        ≡ (if j == (page_at k p).frame / 0x1000 then 0 else frame_bit k.frames j)

-- `free_frame` unmaps the page, but passes the number of its frame on as an address: the bit that is
-- cleared is that of the frame with number `frame / 0x1000`, and the page's own frame stays marked.
pub free_frame-Freed :
    (p : PagePointer) (k : Kernel)
    → (page_at k p).frame ≢ 0
    → (page_at k p).frame / 0x1000 / 32 < length k.frames
    → Freed p k (free_frame (some p) k)
unfolding free_frame
free_frame-Freed p k ne inside =
    let f = (page_at k p).frame in
    let t : (f == 0) ≡ false = ne→eqb_false _ _ ne in
    let c = clear_frame-Changed k.frames (f / 0x1000) inside f refl in
    let page : Page = record (page_at k p) { frame = 0 } in
    let marked : Kernel = record k { frames = c.out } in
    rw (t, c.returns)
      (record {
        after = set_page marked p page;
        returns = refl;
        unmapped = ap (λ (v : Page). v.frame) (page_at-set_page_self marked p page);
        bits = c.bits;
      })

-- `free_frame` on a page with a frame that is marked as used returns, where the bitset has the word
-- that it clears a bit of, and leaves the page's frame marked as used.
pub free_frame_leaks :
    (p : PagePointer) (k : Kernel)
    → (page_at k p).frame ≢ 0
    → (page_at k p).frame / 0x1000 / 32 < length k.frames
    → frame_bit k.frames (page_at k p).frame ≡ 1
    → (k' : Kernel) × (free_frame (some p) k ≡ ok k')
      × (frame_bit k'.frames (page_at k p).frame ≡ 1)
free_frame_leaks p k ne inside in_use =
    let r = free_frame-Freed p k ne inside in
    let d : ((page_at k p).frame == (page_at k p).frame / 0x1000) ≡ false =
      ne→eqb_false _ _ (λ e. ne (omega arith)) in
    (r.after, r.returns, r.bits (page_at k p).frame ∙ rw d in_use)
