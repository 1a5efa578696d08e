-- ===== src/Paging.antt =====
-- paging.c: the bitset of physical frames, the frames behind pages, and the page tables.
pub mod Bitset
pub mod Frames
use ahk_main.Base.{
  ℕ, zero, suc, ◌+◌, ◌-◌, ◌*◌, ◌/◌, ◌%◌, ◌^◌, bit_and, bit_or, Bool, true, false, Option, none,
  some, List, Result, ok, fault, ◌>>=◌, ◌>>◌, or_fault, read, write, ◌==◌, if◌then◌else◌, u32,
}
use ahk_main.Kernel.{Page, PagePointer, PageDirectory, Kernel, zero_page, update}

-- `INDEX_FROM_BIT` and `OFFSET_FROM_BIT`
abbrev pub index_from_bit : ℕ → ℕ
index_from_bit a = a / (8 * 4)

abbrev pub offset_from_bit : ℕ → ℕ
offset_from_bit a = a % (8 * 4)

unfoldable pub set_frame : ℕ → List ℕ → Result (List ℕ)
set_frame frame_addr frames = do
  let frame = frame_addr / 0x1000
  let idx = index_from_bit frame
  let off = offset_from_bit frame
  w ← read frames idx
  write frames idx (bit_or w (2 ^ off))

unfoldable pub clear_frame : ℕ → List ℕ → Result (List ℕ)
clear_frame frame_addr frames = do
  let frame = frame_addr / 0x1000
  let idx = index_from_bit frame
  let off = offset_from_bit frame
  w ← read frames idx
  write frames idx (bit_and w (2 ^ 32 - 1 - 2 ^ off))

unfoldable pub test_frame : ℕ → List ℕ → Result ℕ
test_frame frame_addr frames = do
  let frame = frame_addr / 0x1000
  let idx = index_from_bit frame
  let off = offset_from_bit frame
  w ← read frames idx
  ok (bit_and w (2 ^ off))

-- the inner loop of `first_frame`, from bit `j` on with `rounds` bits left
unfoldable pub first_bit : ℕ → ℕ → ℕ → Option ℕ
first_bit zero j w = none
first_bit (suc rounds) j w =
    let rest = first_bit rounds (suc j) w in if bit_and w (2 ^ j) == 0 then some j else rest

-- The outer loop, from word `i` on. A function that ends without a value is undefined: no frame is
-- free.
unfoldable pub first_frame_from : ℕ → ℕ → List ℕ → Result ℕ
unfolding first_bit
first_frame_from zero i frames = fault
first_frame_from (suc rounds) i frames = do
  w ← read frames i
  let rest = first_frame_from rounds (suc i) frames
  if w == 0xFFFFFFFF
      then rest
      else elim (first_bit 32 0 w) [ none ↦ rest | some j ↦ ok (i * 4 * 8 + j) ]

unfoldable pub first_frame : ℕ → List ℕ → Result ℕ
unfolding first_frame_from
first_frame nframes frames = first_frame_from (index_from_bit nframes) 0 frames

abbrev pub page_at : Kernel → PagePointer → Page
page_at k p = k.pages p.table p.index

abbrev pub set_page : Kernel → PagePointer → Page → Kernel
set_page k p page = record k {
  pages = update k.pages p.table (update (k.pages p.table) p.index page);
}

-- `is_kernel` and `is_writeable` are truth values of C.
-- The page behind `p` is given the frame `idx`.
unfoldable pub map_frame : PagePointer → ℕ → ℕ → ℕ → Kernel → Result Kernel
unfolding set_frame
map_frame p idx is_kernel is_writeable k = do
  frames ← set_frame (u32 (idx * 0x1000)) k.frames
  ok (
      set_page (record k { frames = frames }) p
        (record (page_at k p) {
          present = 1;
          rw_bit = if is_writeable == 0 then 0 else 1;
          user = if is_kernel == 0 then 1 else 0;
          frame = idx % 2 ^ 20;
        }))

-- `is_kernel` and `is_writeable` are truth values of C.
unfoldable pub alloc_frame : Option PagePointer → ℕ → ℕ → Kernel → Result Kernel
unfolding first_frame map_frame
alloc_frame pointer is_kernel is_writeable k = do
  p ← or_fault pointer
  let fresh = first_frame k.nframes k.frames >>= λ idx. map_frame p idx is_kernel is_writeable k
  if (page_at k p).frame == 0 then fresh else ok k

unfoldable pub free_frame : Option PagePointer → Kernel → Result Kernel
unfolding clear_frame
free_frame pointer k = do
  p ← or_fault pointer
  let frame = (page_at k p).frame
  let freed = clear_frame frame k.frames >>= λ frames.
      ok (set_page (record k { frames = frames }) p (record (page_at k p) { frame = 0 }))
  if frame == 0 then ok k else freed

-- `kmalloc_int(sz, align, &phys)`: the address, and what is stored into `phys`.
abbrev pub Allocator : Type 0
Allocator = ℕ → ℕ → Kernel → Result (ℕ × ℕ × Kernel)

-- The table `new` of the directory's entry `table_idx`, its pages zeroed; 7 is present, rw, user.
abbrev pub add_table : ℕ → ℕ → ℕ → Kernel → Kernel
add_table table_idx new physical k = record k {
  pages = update k.pages new (λ _. zero_page);
  kernel_directory = record {
    tables = update k.kernel_directory.tables table_idx new;
    tables_physical = update k.kernel_directory.tables_physical table_idx (bit_or physical 7);
  };
}

-- `get_page` on the kernel's directory. A null pointer is `none`; `kmalloc` calls back into the heap.
unfoldable pub get_page : Allocator → ℕ → ℕ → Kernel → Result (Option PagePointer × Kernel)
get_page kmalloc address make k =
    let page = address / 0x1000 in
    let table_idx = page / 1024 in
    let table = k.kernel_directory.tables table_idx in
    let created = kmalloc 4096 1 k >>= λ (new, tmp, k').
    ok (some (record { table = new; index = page % 1024 }), add_table table_idx new tmp k') in
    if table == 0
    then (if make == 0 then ok (none, k) else created)
    else ok (some (record { table = table; index = page % 1024 }), k)
