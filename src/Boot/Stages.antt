-- ===== src/Boot/Stages.antt =====
-- The state of the kernel while initialise_paging maps its pages.
use ahk_main.Base.{
  ℕ, suc, ◌+◌, ◌*◌, ◌/◌, ◌%◌, ◌≤◌, ◌<◌, ◌≡◌, ◌≢◌, ◌⊎◌, sym, ap, ◌∙◌, inl, inr, Bool-cases, false,
  some, Result, ok, ltb, ◌==◌, if◌then◌else◌, ne→eqb_false, length, arith,
}
use ahk_main.Kernel.{Kernel, PagePointer, Page, PageDirectory}
use ahk_main.Paging.{page_at, get_page, alloc_frame, first_frame}
use ahk_main.Paging.Bitset.{frame_bit}
use ahk_main.Paging.Frames.{
  FirstFree, no_frame, frame_at, first_frame-FirstFree, Mapped, alloc_frame-Mapped,
}
use ahk_main.Boot.{alloc_page}

-- The frames below `u` are in use, and those from there to 1024 are not.
abbrev pub UsedBelow : ℕ → Kernel → Type 0
UsedBelow u k = (j : ℕ) → j < 1024 → frame_bit k.frames j ≡ (if ltb j u then 1 else 0)

least :
    (u : ℕ) (k : Kernel) {r : Result ℕ}
    → UsedBelow u k
    → u < 1024
    → FirstFree 0 4096 k.frames r
    → r ≡ ok u
least u k below small (no_frame e all) =
    let used = all u (omega arith) (omega arith) in
    let free = below u small in absurd (ground arith)
least u k below small (frame_at f e _ _ z all) = elim (Bool-cases (ltb f u)) [
  | inl lt ↦ let used = below f (ground arith) in absurd (ground arith)
  | inr ge ↦ elim (Bool-cases (ltb u f)) [
    | inl lt ↦
        let used = all u (omega arith) (ground arith) in
        let free = below u small in absurd (ground arith)
    | inr le ↦ let same : f ≡ u = ground arith in e ∙ ap ok same
  ]
]

-- The least free frame is `u`.
first_frame-UsedBelow :
    (u : ℕ) (k : Kernel)
    → k.nframes ≡ 4096
    → length k.frames ≡ 128
    → UsedBelow u k
    → u < 1024
    → first_frame k.nframes k.frames ≡ ok u
first_frame-UsedBelow u k many words below small =
    ap (λ c. first_frame c k.frames) many
    ∙ least u k below small (first_frame-FirstFree k.frames 4096 (omega arith))

-- The tables `low` and `high` of the directory's entries 0 and 768 have their first `n` and `h` pages
-- mapped: the page `j` of the low one to the frame `j`, the page `r` of the high one to `n + r`.
pub record Stage (low high placement n h : ℕ) (k : Kernel) : Type 0 where
  pub early : k.kheap_ready ≡ false
  pub many : k.nframes ≡ 4096
  pub words : length k.frames ≡ 128
  pub used_below : UsedBelow (n + h) k
  pub placed : k.placement_address ≡ placement
  pub low_table : k.kernel_directory.tables 0 ≡ low
  pub some_low : low ≢ 0
  pub high_table : k.kernel_directory.tables 768 ≡ high
  pub some_high : high ≢ 0
  pub apart : low ≢ high
  pub low_mapped :
      (j : ℕ)
      → j < n
      → ((page_at k (record { table = low; index = j })).frame ≡ j)
        × ((page_at k (record { table = low; index = j })).present ≡ 1)
  pub low_free : (j : ℕ) → n ≤ j → (page_at k (record { table = low; index = j })).frame ≡ 0
  pub high_mapped :
      (r : ℕ)
      → r < h
      → ((page_at k (record { table = high; index = r })).frame ≡ n + r)
        × ((page_at k (record { table = high; index = r })).present ≡ 1)
  pub high_free : (r : ℕ) → h ≤ r → (page_at k (record { table = high; index = r })).frame ≡ 0

module _ (low high placement n h : ℕ) (k : Kernel) (st : Stage low high placement n h k)
    (small : n + h < 1024) where
  -- The frame that comes next, for a page of one of the tables that has none.
  next_frame :
      (p : PagePointer)
      → (page_at k p).frame ≡ 0
      → Mapped p (n + h) 0 0 k (alloc_frame (some p) 0 0 k)
  next_frame p free =
      alloc_frame-Mapped p (n + h) 0 0 k free
        (first_frame-UsedBelow (n + h) k st.many st.words st.used_below small)
        (let w = st.words in omega arith) (omega arith)

  UsedBelow-Mapped :
      {p : PagePointer} {r : Result Kernel} (v : ℕ) (m : Mapped p (n + h) 0 0 k r)
      → v ≡ suc (n + h)
      → UsedBelow v m.after
  UsedBelow-Mapped v m e j lt = let old = st.used_below j lt in let new = m.bits j in ground arith

  page_frame :
      (p q : PagePointer) {r : Result Kernel} (m : Mapped p (n + h) 0 0 k r)
      → (q.table ≢ p.table) ⊎ (q.index ≢ p.index)
      → ((page_at m.after q).frame ≡ (page_at k q).frame)
        × ((page_at m.after q).present ≡ (page_at k q).present)
  page_frame p q m ne =
      let same = m.other_pages q ne in
      (ap (λ (v : Page). v.frame) same, ap (λ (v : Page). v.present) same)

  abbrev low_page : ℕ → PagePointer
  low_page j = record { table = low; index = j }

  abbrev high_page : ℕ → PagePointer
  high_page r = record { table = high; index = r }

  low_step :
      h ≡ 0
      → (m : Mapped (low_page n) (n + h) 0 0 k (alloc_frame (some (low_page n)) 0 0 k))
      → Stage low high placement (suc n) h m.after
  low_step none_yet m = record {
    early = m.same_ready ∙ st.early;
    many = m.same_nframes ∙ st.many;
    words = m.same_words ∙ st.words;
    used_below = UsedBelow-Mapped (suc n + h) m (omega arith);
    placed = m.same_placement ∙ st.placed;
    low_table = ap (λ (d : PageDirectory). d.tables 0) m.same_directory ∙ st.low_table;
    some_low = st.some_low;
    high_table = ap (λ (d : PageDirectory). d.tables 768) m.same_directory ∙ st.high_table;
    some_high = st.some_high;
    apart = st.apart;
    low_mapped = λ j lt. elim (Bool-cases (j == n)) [
      | inl e ↦
          let here : j ≡ n = ground arith in
          let number : n + h ≡ n = omega arith in rw here (m.frame ∙ number, m.present)
      | inr ne ↦
          let other = page_frame (low_page n) (low_page j) m (inr (ground arith)) in
          let old = st.low_mapped j (ground arith) in (other.0 ∙ old.0, other.1 ∙ old.1)
    ];
    low_free = λ j le.
        (page_frame (low_page n) (low_page j) m (inr (omega arith))).0
        ∙ st.low_free j (omega arith);
    high_mapped = λ r lt. absurd (omega arith);
    high_free = λ r le.
        (page_frame (low_page n) (high_page r) m (inl (λ e. st.apart (sym e)))).0
        ∙ st.high_free r le;
  }

  high_step :
      (m : Mapped (high_page h) (n + h) 0 0 k (alloc_frame (some (high_page h)) 0 0 k))
      → Stage low high placement n (suc h) m.after
  high_step m = record {
    early = m.same_ready ∙ st.early;
    many = m.same_nframes ∙ st.many;
    words = m.same_words ∙ st.words;
    used_below = UsedBelow-Mapped (n + suc h) m (omega arith);
    placed = m.same_placement ∙ st.placed;
    low_table = ap (λ (d : PageDirectory). d.tables 0) m.same_directory ∙ st.low_table;
    some_low = st.some_low;
    high_table = ap (λ (d : PageDirectory). d.tables 768) m.same_directory ∙ st.high_table;
    some_high = st.some_high;
    apart = st.apart;
    low_mapped = λ j lt.
        let other = page_frame (high_page h) (low_page j) m (inl st.apart) in
        let old = st.low_mapped j lt in (other.0 ∙ old.0, other.1 ∙ old.1);
    low_free =
        λ j le. (page_frame (high_page h) (low_page j) m (inl st.apart)).0 ∙ st.low_free j le;
    high_mapped = λ r lt. elim (Bool-cases (r == h)) [
      | inl e ↦ let here : r ≡ h = ground arith in rw here (m.frame, m.present)
      | inr ne ↦
          let other = page_frame (high_page h) (high_page r) m (inr (ground arith)) in
          let old = st.high_mapped r (ground arith) in (other.0 ∙ old.0, other.1 ∙ old.1)
    ];
    high_free = λ r le.
        (page_frame (high_page h) (high_page r) m (inr (omega arith))).0
        ∙ st.high_free r (omega arith);
  }

  -- One round of the loops: the table of the page is there.
  pub alloc_page-low :
      (fuel : ℕ)
      → h ≡ 0
      → (k' : Kernel) × (alloc_page fuel (4096 * n) k ≡ ok k')
        × Stage low high placement (suc n) h k'
  unfolding alloc_page get_page
  alloc_page-low fuel none_yet =
      let m = next_frame (low_page n) (st.low_free n (omega arith)) in
      let page : 4096 * n / 0x1000 ≡ n = omega arith in
      let table : n / 1024 ≡ 0 = omega arith in
      let index : n % 1024 ≡ n = omega arith in
      let here : (low == 0) ≡ false = ne→eqb_false low 0 st.some_low in
      (m.after, rw (page, table, index, st.low_table, here) m.returns, low_step none_yet m)

  pub alloc_page-high :
      (fuel : ℕ)
      → (k' : Kernel) × (alloc_page fuel (0xC0000000 + 4096 * h) k ≡ ok k')
        × Stage low high placement n (suc h) k'
  unfolding alloc_page get_page
  alloc_page-high fuel =
      let m = next_frame (high_page h) (st.high_free h (omega arith)) in
      let page : (0xC0000000 + 4096 * h) / 0x1000 ≡ 0xC0000 + h = omega arith in
      let table : (0xC0000 + h) / 1024 ≡ 768 = omega arith in
      let index : (0xC0000 + h) % 1024 ≡ h = omega arith in
      let here : (high == 0) ≡ false = ne→eqb_false high 0 st.some_high in
      (m.after, rw (page, table, index, st.high_table, here) m.returns, high_step m)
