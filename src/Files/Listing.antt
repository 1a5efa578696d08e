-- ===== src/Files/Listing.antt =====
-- The files that disk_readdir lists are those that disk_finddir finds.
use ahk_main.Base.{
  ltb, ℕ, zero, suc, ◌+◌, ◌*◌, ◌%◌, ◌^◌, ◌<◌, ◌≡◌, ◌≢◌, refl, sym, ap, ◌∙◌, inl, inr, Bool, true,
  false, false, some, List, [], ◌∷◌, ◌++◌, map, length, set, drop, get_elem?, length-append,
  length-drop, ok, read, write-ok, leb, ◌==◌, ◌&&◌, eq→eqb, ne→eqb_false, sub32, arith,
}
use ahk_main.Common.{ends_here, strcmp, NoNull, strcmp-equal}
use ahk_main.Common.Copies.{strcpy-copies}
use ahk_main.Files.{Dirent}
use ahk_main.Files.Disk.{RootNode, Disk, dev_name, named, disk_readdir, find_node, disk_finddir}

-- What a node in `root_nodes` holds: a name, its null, and what is behind it in the array.
pub record Entry : Type 0 where
  pub text : List ℕ
  pub behind : List ℕ
  pub inode : ℕ

abbrev pub as_node : Entry → RootNode
as_node e = record { name = e.text ++ (0 ∷ e.behind); inode = e.inode }

-- The entries have other names.
abbrev pub AreApart : List ℕ → List Entry → Type 0
AreApart text [] = Unit
AreApart text (e ∷ es) = (text ≢ e.text) × NoNull e.text × AreApart text es

-- What the C library promises of `strlen`.
abbrev pub Counts : (List ℕ → ℕ) → Type 0
Counts strlen = (text behind : List ℕ) → NoNull text → strlen (text ++ (0 ∷ behind)) ≡ length text

-- `strcmp` does not read behind the nulls.
strcmp-terminated :
    (s t a b : List ℕ) → NoNull s → NoNull t → strcmp (s ++ (0 ∷ a)) (t ++ (0 ∷ b)) ≡ strcmp s t
unfolding strcmp ends_here
strcmp-terminated [] [] a b p q = refl
strcmp-terminated [] (y ∷ t) a b p q = rw (ne→eqb_false y 0 q.0) refl
strcmp-terminated (x ∷ s) [] a b p q = rw (ne→eqb_false x 0 p.0) refl
strcmp-terminated (x ∷ s) (y ∷ t) a b p q =
    rw (ne→eqb_false x 0 p.0, ne→eqb_false y 0 q.0, strcmp-terminated s t a b p.1 q.1) refl

strcmp_same : (s : List ℕ) → NoNull s → strcmp s s ≡ 0
strcmp_same s p = elim (strcmp-equal s s p p) [ inl r ↦ r.0 | inr r ↦ absurd (r.1 refl) ]

strcmp_other : (s t : List ℕ) → NoNull s → NoNull t → s ≢ t → strcmp s t ≢ 0
strcmp_other s t p q ne e = elim (strcmp-equal s t p q) [
  | inl r ↦ ne r.1
  | inr r ↦ let one = r.0 in omega arith
]

set-terminated :
    (t dest : List ℕ)
    → length t < length dest
    → (behind : List ℕ) × (set (t ++ drop (length t) dest) (length t) 0 ≡ t ++ (0 ∷ behind))
set-terminated [] [] h = absurd (omega arith)
set-terminated [] (d ∷ dest) h = (dest, refl)
set-terminated (x ∷ t) [] h = absurd (omega arith)
set-terminated (x ∷ t) (d ∷ dest) h =
    let (behind, e) = set-terminated t dest (omega arith) in (behind, ap (λ l. x ∷ l) e)

-- `dirent` holds the name, and a null behind it.
named-terminated :
    (x : ℕ) (xs behind : List ℕ) (ino : ℕ) (d : Disk)
    → NoNull (x ∷ xs)
    → length (x ∷ xs) < length d.dirent.name
    → (rest : List ℕ) × (named ((x ∷ xs) ++ (0 ∷ behind)) (length (x ∷ xs)) ino d
        ≡ ok (
          some (record { name = (x ∷ xs) ++ (0 ∷ rest); ino = ino }),
          record d { dirent = record { name = (x ∷ xs) ++ (0 ∷ rest); ino = ino } },
        ))
unfolding named
named-terminated x xs behind ino d p h =
    let dest = d.dirent.name in
    let t = x ∷ xs in
    let (rest, e) = set-terminated t dest h in
    let wide : length t < length (t ++ drop (length t) dest) =
      omega (arith, length-append t (drop (length t) dest), length-drop (length t) dest) in
    (
      rest,
      rw
          (
            strcpy-copies dest x xs behind p (omega arith),
            write-ok (t ++ drop (length t) dest) (length t) 0 wide,
            e,
          )
          refl,
    )

get_elem?-map :
    (before : List Entry) (rest : List RootNode) (n : RootNode)
    → get_elem? (map as_node before ++ (n ∷ rest)) (length before) ≡ some n
get_elem?-map [] rest n = refl
get_elem?-map (e ∷ before) rest n = get_elem?-map before rest n

-- The search passes over the entries with other names.
find_node-AreApart :
    (rounds i : ℕ) (tail : List ℕ) (e : Entry) (before : List Entry) (rest : List RootNode)
    (d : Disk)
    → NoNull e.text
    → AreApart e.text before
    → ((j : ℕ)
        → get_elem? d.root_nodes (i + j) ≡ get_elem? (map as_node before ++ (as_node e ∷ rest)) j)
    → length before < rounds
    → find_node rounds i (e.text ++ (0 ∷ tail)) d
      ≡ ok ((d.root_nodes_at + (i + length before) * 184) % 2 ^ 32)
unfolding find_node read
find_node-AreApart zero i tail e before rest d p apart at h = absurd (omega arith)
find_node-AreApart (suc rounds) i tail e [] rest d p apart at h =
    let start : i + 0 ≡ i = omega arith in
    let here : get_elem? d.root_nodes i ≡ some (as_node e) =
      ap (get_elem? d.root_nodes) (sym start) ∙ at 0 in
    let same : strcmp (e.text ++ (0 ∷ tail)) (e.text ++ (0 ∷ e.behind)) ≡ 0 =
      strcmp-terminated e.text e.text tail e.behind p p ∙ strcmp_same e.text p in
    rw (here, eq→eqb (strcmp (e.text ++ (0 ∷ tail)) (e.text ++ (0 ∷ e.behind))) 0 same, start) refl
find_node-AreApart (suc rounds) i tail e (b ∷ before) rest d p apart at h =
    let start : i + 0 ≡ i = omega arith in
    let here : get_elem? d.root_nodes i ≡ some (as_node b) =
      ap (get_elem? d.root_nodes) (sym start) ∙ at 0 in
    let differ : strcmp (e.text ++ (0 ∷ tail)) (b.text ++ (0 ∷ b.behind)) ≢ 0 = λ z.
      strcmp_other e.text b.text p apart.1 apart.0
        (sym (strcmp-terminated e.text b.text tail b.behind p apart.1) ∙ z) in
    let on : (j : ℕ)
        → get_elem? d.root_nodes (suc i + j)
          ≡ get_elem? (map as_node before ++ (as_node e ∷ rest)) j =
      λ j.
        (let next : suc i + j ≡ i + suc j = omega arith in
          ap (get_elem? d.root_nodes) next ∙ at (suc j)) in
    let more : suc i + length before ≡ i + suc (length before) = omega arith in
    rw (here, ne→eqb_false (strcmp (e.text ++ (0 ∷ tail)) (b.text ++ (0 ∷ b.behind))) 0 differ)
      (find_node-AreApart rounds (suc i) tail e before rest d p apart.2 on (omega arith)
        ∙ ap (λ n. ok ((d.root_nodes_at + n * 184) % 2 ^ 32)) more)

dev-NoNull : NoNull (100 ∷ 101 ∷ 118 ∷ [])
dev-NoNull = (omega arith, (omega arith, (omega arith, tt)))

and_false : (b : Bool) → (b && false) ≡ false
and_false true = refl
and_false false = refl

-- For a directory of less than 2 ^ 31 nodes that have names with nulls behind them, where `strlen`
-- counts: `disk_readdir`
-- at the index of a node behind the first one lists the node's inode, and a name with which
-- `disk_finddir` then finds the node, if its name is not empty and not `dev`, no node before it has
-- the same name, and `dirent` has room for it and its null.
pub disk_finddir-disk_readdir :
    (strlen : List ℕ → ℕ) (node x : ℕ) (xs behind : List ℕ) (inode : ℕ) (before : List Entry)
    (rest : List RootNode) (d : Disk)
    → Counts strlen
    → d.root_nodes
      ≡ map as_node before
        ++ (as_node (record { text = x ∷ xs; behind = behind; inode = inode }) ∷ rest)
    → length before < d.nroot_nodes
    → d.nroot_nodes < 2 ^ 31
    → NoNull (x ∷ xs)
    → x ∷ xs ≢ 100 ∷ 101 ∷ 118 ∷ []
    → AreApart (x ∷ xs) before
    → length (x ∷ xs) < length d.dirent.name
    → (entry : Dirent) × (d' : Disk) × (disk_readdir strlen node (suc (length before)) d
        ≡ ok (some entry, d'))
      × (entry.ino ≡ inode)
      × (disk_finddir node entry.name d' ≡ ok ((d.root_nodes_at + length before * 184) % 2 ^ 32))
unfolding disk_readdir disk_finddir read
disk_finddir-disk_readdir strlen node x xs behind inode before rest d count at n fits p other apart
      room =
    let e : Entry = record { text = x ∷ xs; behind = behind; inode = inode } in
    let (tail, listed) = named-terminated x xs behind inode d p room in
    let entry : Dirent = record { name = (x ∷ xs) ++ (0 ∷ tail); ino = inode } in
    let index : sub32 (suc (length before)) 1 ≡ length before = omega arith in
    let here : get_elem? d.root_nodes (length before) ≡ some (as_node e) =
      ap (λ l. get_elem? l (length before)) at ∙ get_elem?-map before rest (as_node e) in
    let inside : leb d.nroot_nodes (length before) ≡ false = ground arith in
    let behind_first : ((node == d.initrd_root) && (suc (length before) == 0)) ≡ false =
      ground arith in
    let not_dev : (strcmp ((x ∷ xs) ++ (0 ∷ tail)) dev_name == 0) ≡ false = ne→eqb_false _ 0 (λ z.
      strcmp_other (x ∷ xs) (100 ∷ 101 ∷ 118 ∷ []) p dev-NoNull other
        (sym (strcmp-terminated (x ∷ xs) (100 ∷ 101 ∷ 118 ∷ []) tail [] p dev-NoNull) ∙ z)) in
    let signed : ltb d.nroot_nodes (2 ^ 31) ≡ true = ground arith in
    let searched : ((node == d.initrd_root) && (strcmp ((x ∷ xs) ++ (0 ∷ tail)) dev_name == 0))
        ≡ false =
      ap (λ c. (node == d.initrd_root) && c) not_dev ∙ and_false (node == d.initrd_root) in
    (
      entry,
      record d { dirent = entry },
      rw (behind_first, index, inside, here, count (x ∷ xs) behind p, listed) refl,
      refl,
      rw (searched, signed)
          (find_node-AreApart d.nroot_nodes 0 tail e before rest (record d { dirent = entry }) p
              apart
              (λ j.
                (let same : 0 + j ≡ j = omega arith in
                  ap (get_elem? d.root_nodes) same ∙ ap (λ l. get_elem? l j) at))
              n
            ∙ ap (λ i. ok ((d.root_nodes_at + i * 184) % 2 ^ 32)) (omega arith)),
    )
