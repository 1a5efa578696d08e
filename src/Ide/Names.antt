-- ===== src/Ide/Names.antt =====
-- The names of the models that ide_init reads, and their search.
use mathlib.Core.List.{append_assoc, append-nil}
use ahk_main.Base.{
  ℕ, zero, suc, ◌+◌, ◌*◌, ◌≡◌, ◌≢◌, refl, sym, ap, subst, ◌∙◌, List, [], ◌∷◌, ◌++◌, length, get_or,
  set, replicate, length-append, length-replicate, add32, eq→eqb, ne→eqb_false, arith,
}
use ahk_main.Memory.{Memory}
use ahk_main.Common.{ends_here, strcmp, NoNull}
use ahk_main.Ide.{Device, Ide}
use ahk_main.Ide.Identify.{swapped_pairs, trim, model_of, identified}
use ahk_main.Ide.Sectors.{find_drive, ata_get_drive_by_model}

-- The memory at an address holds the characters of a list as a drive sends them: the second one of
-- each pair comes first.
pub data Spelled (m : Memory) : ℕ → List ℕ → Type 0 where
  none_left : {a : ℕ} → Spelled m a []
  pair :
      {a c d : ℕ} {cs : List ℕ}
      → m (add32 a 1) ≡ c
      → m a ≡ d
      → Spelled m (add32 a 2) cs
      → Spelled m a (c ∷ d ∷ cs)

swapped_pairs-Spelled :
    (pairs a : ℕ) (m : Memory) (cs : List ℕ)
    → Spelled m a cs
    → length cs ≡ 2 * pairs
    → swapped_pairs pairs a m ≡ cs
unfolding swapped_pairs
swapped_pairs-Spelled zero a m [] none_left h = refl
swapped_pairs-Spelled zero a m (c ∷ []) x h = elim x [ ]
swapped_pairs-Spelled zero a m (c ∷ d ∷ cs) (pair e f more) h = absurd (omega arith)
swapped_pairs-Spelled (suc pairs) a m [] none_left h = absurd (omega arith)
swapped_pairs-Spelled (suc pairs) a m (c ∷ []) x h = elim x [ ]
swapped_pairs-Spelled (suc pairs) a m (c ∷ d ∷ cs) (pair e f more) h =
    let rest = swapped_pairs-Spelled pairs (add32 a 2) m cs more (omega arith) in cc

get_or-append : (xs ys : List ℕ) (y d : ℕ) → get_or (xs ++ (y ∷ ys)) (length xs) d ≡ y
get_or-append [] ys y d = refl
get_or-append (x ∷ xs) ys y d = get_or-append xs ys y d

set-append : (xs ys : List ℕ) (y v : ℕ) → set (xs ++ (y ∷ ys)) (length xs) v ≡ xs ++ (v ∷ ys)
set-append [] ys y v = refl
set-append (x ∷ xs) ys y v = ap (λ l. x ∷ l) (set-append xs ys y v)

replicate-snoc : (n c : ℕ) (ys : List ℕ) → replicate n c ++ (c ∷ ys) ≡ c ∷ (replicate n c ++ ys)
replicate-snoc zero c ys = refl
replicate-snoc (suc n) c ys = ap (λ l. c ∷ l) (replicate-snoc n c ys)

-- The last character stays, if it is no space.
trim_end :
    (xs ys : List ℕ) (c : ℕ) → c ≢ 32 → trim (suc (length xs)) (xs ++ (c ∷ ys)) ≡ xs ++ (c ∷ ys)
unfolding trim
trim_end xs ys c ne = rw (get_or-append xs ys c 0, ne→eqb_false c 32 ne) refl

trim_space :
    (xs ys : List ℕ) → trim (suc (length xs)) (xs ++ (32 ∷ ys)) ≡ trim (length xs) (xs ++ (0 ∷ ys))
unfolding trim
trim_space xs ys = rw (get_or-append xs ys 32 0, set-append xs ys 32 0) refl

-- Behind a list that stays, all spaces become nulls.
trim_spaces :
    (b ys : List ℕ) (n : ℕ)
    → ((zs : List ℕ) → trim (length b) (b ++ zs) ≡ b ++ zs)
    → trim (length b + n) (b ++ (replicate n 32 ++ ys)) ≡ b ++ (replicate n 0 ++ ys)
trim_spaces b ys zero stays = let all : length b + 0 ≡ length b = omega arith in rw all (stays ys)
trim_spaces b ys (suc n) stays =
    let xs = b ++ replicate n 32 in
    let places : length b + suc n ≡ suc (length xs) =
      omega (arith, length-append b (replicate n 32), length-replicate {A = ℕ} n 32) in
    let fewer : length xs ≡ length b + n = omega arith in
    let split : b ++ (32 ∷ (replicate n 32 ++ ys)) ≡ xs ++ (32 ∷ ys) =
      ap (λ l. b ++ l) (sym (replicate-snoc n 32 ys))
      ∙ sym (append_assoc b (replicate n 32) (32 ∷ ys)) in
    let rest = trim_spaces b (0 ∷ ys) n stays in
    rw (places, split, trim_space xs ys, fewer, append_assoc b (replicate n 32) (0 ∷ ys), rest)
      (ap (λ l. b ++ l) (replicate-snoc n 0 ys))

strcmp-null : (name zs : List ℕ) → NoNull name → strcmp (name ++ (0 ∷ zs)) name ≡ 0
unfolding strcmp ends_here
strcmp-null [] zs p = refl
strcmp-null (x ∷ name) zs p = rw (ne→eqb_false x 0 p.0, eq→eqb x x refl) (strcmp-null name zs p.1)

-- Every device of the list has another name.
abbrev pub AreOthers : List ℕ → List Device → Type 0
AreOthers name [] = Unit
AreOthers name (d ∷ ds) = (strcmp d.model name ≢ 0) × AreOthers name ds

find_drive-append :
    (name : List ℕ) (i : ℕ) (ds rest : List Device) (d : Device)
    → AreOthers name ds
    → strcmp d.model name ≡ 0
    → find_drive name i (ds ++ (d ∷ rest)) ≡ i + length ds
unfolding find_drive
find_drive-append name i [] rest d others e = rw (eq→eqb (strcmp d.model name) 0 e) (omega arith)
find_drive-append name i (x ∷ ds) rest d others e =
    rw (ne→eqb_false (strcmp x.model name) 0 others.0)
      (find_drive-append name (suc i) ds rest d others.1 e ∙ omega arith)

model_of-padded :
    (start : List ℕ) (c n ide_buf : ℕ) (m : Memory)
    → c ≢ 32
    → length start + n ≡ 39
    → Spelled m (add32 ide_buf 54) ((start ++ (c ∷ [])) ++ replicate n 32)
    → model_of ide_buf m ≡ (start ++ (c ∷ [])) ++ replicate (suc n) 0
unfolding model_of
model_of-padded start c n ide_buf m ne full spelled =
    let b = start ++ (c ∷ []) in
    let one_more : length b ≡ suc (length start) = length-append start (c ∷ []) ∙ omega arith in
    let stays : (zs : List ℕ) → trim (length b) (b ++ zs) ≡ b ++ zs =
      λ zs. rw (one_more, append_assoc start (c ∷ []) zs) (trim_end start zs c ne) in
    let forty : length b + n ≡ 40 = omega arith in
    let read : swapped_pairs 20 (add32 ide_buf 54) m ≡ b ++ replicate n 32 =
      swapped_pairs-Spelled 20 (add32 ide_buf 54) m (b ++ replicate n 32) spelled
        (length-append b (replicate n 32) ∙ omega (arith, length-replicate {A = ℕ} n 32)) in
    let trimmed : trim 40 (b ++ replicate n 32) ≡ b ++ replicate n 0 =
      ap (λ l. trim 40 (b ++ l)) (sym (append-nil (replicate n 32)))
      ∙ ap (λ k. trim k (b ++ (replicate n 32 ++ []))) (sym forty)
      ∙ trim_spaces b [] n stays
      ∙ ap (λ l. b ++ l) (append-nil (replicate n 0)) in
    rw
      (
        read,
        trimmed,
        append_assoc b (replicate n 0) (0 ∷ []),
        replicate-snoc n 0 [],
        append-nil {A = ℕ} (replicate n 0),
      )
      refl

-- The name of a model as a drive sends it, of at most 40 characters: without nulls, and without a
-- space at its end, behind which spaces fill the 40 places.
pub record Sent (ide_buf : ℕ) (m : Memory) (name : List ℕ) : Type 0 where
  pub start : List ℕ
  pub end : ℕ
  pub spaces : ℕ
  pub parts : name ≡ start ++ (end ∷ [])
  pub no_space : end ≢ 32
  pub full : length start + spaces ≡ 39
  pub no_null : NoNull name
  pub spelled : Spelled m (add32 ide_buf 54) (name ++ replicate spaces 32)

-- `ata_get_drive_by_model` finds the drive that `ide_init` has read from an identification: with the
-- name that the drive sends, whose characters are swapped in pairs and filled up with spaces to 40
-- places, it returns the drive's place in the table, where no drive before it has that name.
pub ata_get_drive_by_model-identified :
    {D : Type 0} (name : List ℕ) (i j type_of ide_buf : ℕ) (m : Memory) (ds rest : List Device)
    (s : Ide D)
    → Sent ide_buf m name
    → s.devices ≡ ds ++ (identified i j type_of ide_buf m ∷ rest)
    → AreOthers name ds
    → ata_get_drive_by_model name s ≡ length ds
unfolding ata_get_drive_by_model identified
ata_get_drive_by_model-identified name i j type_of ide_buf m ds rest s sent e others =
    let model : model_of ide_buf m ≡ name ++ (0 ∷ replicate sent.spaces 0) =
      model_of-padded sent.start sent.end sent.spaces ide_buf m sent.no_space sent.full (
        subst (λ l. Spelled m (add32 ide_buf 54) (l ++ replicate sent.spaces 32)) sent.parts
          sent.spelled)
      ∙ ap (λ l. l ++ (0 ∷ replicate sent.spaces 0)) (sym sent.parts) in
    let found : strcmp (model_of ide_buf m) name ≡ 0 =
      ap (λ l. strcmp l name) model ∙ strcmp-null name (replicate sent.spaces 0) sent.no_null in
    ap (find_drive name 0) e
    ∙ find_drive-append name 0 ds rest (identified i j type_of ide_buf m) others found
    ∙ omega arith
