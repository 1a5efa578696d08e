-- ===== src/Initrd/Written.antt =====
-- What the loops of initrdcreator.c make of files that can be opened.
use ahk_main.Base.{
  ℕ, suc, ◌+◌, ◌%◌, ◌^◌, ◌≤◌, ◌<◌, ◌≡◌, ◌≢◌, refl, ap, true, some, List, [], ◌∷◌, ◌++◌, map, ok,
  ltb, add32, length, length-append, length-drop, take, drop, arith,
}
use ahk_main.Initrd.{Source, InitrdHeader, fill_header, make_headers, copy_contents}
use ahk_main.Initrd.Bytes.{AllSized}

-- A file that can be opened.
pub record File : Type 0 where
  pub name : List ℕ
  pub bytes : List ℕ

abbrev pub on_disk : File → Source
on_disk f = record { name = f.name; contents = some f.bytes }

abbrev pub NoNull : List ℕ → Type 0
NoNull [] = Unit {0}
NoNull (c ∷ cs) = (c ≢ 0) × NoNull cs

-- Names of at most 63 characters, none of them a null.
abbrev pub AllNamed : List File → Type 0
AllNamed [] = Unit {0}
AllNamed (f ∷ fs) = (length f.name < 64) × NoNull f.name × AllNamed fs

abbrev pub total : List File → ℕ
total [] = 0
total (f ∷ fs) = length f.bytes + total fs

abbrev pub joined : List File → List ℕ
joined [] = []
joined (f ∷ fs) = f.bytes ++ joined fs

-- The headers once they are filled in.
abbrev pub written : ℕ → List InitrdHeader → List File → List InitrdHeader
written off [] fs = []
written off (h ∷ old) [] = h ∷ old
written off (h ∷ old) (f ∷ fs) =
    fill_header f.name off (length f.bytes) h ∷ written (off + length f.bytes) old fs

pub length-on_disk : (fs : List File) → length (map on_disk fs) ≡ length fs
length-on_disk [] = refl
length-on_disk (f ∷ fs) = ap suc (length-on_disk fs)

pub length-written :
    (off : ℕ) (old : List InitrdHeader) (fs : List File) → length (written off old fs) ≡ length old
length-written off [] fs = refl
length-written off (h ∷ old) [] = refl
length-written off (h ∷ old) (f ∷ fs) = ap suc (length-written (off + length f.bytes) old fs)

pub written-AllSized :
    (off : ℕ) (old : List InitrdHeader) (fs : List File)
    → AllSized old
    → AllNamed fs
    → AllSized (written off old fs)
written-AllSized off [] fs all named = tt
written-AllSized off (h ∷ old) [] all named = all
written-AllSized off (h ∷ old) (f ∷ fs) (s, all) (short, clean, named) =
    let name_size = s.name in
    (
      record {
        name = omega (
          arith,
          length-append f.name (0 ∷ drop (suc (length f.name)) h.name),
          length-drop (suc (length f.name)) h.name,
          name_size,
        );
        padding = s.padding;
      },
      written-AllSized (off + length f.bytes) old fs all named,
    )

pub make_headers-written :
    (off : ℕ) (old : List InitrdHeader) (fs : List File)
    → length fs ≤ length old
    → AllNamed fs
    → off + total fs < 2 ^ 32
    → make_headers (length fs) off old (map on_disk fs) ≡ ok (some (written off old fs))
unfolding make_headers
make_headers-written off [] [] le named fits = refl
make_headers-written off (h ∷ old) [] le named fits = refl
make_headers-written off [] (f ∷ fs) le named fits = absurd (omega arith)
make_headers-written off (h ∷ old) (f ∷ fs) le (short, clean, named) fits =
    let test : ltb (length f.name) 64 ≡ true = ground arith in
    let size : length f.bytes % 2 ^ 32 ≡ length f.bytes = omega arith in
    let next : add32 off (length f.bytes) ≡ off + length f.bytes = omega arith in
    rw
      (
        test,
        size,
        next,
        make_headers-written (off + length f.bytes) old fs (omega arith) named (omega arith),
        size,
      )
      refl

take_all : {A : Type 0} (xs : List A) → take (length xs) xs ≡ xs
take_all [] = refl
take_all (x ∷ xs) = ap (λ l. x ∷ l) (take_all xs)

pub copy_contents-joined :
    (off : ℕ) (old : List InitrdHeader) (fs : List File)
    → length fs ≤ length old
    → copy_contents (length fs) (written off old fs) (map on_disk fs) ≡ ok (joined fs)
unfolding copy_contents
copy_contents-joined off [] [] le = refl
copy_contents-joined off (h ∷ old) [] le = refl
copy_contents-joined off [] (f ∷ fs) le = absurd (omega arith)
copy_contents-joined off (h ∷ old) (f ∷ fs) le =
    rw (copy_contents-joined (off + length f.bytes) old fs (omega arith), take_all f.bytes) refl
