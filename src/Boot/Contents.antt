-- ===== src/Boot/Contents.antt =====
-- main.c: where it looks for the contents of the files of an image that initrdcreator.c has made.
use ahk_main.Base.{
  ℕ, zero, suc, ◌+◌, ◌*◌, ◌%◌, ◌^◌, ◌<◌, ◌≤◌, ◌≡◌, ◌↔◌, refl, sym, ap, subst, ◌∙◌, true, false,
  Option, none, some, List, [], ◌∷◌, ◌++◌, map, ok, get_elem?, get_or, length, length-drop,
  length-append, take, drop, drop-append, drop_more, ltb, ◌==◌, add32, arith,
}
use mathlib.Core.List.{append_assoc}
use ahk_main.Memory.{Memory, load32}
use ahk_main.Ide.{Ports}
use ahk_main.Initrd.{InitrdHeader, word_bytes, header_bytes, headers_bytes, make_headers}
use ahk_main.Initrd.Bytes.{IsSized, AllSized, length-header_bytes}
use ahk_main.Initrd.Written.{
  File, on_disk, AllNamed, total, written, written-AllSized, make_headers-written,
}
use ahk_main.Boot.Entry.{Arrays, contents_at}

-- The bytes are in the memory from an address on.
abbrev pub Holds : Memory → ℕ → List ℕ → Type 0
Holds m a bytes = (j : ℕ) → j < length bytes → m (a + j) ≡ get_or bytes j 0

get_or-drop : (n k : ℕ) (xs : List ℕ) → get_or (drop n xs) k 0 ≡ get_or xs (n + k) 0
get_or-drop zero k xs = let e : k ≡ 0 + k = omega arith in ap (λ j. get_or xs j 0) e
get_or-drop (suc n) k [] = refl
get_or-drop (suc n) k (x ∷ xs) =
    let e : suc (n + k) ≡ suc n + k = omega arith in
    get_or-drop n k xs ∙ ap (λ j. get_or (x ∷ xs) j 0) e

Holds-drop :
    (n : ℕ) (m : Memory) (a : ℕ) (bytes : List ℕ)
    → Holds m a bytes
    → n ≤ length bytes
    → Holds m (a + n) (drop n bytes)
Holds-drop n m a bytes h le j lt =
    let place : a + n + j ≡ a + (n + j) = omega arith in
    ap m place ∙ h (n + j) (omega (arith, length-drop n bytes)) ∙ sym (get_or-drop n j bytes)

-- The length in a header.
load32-header :
    (m : Memory) (a : ℕ) (h : InitrdHeader) (rest : List ℕ)
    → IsSized h
    → Holds m a (header_bytes h ++ rest)
    → load32 m (a + 72) ≡ h.length % 2 ^ 32
unfolding load32
load32-header m a h rest s holds =
    let front = h.name ++ h.padding in
    let words = word_bytes h.offset ++ word_bytes h.length in
    let front_size : length front ≡ 67 =
      omega (arith, length-append h.name h.padding, s.name, s.padding) in
    let behind : drop 71 ((front ++ words) ++ rest) ≡ word_bytes h.length ++ rest =
      drop_more 67 4 ((front ++ words) ++ rest)
      ∙ ap (λ (l : List ℕ). drop 4 (drop 67 l)) (append_assoc front words rest)
      ∙ ap (drop 4) (drop-append 67 front (words ++ rest) front_size) in
    let size = length-append (header_bytes h) rest in
    let there =
      Holds-drop 72 m a (header_bytes h ++ rest) holds
        (omega (arith, size, length-header_bytes h s)) in
    let word : Holds m (a + 72) (word_bytes h.length ++ rest) =
      subst (Holds m (a + 72)) behind there in
    let place : a + 72 + 0 ≡ a + 72 = omega arith in
    let b₀ = sym (ap m place) ∙ word 0 (omega arith) in
    let b₁ = word 1 (omega arith) in
    let b₂ = word 2 (omega arith) in let b₃ = word 3 (omega arith) in omega (arith, b₀, b₁, b₂, b₃)

load32-headers :
    (m : Memory) (a i : ℕ) (hs : List InitrdHeader) (h : InitrdHeader)
    → AllSized hs
    → Holds m a (headers_bytes hs)
    → get_elem? hs i ≡ some h
    → load32 m (a + 76 * i + 72) ≡ h.length % 2 ^ 32
unfolding headers_bytes
load32-headers m a i [] h all holds e = absurd (ground arith)
load32-headers m a zero (h' ∷ hs) h (s, all) holds e =
    let place : a + 76 * 0 + 72 ≡ a + 72 = omega arith in
    let same : h' ≡ h = cc in
    ap (load32 m) place
    ∙ load32-header m a h' (headers_bytes hs) s holds
    ∙ ap (λ (x : InitrdHeader). x.length % 2 ^ 32) same
load32-headers m a (suc i) (h' ∷ hs) h (s, all) holds e =
    let size = length-header_bytes h' s in
    let rest : Holds m (a + 76) (headers_bytes hs) =
      subst (Holds m (a + 76)) (drop-append 76 (header_bytes h') (headers_bytes hs) size) (
        Holds-drop 76 m a (header_bytes h' ++ headers_bytes hs) holds
          (omega (arith, length-append (header_bytes h') (headers_bytes hs), size))) in
    let place : a + 76 * suc i + 72 ≡ a + 76 + 76 * i + 72 = omega arith in
    ap (load32 m) place ∙ load32-headers m (a + 76) i hs h all rest e

written-length :
    (off i : ℕ) (old : List InitrdHeader) (files : List File) (f : File)
    → length files ≤ length old
    → get_elem? files i ≡ some f
    → (h : InitrdHeader) × (get_elem? (written off old files) i ≡ some h)
      × (h.length ≡ length f.bytes)
written-length off i old [] f le e = absurd (ground arith)
written-length off i [] (f' ∷ files) f le e = absurd (omega arith)
written-length off zero (h ∷ old) (f' ∷ files) f le e =
    let same : f' ≡ f = cc in (_, refl, ap (λ (x : File). length x.bytes) same)
written-length off (suc i) (h ∷ old) (f' ∷ files) f le e =
    written-length (off + length f'.bytes) i old files f (omega arith) e

total-take :
    (i : ℕ) (files : List File) (f : File)
    → get_elem? files i ≡ some f
    → (total (take (suc i) files) ≡ total (take i files) + length f.bytes)
      × (total (take (suc i) files) ≤ total files)
total-take i [] f e = absurd (ground arith)
total-take zero (f' ∷ files) f e =
    let same : f' ≡ f = cc in
    let n = ap (λ (x : File). length x.bytes) same in (omega arith, omega arith)
total-take (suc i) (f' ∷ files) f e =
    let (a, b) = total-take i files f e in (omega arith, omega arith)

written-offset :
    (off i : ℕ) (old : List InitrdHeader) (files : List File) (h : InitrdHeader)
    → i < length files
    → get_elem? (written off old files) i ≡ some h
    → h.offset ≡ off + total (take i files)
written-offset off i old [] h lt e = absurd (omega arith)
written-offset off i [] (f ∷ files) h lt e = absurd (ground arith)
written-offset off zero (old₀ ∷ old) (f ∷ files) h lt e =
    let o : off ≡ h.offset =
      ap (λ (x : Option InitrdHeader). elim x [ none ↦ off | some y ↦ y.offset ]) e in
    omega arith
written-offset off (suc i) (old₀ ∷ old) (f ∷ files) h lt e =
    let rest = written-offset (off + length f.bytes) i old files h (omega arith) e in omega arith

-- With the headers that initrdcreator.c makes of at most 63 files, together below 4 GB less the headers
-- and with names of at most 63 characters that are not null, in `headers`, main.c looks for the contents
-- of a file that is not the first, where neither array wraps, at as many bytes behind the headers as the
-- file before it has; that is the offset in the file's header exactly when all files before that one are
-- empty.
pub contents_at-offset :
    {D : Type 0} (bus : Ports D) (fuel : ℕ) (a : Arrays) (m : Memory) (stack hs : List InitrdHeader)
    (files : List File) (i : ℕ) (f : File) (h : InitrdHeader)
    → length stack ≡ 64
    → AllSized stack
    → length files < 64
    → AllNamed files
    → 4868 + total files < 2 ^ 32
    → make_headers (length files) 4868 stack (map on_disk files) ≡ ok (some hs)
    → Holds m a.headers (headers_bytes hs)
    → a.headers + 4864 < 2 ^ 32
    → a.buf + 4868 + total files < 2 ^ 32
    → get_elem? files i ≡ some f
    → suc i < length files
    → get_elem? hs (suc i) ≡ some h
    → (contents_at bus fuel a (suc i) i m ≡ ok (a.buf + 4868 + length f.bytes))
      × ((a.buf + 4868 + length f.bytes ≡ a.buf + h.offset) ↔ (total (take i files) ≡ 0))
unfolding contents_at
contents_at-offset bus fuel a m stack hs files i f h many all few named fits made holds low room e
      more at =
    let made' = make_headers-written 4868 stack files (omega arith) named fits in
    let same : hs ≡ written 4868 stack files = let both = sym made ∙ made' in cc in
    let sized = subst AllSized (sym same) (written-AllSized 4868 stack files all named) in
    let (h₀, at₀, len₀) = written-length 4868 i stack files f (omega arith) e in
    let (sum, part) = total-take i files f e in
    let size : load32 m (a.headers + 76 * i + 72) ≡ length f.bytes =
      load32-headers m a.headers i hs h₀ sized holds (ap (λ l. get_elem? l i) same ∙ at₀)
      ∙ omega arith in
    let place : h.offset ≡ 4868 + total (take (suc i) files) =
      written-offset 4868 (suc i) stack files h more
        (sym (ap (λ l. get_elem? l (suc i)) same) ∙ at) in
    let not_first : (suc i == 0) ≡ false = ground arith in
    let one_of : ltb i 64 ≡ true = ground arith in
    let header : add32 (add32 a.headers (76 * i)) 72 ≡ a.headers + 76 * i + 72 = omega arith in
    let behind : add32 (add32 a.buf (4 + 76 * 64)) (length f.bytes)
        ≡ a.buf + 4868 + length f.bytes =
      omega arith in
    (rw (not_first, one_of, header, size, behind) refl, (λ p. omega arith, λ p. omega arith))
