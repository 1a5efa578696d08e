-- ===== src/Initrd/RoundTrip.antt =====
-- An image that initrdcreator.c makes, read by viewinitrd.c.
use ahk_main.Base.{
  take-append, drop-append, ℕ, suc, ◌+◌, ◌%◌, ◌^◌, ◌≤◌, ◌<◌, ◌≡◌, refl, ap, ◌∙◌, subst, true, false,
  some, List, [], ◌∷◌, ◌++◌, map, ok, ltb, ne→eqb_false, length, length-append, take, drop, arith,
}
use mathlib.Core.List.{append_assoc}
use ahk_main.Initrd.{
  InitrdHeader, word_bytes, headers_bytes, argc_of, nheaders_of, rounds_of, create_image,
}
use ahk_main.Initrd.View.{
  bytes_at, word_of, headers_of, string_in, HeaderInfo, print_header_info, print_headers,
  print_sectors, Shown, view_image,
}
use ahk_main.Initrd.Bytes.{
  word_of-word_bytes, AllSized, wrapped, length-headers_bytes, headers_of-headers_bytes,
}
use ahk_main.Initrd.Written.{
  File, on_disk, NoNull, AllNamed, total, joined, written, length-on_disk, length-written,
  written-AllSized, make_headers-written, copy_contents-joined,
}

string_in-name : (cs rest : List ℕ) → NoNull cs → string_in (cs ++ (0 ∷ rest)) ≡ ok cs
unfolding string_in
string_in-name [] rest clean = refl
string_in-name (c ∷ cs) rest (ne, clean) =
    rw (ne→eqb_false c 0 ne, string_in-name cs rest clean) refl

-- The headers as they are shown.
abbrev infos : ℕ → List File → List HeaderInfo
infos off [] = []
infos off (f ∷ fs) =
    record { magic = 0xBF; name = f.name; offset = off; length = length f.bytes }
    ∷ infos (off + length f.bytes) fs

print_headers-infos :
    (off : ℕ) (old : List InitrdHeader) (fs : List File)
    → length fs ≤ length old
    → AllNamed fs
    → off + total fs < 2 ^ 32
    → print_headers (length fs) (map wrapped (written off old fs)) ≡ ok (infos off fs)
unfolding print_headers print_header_info
print_headers-infos off [] [] le named fits = refl
print_headers-infos off (h ∷ old) [] le named fits = refl
print_headers-infos off [] (f ∷ fs) le named fits = absurd (omega arith)
print_headers-infos off (h ∷ old) (f ∷ fs) le (short, clean, named) fits =
    let size : length f.bytes % 2 ^ 32 ≡ length f.bytes = omega arith in
    let place : off % 2 ^ 32 ≡ off = omega arith in
    rw
      (
        string_in-name f.name (drop (suc (length f.name)) h.name) clean,
        size,
        place,
        print_headers-infos (off + length f.bytes) old fs (omega arith) named (omega arith),
      )
      refl

-- The header of each file has its name, and says where in the image its bytes are.
abbrev pub Describes : List ℕ → List HeaderInfo → List File → Type 0
Describes image [] [] = Unit {0}
Describes image [] (f ∷ fs) = ⊥
Describes image (h ∷ hs) [] = ⊥
Describes image (h ∷ hs) (f ∷ fs) =
    (h.magic ≡ 0xBF)
    × (h.name ≡ f.name)
    × (h.length ≡ length f.bytes)
    × (bytes_at h.offset h.length image ≡ f.bytes)
    × Describes image hs fs

infos-Describes :
    (off : ℕ) (front : List ℕ) (fs : List File)
    → length front ≡ off
    → Describes (front ++ joined fs) (infos off fs) fs
infos-Describes off front [] e = tt
infos-Describes off front (f ∷ fs) e =
    let here : bytes_at off (length f.bytes) (front ++ (f.bytes ++ joined fs)) ≡ f.bytes =
      ap (take (length f.bytes)) (drop-append off front (f.bytes ++ joined fs) e)
      ∙ take-append (length f.bytes) f.bytes (joined fs) refl in
    let next =
      infos-Describes (off + length f.bytes) (front ++ f.bytes) fs
        (omega (arith, length-append front f.bytes)) in
    (
      refl,
      refl,
      refl,
      here,
      subst (λ image. Describes image (infos (off + length f.bytes) fs) fs)
          (append_assoc front f.bytes (joined fs)) next,
    )

-- An image and what is shown of it.
pub record Viewed (stack : List InitrdHeader) (files : List File) : Type 0 where
  pub image : List ℕ
  pub created : create_image stack (map on_disk files) ≡ ok (some image)
  pub shown : Shown
  pub viewed : view_image (some image) ≡ ok (some shown)
  pub counted : shown.nheaders ≡ length files
  pub described : Describes image shown.headers files

wraps-few : (n : ℕ) → n < 64 → (rounds_of (argc_of n) ≡ n) × (nheaders_of (argc_of n) ≡ n)
wraps-few n lt = (ground arith, ground arith)

view_image-headers :
    (n : ℕ) (hs : List InitrdHeader) (contents : List ℕ) (infos' : List HeaderInfo)
    → n < 64
    → length hs ≡ 64
    → AllSized hs
    → print_headers n (map wrapped hs) ≡ ok infos'
    → view_image (some (word_bytes n ++ (headers_bytes hs ++ contents)))
      ≡ ok (
          some (record {
            nheaders = n;
            headers = infos';
            sectors = print_sectors 9 0 (word_bytes n ++ (headers_bytes hs ++ contents));
          }))
unfolding view_image
view_image-headers n hs contents infos' few many all printed =
    let count : word_of (word_bytes n) ≡ n = word_of-word_bytes n ∙ omega arith in
    let test : ltb n (2 ^ 31) ≡ true = ground arith in
    let size : length (headers_bytes hs) ≡ 4864 = length-headers_bytes hs all ∙ omega arith in
    let read : headers_of 64 (headers_bytes hs) ≡ map wrapped hs =
      subst (λ k. headers_of k (headers_bytes hs) ≡ map wrapped hs) many
        (headers_of-headers_bytes hs all) in
    let whole : ltb (length (word_bytes n ++ (headers_bytes hs ++ contents))) 4 ≡ false =
      ground arith in
    rw (whole, count, test, take-append 4864 (headers_bytes hs) contents size, read, printed) refl

-- An image of at most 63 files that can be opened, with names of at most 63 characters that are not
-- null, together below 4 GB less the headers, is made, whatever the 64 headers held before, and
-- viewinitrd.c reads it: it finds as many headers as there are files, and for each file in order the
-- magic number, its name, its length, and the offset at which the image has its bytes.
pub create_image-Viewed :
    (stack : List InitrdHeader) (files : List File)
    → length stack ≡ 64
    → AllSized stack
    → length files < 64
    → AllNamed files
    → 4868 + total files < 2 ^ 32
    → Viewed stack files
unfolding create_image
create_image-Viewed stack files many all few named fits =
    let n = length files in
    let (rounds, count) = wraps-few n few in
    let hs = written 4868 stack files in
    let sized = written-AllSized 4868 stack files all named in
    let image = word_bytes n ++ (headers_bytes hs ++ joined files) in
    let made = make_headers-written 4868 stack files (omega arith) named fits in
    let copied = copy_contents-joined 4868 stack files (omega arith) in
    let printed = print_headers-infos 4868 stack files (omega arith) named fits in
    let front : length (word_bytes n ++ headers_bytes hs) ≡ 4868 =
      omega (arith, length-headers_bytes hs sized, length-written 4868 stack files) in
    record {
      image = image;
      created =
          rw (length-on_disk files, rounds, made, length-on_disk files, rounds, copied, count) refl;
      shown = record {
        nheaders = n;
        headers = infos 4868 files;
        sectors = print_sectors 9 0 image;
      };
      viewed =
          view_image-headers n hs (joined files) (infos 4868 files) few
            (length-written 4868 stack files ∙ many) sized printed;
      counted = refl;
      described = infos-Describes 4868 (word_bytes n ++ headers_bytes hs) files front;
    }
