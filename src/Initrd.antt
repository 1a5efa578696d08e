-- ===== src/Initrd.antt =====
-- tools/initrd/initrdcreator.c: the image of a list of files. What the program prints is left out.
pub mod View
pub mod Bytes
pub mod Written
pub mod RoundTrip
use ahk_main.Base.{
  ℕ, zero, suc, ◌+◌, ◌-◌, ◌*◌, ◌/◌, ◌%◌, ◌^◌, Option, none, some, List, [], ◌∷◌, ◌++◌, Result, ok,
  fault, ◌>>=◌, ltb, if◌then◌else◌, add32, length, take, drop,
}

-- A file of the command line: the name in the image, and the bytes, if the file can be opened.
pub record Source : Type 0 where
  pub name : List ℕ
  pub contents : Option (List ℕ)

-- `struct initrd_header`: 1 byte, 64 characters, 3 bytes that nothing uses, and two words.
pub record InitrdHeader : Type 0 where
  pub magic : ℕ
  pub name : List ℕ
  pub padding : List ℕ
  pub offset : ℕ
  pub length : ℕ

-- The bytes of a word in memory, and of a header.
abbrev pub word_bytes : ℕ → List ℕ
word_bytes v = v % 2 ^ 8 ∷ v / 2 ^ 8 % 2 ^ 8 ∷ v / 2 ^ 16 % 2 ^ 8 ∷ v / 2 ^ 24 % 2 ^ 8 ∷ []

abbrev pub header_bytes : InitrdHeader → List ℕ
header_bytes h = h.magic ∷ ((h.name ++ h.padding) ++ (word_bytes h.offset ++ word_bytes h.length))

unfoldable pub headers_bytes : List InitrdHeader → List ℕ
headers_bytes [] = []
headers_bytes (h ∷ hs) = header_bytes h ++ headers_bytes hs

-- A header that is filled in: `strcpy` leaves the characters behind the null.
abbrev pub fill_header : List ℕ → ℕ → ℕ → InitrdHeader → InitrdHeader
fill_header name off size old = record old {
  magic = 0xBF;
  name = name ++ (0 ∷ drop (suc (length name)) old.name);
  offset = off;
  length = size;
}

-- The first loop, on the headers from the next one on; it ends the program, with `none`, at a file that
-- cannot be opened. A name has 64 characters with its null.
unfoldable pub make_headers :
    ℕ → ℕ → List InitrdHeader → List Source → Result (Option (List InitrdHeader))
make_headers zero off old fs = ok (some old)
make_headers (suc rounds) off [] fs = fault
make_headers (suc rounds) off (h ∷ old) [] = fault
make_headers (suc rounds) off (h ∷ old) (f ∷ fs) =
    let made : List ℕ → Result (Option (List InitrdHeader)) = λ bytes. (do
      let size = length bytes % 2 ^ 32
      rest ← make_headers rounds (add32 off size) old fs
      elim rest [
        | none ↦ ok none
        | some headers ↦ ok (some (fill_header f.name off size h ∷ headers))
      ]) in
    let opened = elim f.contents as (λ _. Result (Option (List InitrdHeader))) [
      | none ↦ ok none
      | some bytes ↦ made bytes
    ] in
    if ltb (length f.name) 64 then opened else fault

-- The second loop. A file that cannot be opened again is a fault.
unfoldable pub copy_contents : ℕ → List InitrdHeader → List Source → Result (List ℕ)
copy_contents zero headers fs = ok []
copy_contents (suc rounds) [] fs = fault
copy_contents (suc rounds) (h ∷ headers) [] = fault
copy_contents (suc rounds) (h ∷ headers) (f ∷ fs) = do
  rest ← copy_contents rounds headers fs
  elim f.contents [ none ↦ fault | some bytes ↦ ok (take h.length bytes ++ rest) ]

-- `argc` is a signed `char`, so it wraps from 64 files on: the number of headers, as 32 bits, and the
-- rounds of the loops, which a negative number has none of.
abbrev pub argc_of : ℕ → ℕ
argc_of files = (2 * files + 1) % 2 ^ 8

abbrev pub nheaders_of : ℕ → ℕ
nheaders_of argc = if ltb argc 128 then (argc - 1) / 2 else 2 ^ 32 - (257 - argc) / 2

abbrev pub rounds_of : ℕ → ℕ
rounds_of argc = if ltb argc 128 then (argc - 1) / 2 else 0

-- The program; none is the exit with 1. `headers` is what the local array holds at the start.
unfoldable pub create_image : List InitrdHeader → List Source → Result (Option (List ℕ))
create_image headers fs = do
  let argc = argc_of (length fs)
  made ← make_headers (rounds_of argc) (76 * 64 + 4) headers fs
  let finish : List InitrdHeader → Result (Option (List ℕ)) = λ hs. (do
    contents ← copy_contents (rounds_of argc) hs fs
    ok (some (word_bytes (nheaders_of argc) ++ (headers_bytes hs ++ contents))))
  elim made [ none ↦ ok none | some hs ↦ finish hs ]
