-- ===== src/Initrd/View.antt =====
-- tools/initrd/viewinitrd.c: what is read of an image and shown. The text around it is left out.
use ahk_main.Base.{
  ℕ, zero, suc, ◌+◌, ◌*◌, ◌^◌, Bool, Option, none, some, List, [], ◌∷◌, Result, ok, fault, ◌>>=◌,
  ltb, ◌==◌, if◌then◌else◌, length, get_or, take, drop,
}
use ahk_main.Initrd.{InitrdHeader}

-- `fread` of `n` bytes at a place of the file: what there is of them.
abbrev pub bytes_at : ℕ → ℕ → List ℕ → List ℕ
bytes_at place n file = take n (drop place file)

abbrev pub word_of : List ℕ → ℕ
word_of b = get_or b 0 0 + get_or b 1 0 * 2 ^ 8 + get_or b 2 0 * 2 ^ 16 + get_or b 3 0 * 2 ^ 24

-- The header in 76 bytes.
abbrev pub header_of : List ℕ → InitrdHeader
header_of b = record {
  magic = get_or b 0 0;
  name = bytes_at 1 64 b;
  padding = bytes_at 65 3 b;
  offset = word_of (bytes_at 68 4 b);
  length = word_of (bytes_at 72 4 b);
}

-- The headers that are whole in the bytes read. The others stay as they were, undefined.
unfoldable pub headers_of : ℕ → List ℕ → List InitrdHeader
headers_of zero b = []
headers_of (suc n) b =
    let rest = headers_of n (drop 76 b) in
    if ltb (length b) 76 then [] else header_of (take 76 b) ∷ rest

-- What `%s` shows of an array of characters.
unfoldable pub string_in : List ℕ → Result (List ℕ)
string_in [] = fault
string_in (c ∷ cs) = let rest = string_in cs >>= λ s. ok (c ∷ s) in if c == 0 then ok [] else rest

-- What is shown of a header.
pub record HeaderInfo : Type 0 where
  pub magic : ℕ
  pub name : List ℕ
  pub offset : ℕ
  pub length : ℕ

unfoldable pub print_header_info : InitrdHeader → Result HeaderInfo
print_header_info h = do
  name ← string_in h.name
  ok (record { magic = h.magic; name = name; offset = h.offset; length = h.length })

-- The loop over the headers: behind those that were read it shows what is undefined.
unfoldable pub print_headers : ℕ → List InitrdHeader → Result (List HeaderInfo)
print_headers zero hs = ok []
print_headers (suc rounds) [] = fault
print_headers (suc rounds) (h ∷ hs) = do
  info ← print_header_info h
  infos ← print_headers rounds hs
  ok (info ∷ infos)

-- A sector: whether the file ends within it, its place, and its bytes.
pub record Sector : Type 0 where
  pub ended : Bool
  pub place : ℕ
  pub bytes : List ℕ

unfoldable pub print_sector : List ℕ → ℕ → Sector
print_sector file offset =
    let buffer = bytes_at offset 512 file in
    record { ended = ltb (length buffer) 512; place = offset; bytes = buffer }

unfoldable pub print_sectors : ℕ → ℕ → List ℕ → List Sector
print_sectors zero sector file = []
print_sectors (suc rounds) sector file =
    print_sector file (512 * sector) ∷ print_sectors rounds (suc sector) file

pub record Shown : Type 0 where
  pub nheaders : ℕ
  pub headers : List HeaderInfo
  pub sectors : List Sector

-- The program, on the file if there is one; none is the exit with 1. `nheaders` is signed: a negative
-- number has no rounds. A file without a whole number leaves it undefined.
unfoldable pub view_image : Option (List ℕ) → Result (Option Shown)
view_image none = ok none
view_image (some file) = do
  let nheaders = word_of (bytes_at 0 4 file)
  let shown : Result (Option Shown) = (do
    let headers = headers_of 64 (bytes_at 4 (76 * 64) file)
    infos ← print_headers (if ltb nheaders (2 ^ 31) then nheaders else 0) headers
    ok (some (record { nheaders = nheaders; headers = infos; sectors = print_sectors 9 0 file })))
  if ltb (length file) 4 then fault else shown
