-- ===== src/Tests/Images.antt =====
-- Tests of the initrd tools, and of main.c on an image that they make.
use ahk_main.Base.{
  ℕ, zero, suc, ◌+◌, ◌-◌, ◌≡◌, ◌↔◌, refl, ap, ok, List, [], ◌∷◌, replicate, get_or, arith,
}
use ahk_main.Memory.{Memory}
use ahk_main.Ide.{Ports}
use ahk_main.Initrd.{InitrdHeader, fill_header, headers_bytes}
use ahk_main.Initrd.Bytes.{AllSized}
use ahk_main.Initrd.Written.{File, AllNamed, written, make_headers-written}
use ahk_main.Initrd.RoundTrip.{Viewed, create_image-Viewed}
use ahk_main.Boot.Entry.{Arrays, contents_at}
use ahk_main.Boot.Contents.{Holds, contents_at-offset}

abbrev garbage : InitrdHeader
garbage = record {
  magic = 7;
  name = replicate 64 90;
  padding = replicate 3 91;
  offset = 92;
  length = 93;
}

garbage-AllSized : (n : ℕ) → AllSized (replicate n garbage)
garbage-AllSized zero = tt
garbage-AllSized (suc n) = (record { name = refl; padding = refl }, garbage-AllSized n)

abbrev two_files : List File
two_files =
    record { name = 65 ∷ 66 ∷ []; bytes = 1 ∷ 0 ∷ 3 ∷ [] }
    ∷ record { name = 67 ∷ []; bytes = 9 ∷ 8 ∷ [] }
    ∷ []

create_image-Viewed_example : Viewed (replicate 64 garbage) two_files
create_image-Viewed_example =
    create_image-Viewed (replicate 64 garbage) two_files refl (garbage-AllSized 64) (omega arith)
      (omega arith, (omega arith, (omega arith, tt)), (omega arith, (omega arith, tt), tt))
      (omega arith)

abbrev three_files : List File
three_files = record { name = 68 ∷ []; bytes = 5 ∷ 6 ∷ 7 ∷ 8 ∷ [] } ∷ two_files

three_files-AllNamed : AllNamed three_files
three_files-AllNamed = (
  omega arith,
  (omega arith, tt),
  (omega arith, (omega arith, (omega arith, tt)), (omega arith, (omega arith, tt), tt)),
)

abbrev three_headers : List InitrdHeader
three_headers = written 4868 (replicate 64 garbage) three_files

abbrev arrays : Arrays
arrays = record { buf = 65536; headers = 4096; content = 131072 }

abbrev with_headers : Memory
with_headers x = get_or (headers_bytes three_headers) (x - 4096) 0

with_headers-Holds : Holds with_headers 4096 (headers_bytes three_headers)
with_headers-Holds j lt =
    let place : 4096 + j - 4096 ≡ j = omega arith in
    ap (λ k. get_or (headers_bytes three_headers) k 0) place

abbrev no_ports : Ports ℕ
no_ports = record {
  inb = λ p d. (0, d);
  outb = λ p v d. d;
  inw = λ p d. (0, d);
  outw = λ p v d. d;
  inl = λ p d. (0, d);
  outl = λ p v d. d;
}

-- The third file's contents are looked for where they are not: the first file is not empty.
contents_at-offset_example :
    (contents_at no_ports 0 arrays 2 1 with_headers ≡ ok (65536 + 4868 + 3))
    × ((65536 + 4868 + 3 ≡ 65536 + (4868 + 4 + 3)) ↔ (◌≡◌ {A = ℕ} 4 0))
contents_at-offset_example =
    contents_at-offset no_ports 0 arrays with_headers (replicate 64 garbage) three_headers
      three_files 1 (record { name = 65 ∷ 66 ∷ []; bytes = 1 ∷ 0 ∷ 3 ∷ [] })
      (fill_header (67 ∷ []) (4868 + 4 + 3) 2 garbage) refl (garbage-AllSized 64) (omega arith)
      three_files-AllNamed (omega arith)
      (make_headers-written 4868 (replicate 64 garbage) three_files (omega arith)
        three_files-AllNamed (omega arith))
      with_headers-Holds (omega arith) (omega arith) refl (omega arith) refl
