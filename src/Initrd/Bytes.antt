-- ===== src/Initrd/Bytes.antt =====
-- The bytes of headers, written and read.
use ahk_main.Base.{
  take-append, drop-append, drop_more, ℕ, ◌*◌, ◌%◌, ◌^◌, ◌≡◌, refl, ap, ◌∙◌, false, List, [], ◌∷◌,
  ◌++◌, map, ltb, length, length-append, take, drop, arith,
}
use mathlib.Core.List.{append_assoc}
use ahk_main.Initrd.{InitrdHeader, word_bytes, header_bytes, headers_bytes}
use ahk_main.Initrd.View.{word_of, header_of, headers_of}

pub word_of-word_bytes : (v : ℕ) → word_of (word_bytes v) ≡ v % 2 ^ 32
word_of-word_bytes v = omega arith

-- A header as an object in memory.
pub record IsSized (h : InitrdHeader) : Type 0 where
  pub name : length h.name ≡ 64
  pub padding : length h.padding ≡ 3

abbrev pub AllSized : List InitrdHeader → Type 0
AllSized [] = Unit {0}
AllSized (h ∷ hs) = IsSized h × AllSized hs

pub length-header_bytes : (h : InitrdHeader) → IsSized h → length (header_bytes h) ≡ 76
length-header_bytes h s = omega (
  arith,
  length-append (h.name ++ h.padding) (word_bytes h.offset ++ word_bytes h.length),
  length-append h.name h.padding,
  s.name,
  s.padding,
)

-- A header of 32-bit words.
abbrev pub wrapped : InitrdHeader → InitrdHeader
wrapped h = record h { offset = h.offset % 2 ^ 32; length = h.length % 2 ^ 32 }

header_of-header_bytes : (h : InitrdHeader) → IsSized h → header_of (header_bytes h) ≡ wrapped h
header_of-header_bytes h s =
    let words = word_bytes h.offset ++ word_bytes h.length in
    let front : length (h.name ++ h.padding) ≡ 67 =
      omega (arith, length-append h.name h.padding, s.name, s.padding) in
    let name : take 64 ((h.name ++ h.padding) ++ words) ≡ h.name =
      rw (append_assoc h.name h.padding words)
        (take-append 64 h.name (h.padding ++ words) s.name) in
    let padding : take 3 (drop 64 ((h.name ++ h.padding) ++ words)) ≡ h.padding =
      rw (append_assoc h.name h.padding words, drop-append 64 h.name (h.padding ++ words) s.name)
        (take-append 3 h.padding words s.padding) in
    let behind = drop-append 67 (h.name ++ h.padding) words front in
    let offset : word_of (take 4 (drop 67 ((h.name ++ h.padding) ++ words))) ≡ h.offset % 2 ^ 32 =
      ap (λ (l : List ℕ). word_of (take 4 l)) behind ∙ word_of-word_bytes h.offset in
    let size : word_of (take 4 (drop 71 ((h.name ++ h.padding) ++ words))) ≡ h.length % 2 ^ 32 =
      ap (λ l. word_of (take 4 l))
        (drop_more 67 4 ((h.name ++ h.padding) ++ words) ∙ ap (drop 4) behind)
      ∙ word_of-word_bytes h.length in
    λ i. record {
      magic = h.magic;
      name = name i;
      padding = padding i;
      offset = offset i;
      length = size i;
    }

pub length-headers_bytes :
    (hs : List InitrdHeader) → AllSized hs → length (headers_bytes hs) ≡ 76 * length hs
unfolding headers_bytes
length-headers_bytes [] all = refl
length-headers_bytes (h ∷ hs) (s, all) = omega (
  arith,
  length-append (header_bytes h) (headers_bytes hs),
  length-header_bytes h s,
  length-headers_bytes hs all,
)

-- The headers that are read are those that were written.
pub headers_of-headers_bytes :
    (hs : List InitrdHeader)
    → AllSized hs
    → headers_of (length hs) (headers_bytes hs) ≡ map wrapped hs
unfolding headers_of headers_bytes
headers_of-headers_bytes [] all = refl
headers_of-headers_bytes (h ∷ hs) (s, all) =
    let size = length-header_bytes h s in
    let whole : ltb (length (header_bytes h ++ headers_bytes hs)) 76 ≡ false =
      ground (arith, length-append (header_bytes h) (headers_bytes hs), size) in
    rw
      (
        whole,
        take-append 76 (header_bytes h) (headers_bytes hs) size,
        drop-append 76 (header_bytes h) (headers_bytes hs) size,
        header_of-header_bytes h s,
        headers_of-headers_bytes hs all,
      )
      refl
