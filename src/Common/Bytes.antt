-- ===== src/Common/Bytes.antt =====
-- common.c: `memcpy` and `memset` on a memory of bytes. Pointers count up in 32 bits.
use ahk_main.Base.{
  ℕ, zero, suc, ◌+◌, ◌-◌, ◌^◌, ◌%◌, ◌≤◌, ◌<◌, ◌≡◌, ◌⊎◌, inl, inr, true, false, Bool-cases, refl,
  ◌∙◌, ap, ltb, leb, ◌&&◌, ◌==◌, if◌then◌else◌, add32, arith,
}
use ahk_main.Memory.{Memory, store8}
use ahk_main.Memory.Laws.{store8_self, store8-ne}

unfoldable pub memset : ℕ → ℕ → ℕ → Memory → Memory
memset dest val zero m = m
memset dest val (suc len) m = memset (add32 dest 1) val len (store8 m dest val)

unfoldable pub memcpy : ℕ → ℕ → ℕ → Memory → Memory
memcpy dest src zero m = m
memcpy dest src (suc len) m = memcpy (add32 dest 1) (add32 src 1) len (store8 m dest (m src))

-- `memset` into a range that does not wrap sets each byte of it, and no other.
pub memset-bytes :
    (dest val len : ℕ) (m : Memory) (x : ℕ)
    → dest + len < 2 ^ 32
    → memset dest val len m x ≡ (if leb dest x && ltb x (dest + len) then val % 2 ^ 8 else m x)
unfolding memset
memset-bytes dest val zero m x h = ground arith
memset-bytes dest val (suc len) m x h =
    let next : add32 dest 1 ≡ suc dest = omega arith in
    let rest = memset-bytes (suc dest) val len (store8 m dest val) x (omega arith) in
    elim (Bool-cases (x == dest)) [
      | inl e ↦
          let here : x ≡ dest = ground arith in
          let self = store8_self m dest val in rw (next, rest, here, self) (ground arith)
      | inr e ↦
          let other = store8-ne m dest x val (ground arith) in rw (next, rest, other) (ground arith)
    ]

-- `memcpy` between ranges that neither wrap nor overlap copies each byte, and changes no other.
pub memcpy-bytes :
    (dest src len : ℕ) (m : Memory) (x : ℕ)
    → dest + len < 2 ^ 32
    → src + len < 2 ^ 32
    → (src + len ≤ dest) ⊎ (dest + len ≤ src)
    → memcpy dest src len m x
      ≡ (if leb dest x && ltb x (dest + len) then m (src + (x - dest)) % 2 ^ 8 else m x)
unfolding memcpy
memcpy-bytes dest src zero m x h k apart = ground arith
memcpy-bytes dest src (suc len) m x h k apart =
    let next : add32 dest 1 ≡ suc dest = omega arith in
    let next' : add32 src 1 ≡ suc src = omega arith in
    let m' : Memory = store8 m dest (m src) in
    let rest =
      memcpy-bytes (suc dest) (suc src) len m' x (omega arith) (omega arith) (omega arith) in
    rw (next, next')
      (rest ∙ elim (Bool-cases (leb (suc dest) x && ltb x (suc dest + len))) [
        | inl e ↦
            let place : suc src + (x - suc dest) ≡ src + (x - dest) = ground arith in
            let kept : m' (src + (x - dest)) ≡ m (src + (x - dest)) =
              store8-ne m dest (src + (x - dest)) (m src) (ground arith) in
            let test : (leb dest x && ltb x (dest + suc len)) ≡ true = ground arith in
            rw (e, test, place, kept) refl
        | inr e ↦ elim (Bool-cases (x == dest)) [
          | inl s ↦
              let here : x ≡ dest = ground arith in
              let test : (leb dest x && ltb x (dest + suc len)) ≡ true = ground arith in
              let from : src + (x - dest) ≡ src = omega (arith, here) in
              let self : m' x ≡ m src % 2 ^ 8 = ap m' here ∙ store8_self m dest (m src) in
              rw (e, test, from) self
          | inr s ↦
              let other = store8-ne m dest x (m src) (ground arith) in
              let test : (leb dest x && ltb x (dest + suc len)) ≡ false = ground arith in
              rw (e, test) other
        ]
      ])
