-- ===== src/Paging/Bitset.antt =====
-- The bitset of frames as one bit for each frame number.
use ahk_main.Base.{
  ℕ, ◌-◌, ◌*◌, ◌/◌, ◌%◌, ◌^◌, ◌<◌, ◌≡◌, ◌≢◌, refl, bit_and, bit_or, inl, inr, false, Bool-cases,
  List, Result, ok, ◌==◌, if◌then◌else◌, length, get_or, set, length-set, get_or-set_self,
  get_or-set_ne, read-ok, write-ok, arith,
}
use ahk_main.Base.Bits.{
  bit, bit-lt, bit-bit_or, bit-bit_and, bit-two_pow_self, bit-two_pow_ne, bit-complement,
  bit_and-two_pow,
}
use native.Mathlib.Nat.{pow-le-pow_right}
use ahk_main.Paging.{set_frame, clear_frame, test_frame}

-- 1 where the frame is in use
abbrev pub frame_bit : List ℕ → ℕ → ℕ
frame_bit frames n = bit (n % 32) (get_or frames (n / 32) 0)

-- `r` is a normal return of the bitset with the bit of frame `n` at `v`, and all others as they were.
pub record Changed (n v : ℕ) (frames : List ℕ) (r : Result (List ℕ)) : Type 0 where
  pub out : List ℕ
  pub returns : r ≡ ok out
  pub same_length : length out ≡ length frames
  pub bits : (j : ℕ) → frame_bit out j ≡ (if j == n then v else frame_bit frames j)

-- A word is replaced by one that differs in the bit of frame `n` only.
frame_bit-set :
    (frames : List ℕ) (n v w : ℕ)
    → n / 32 < length frames
    → bit (n % 32) w ≡ v
    → ((i : ℕ) → i < 32 → i ≢ n % 32 → bit i w ≡ bit i (get_or frames (n / 32) 0))
    → (j : ℕ) → frame_bit (set frames (n / 32) w) j ≡ (if j == n then v else frame_bit frames j)
frame_bit-set frames n v w inside here others j = elim (Bool-cases (j / 32 == n / 32)) [
  | inl e ↦
      let e' : j / 32 ≡ n / 32 = ground arith in
      rw (e', get_or-set_self frames (n / 32) w 0 inside)
        (elim (Bool-cases (j == n)) [
          | inl s ↦ let s' : j ≡ n = ground arith in rw (s, s') here
          | inr d ↦ rw d (others (j % 32) (omega arith) (ground arith))
        ])
  | inr ne ↦
      let d : (j == n) ≡ false = ground arith in
      rw (d, get_or-set_ne frames (n / 32) (j / 32) w 0 (ground arith)) refl
]

module _ (frames : List ℕ) (n : ℕ) (inside : n / 32 < length frames) where
  pub set_frame-eq :
      set_frame (n * 0x1000) frames
      ≡ ok (set frames (n / 32) (bit_or (get_or frames (n / 32) 0) (2 ^ (n % 32))))
  unfolding set_frame
  set_frame-eq =
      let e : n * 0x1000 / 0x1000 ≡ n = omega arith in
      rw (e, read-ok frames (n / 32) 0 inside)
        (write-ok frames (n / 32) (bit_or (get_or frames (n / 32) 0) (2 ^ (n % 32))) inside)

  clear_frame-eq :
      (addr : ℕ)
      → addr / 0x1000 ≡ n
      → clear_frame addr frames
        ≡ ok (set frames (n / 32) (bit_and (get_or frames (n / 32) 0) (2 ^ 32 - 1 - 2 ^ (n % 32))))
  unfolding clear_frame
  clear_frame-eq addr e =
      rw (e, read-ok frames (n / 32) 0 inside)
        (write-ok frames (n / 32) (bit_and (get_or frames (n / 32) 0) (2 ^ 32 - 1 - 2 ^ (n % 32)))
          inside)

  -- `set_frame` on the address of frame `n`, whose word the bitset has, returns; it marks that frame as
  -- used, and changes no other.
  pub set_frame-Changed : Changed n 1 frames (set_frame (n * 0x1000) frames)
  set_frame-Changed =
      let w = get_or frames (n / 32) 0 in
      record {
        out = set frames (n / 32) (bit_or w (2 ^ (n % 32)));
        returns = set_frame-eq;
        same_length = length-set frames (n / 32) (bit_or w (2 ^ (n % 32)));
        bits =
            frame_bit-set frames n 1 (bit_or w (2 ^ (n % 32))) inside
              (omega (
                arith,
                bit-bit_or (n % 32) w (2 ^ (n % 32)),
                bit-two_pow_self (n % 32),
                bit-lt (n % 32) w,
              ))
              (λ i _ ne.
                omega (arith, bit-bit_or i w (2 ^ (n % 32)), bit-two_pow_ne i (n % 32) ne));
      }

  -- `clear_frame` on an address in frame `n`, whose word the bitset has, returns; it marks that frame as
  -- free, and changes no other.
  pub clear_frame-Changed :
      (addr : ℕ) → addr / 0x1000 ≡ n → Changed n 0 frames (clear_frame addr frames)
  clear_frame-Changed addr e =
      let w = get_or frames (n / 32) 0 in
      let mask : ℕ = 2 ^ 32 - 1 - 2 ^ (n % 32) in
      let below : 2 ^ (n % 32) < 2 ^ 32 =
        omega (arith, pow-le-pow_right {n = 2} (omega arith) {i = n % 32} {j = 31} (omega arith)) in
      record {
        out = set frames (n / 32) (bit_and w mask);
        returns = clear_frame-eq addr e;
        same_length = length-set frames (n / 32) (bit_and w mask);
        bits =
            frame_bit-set frames n 0 (bit_and w mask) inside
              (omega (
                arith,
                bit-bit_and (n % 32) w mask,
                bit-complement 32 (n % 32) (2 ^ (n % 32)) (omega arith) below,
                bit-two_pow_self (n % 32),
              ))
              (λ i lt ne. omega (
                arith,
                bit-bit_and i w mask,
                bit-complement 32 i (2 ^ (n % 32)) lt below,
                bit-two_pow_ne i (n % 32) ne,
                bit-lt i w,
              ));
      }

  -- `test_frame` on the address of frame `n`, whose word the bitset has, returns the frame's bit at its
  -- place in the word.
  test_frame-eq : test_frame (n * 0x1000) frames ≡ ok (frame_bit frames n * 2 ^ (n % 32))
  unfolding test_frame
  test_frame-eq =
      let e : n * 0x1000 / 0x1000 ≡ n = omega arith in
      rw (e, read-ok frames (n / 32) 0 inside, bit_and-two_pow (n % 32) (get_or frames (n / 32) 0))
