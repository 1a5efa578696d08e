-- ===== src/Ide/RoundTrip.antt =====
-- Sectors that are written to a drive and read back.
use ahk_main.Base.{
  ℕ, zero, suc, ◌+◌, ◌-◌, ◌*◌, ◌^◌, ◌<◌, ◌≤◌, ◌≡◌, ◌⊎◌, refl, sym, ap, ◌∙◌, inl, inr, Bool-cases,
  true, List, [], ◌∷◌, get_elem?, get_or, length, length-take, length-drop, drop, append-take-drop,
  drop_more, ok, ltb, leb, ◌&&◌, arith,
}
use ahk_main.Memory.{Memory}
use ahk_main.Ide.{Channel, Device, Ports, Ide}
use ahk_main.Ide.Sectors.{ide_read_sectors, ide_write_sectors}
use ahk_main.Ide.Words.{bytes_of_words}
use ahk_main.Ide.Drive.{Registers, sectors_from}
use ahk_main.Ide.Requests.{quiet, IsDrive-quiet}
use ahk_main.Ide.Delivery.{CanRead, ide_read_sectors-Delivered}
use ahk_main.Ide.Store.{stored, IsStore}
use ahk_main.Ide.Writes.{words_in, length-words_in}
use ahk_main.Ide.Stored.{ide_write_sectors-Kept}

drop_end : {A : Type 0} (n : ℕ) (xs : List A) → length xs ≤ n → drop n xs ≡ []
drop_end zero [] le = refl
drop_end zero (x ∷ xs) le = absurd (omega arith)
drop_end (suc n) [] le = refl
drop_end (suc n) (x ∷ xs) le = drop_end n xs (omega arith)

-- The sectors that are stored are those that are found.
sectors_from-stored_rest :
    (disk : ℕ → List ℕ) (block n : ℕ) (ws : List ℕ) (i k : ℕ)
    → i + k ≡ n
    → length ws ≡ 256 * n
    → sectors_from (stored disk block n ws) (block + i) k ≡ drop (256 * i) ws
sectors_from-stored_rest disk block n ws i zero e size = sym (drop_end (256 * i) ws (omega arith))
sectors_from-stored_rest disk block n ws i (suc k) e size =
    let within : (leb block (block + i) && ltb (block + i) (block + n)) ≡ true = ground arith in
    let place : block + i - block ≡ i = omega arith in
    let next : suc (block + i) ≡ block + suc i = omega arith in
    let count : 256 * suc i ≡ 256 * i + 256 = omega arith in
    let rest = sectors_from-stored_rest disk block n ws (suc i) k (omega arith) size in
    rw (within, place, next, rest, count, drop_more (256 * i) 256 ws)
      (append-take-drop 256 (drop (256 * i) ws))

pub sectors_from-stored :
    (disk : ℕ → List ℕ) (block n : ℕ) (ws : List ℕ)
    → length ws ≡ 256 * n
    → sectors_from (stored disk block n ws) block n ≡ ws
sectors_from-stored disk block n ws size =
    let place : block ≡ block + 0 = omega arith in
    ap (λ b. sectors_from (stored disk block n ws) b n) place
    ∙ sectors_from-stored_rest disk block n ws 0 n (omega arith) size

length-stored :
    (disk : ℕ → List ℕ) (block n : ℕ) (ws : List ℕ)
    → length ws ≡ 256 * n
    → ((j : ℕ) → length (disk j) ≡ 256)
    → (j : ℕ) → length (stored disk block n ws j) ≡ 256
length-stored disk block n ws size whole j = elim (Bool-cases (leb block j && ltb j (block + n))) [
  | inl e ↦
      let low : block ≤ j = ground arith in
      let high : j < block + n = ground arith in
      rw e (
        omega (
          arith,
          length-take 256 (drop (256 * (j - block)) ws),
          length-drop (256 * (j - block)) ws,
        ))
  | inr e ↦ rw e (whole j)
]

-- The bytes of the words of a memory of bytes.
bytes_of_words-words_in :
    (n a k : ℕ) (m : Memory)
    → ((x : ℕ) → m x < 2 ^ 8)
    → k < 2 * n
    → get_or (bytes_of_words (words_in n a m)) k 0 ≡ m (a + k)
bytes_of_words-words_in zero a k m bytes lt = absurd (omega arith)
bytes_of_words-words_in (suc n) a zero m bytes lt =
    let here : a + 0 ≡ a = omega arith in rw here (omega (arith, bytes a, bytes (a + 1)))
bytes_of_words-words_in (suc n) a (suc zero) m bytes lt = omega (arith, bytes a, bytes (a + 1))
bytes_of_words-words_in (suc n) a (suc (suc k)) m bytes lt =
    let place : a + 2 + k ≡ a + suc (suc k) = omega arith in
    bytes_of_words-words_in n (a + 2) k m bytes (omega arith) ∙ ap m place

-- A write, and a read of the same sectors behind it.
pub record ReadBack {D : Type 0} (fuel n num lba buffer target : ℕ) (bus : Ports D)
    (disk : ℕ → List ℕ) (Idle : (ℕ → List ℕ) → Registers → D → Type 0) (s : Ide D) : Type 0 where
  pub between : Ide D
  pub wrote : ide_write_sectors bus fuel n num lba buffer s ≡ ok (0, between)
  pub after : Ide D
  pub read_back : ide_read_sectors bus fuel n num lba target between ≡ ok (0, after)
  pub same : (k : ℕ) → k < 512 * num → after.memory (target + k) ≡ s.memory (buffer + k)
  pub elsewhere : (x : ℕ) → (x < target) ⊎ (target + 512 * num ≤ x) → after.memory x ≡ s.memory x
  pub registers : Registers
  pub idle :
      Idle (stored disk lba num (words_in (256 * num) buffer s.memory)) registers after.hardware

module _ {D : Type 0} (bus : Ports D) (d : Device) (c : Channel)
    (Idle : (ℕ → List ℕ) → Registers → D → Type 0) (Ready : (ℕ → List ℕ) → List ℕ → D → Type 0)
    (Taking : (ℕ → List ℕ) → ℕ → ℕ → List ℕ → D → Type 0)
    (store : IsStore bus c d.drive Idle Ready Taking) (disk : ℕ → List ℕ)
    (whole : (j : ℕ) → length (disk j) ≡ 256) where
  -- `ide_write_sectors` of 1 to 255 sectors of a buffer within the size of an ATA drive among the first
  -- six of the list, which follows the protocol, waits for a command, keeps what is written to it in
  -- sectors of 256 words, and takes LBA or is asked for a block below 65536 cylinders, and then
  -- `ide_read_sectors` of the same sectors into another or the same buffer, where neither buffer wraps,
  -- the memory holds bytes, and with fuel for one poll in each wait: both return 0, the second buffer
  -- holds the bytes that the first had, no other byte of the memory changes, and the disk has the words
  -- of the buffer in these sectors and is otherwise as it was.
  pub ide_write_sectors-ReadBack :
      (fuel n num lba buffer target : ℕ) (r : Registers) (s : Ide D)
      → CanRead d c n num lba buffer s
      → target + 512 * num < 2 ^ 32
      → ((x : ℕ) → s.memory x < 2 ^ 8)
      → Idle disk r s.hardware
      → ReadBack (suc fuel) n num lba buffer target bus disk Idle s
  ide_write_sectors-ReadBack fuel n num lba buffer target r s ask room bytes idle =
      let w =
        ide_write_sectors-Kept bus d c Idle Ready Taking store disk fuel n num lba buffer r s ask
          idle in
      let words = words_in (256 * num) buffer s.memory in
      let held = stored disk lba num words in
      let size = length-words_in (256 * num) buffer s.memory in
      let drive = IsDrive-quiet bus c d.drive held (Idle held) (Ready held) (store.reading held) in
      let again : CanRead d (quiet c) n num lba target w.after = record {
        six = ask.six;
        there = ap (λ ds. get_elem? ds n) w.same_devices ∙ ask.there;
        found = w.quieted;
        present = ask.present;
        ata = ask.ata;
        one = ask.one;
        inside = ask.inside;
        size = ask.size;
        chs = ask.chs;
        some_sectors = ask.some_sectors;
        few = ask.few;
        room = room;
      } in
      let got =
        ide_read_sectors-Delivered bus d (quiet c) held (Idle held) (Ready held) drive
          (length-stored disk lba num words size whole) fuel n num lba target w.registers w.after
          again w.idle in
      let found : sectors_from held lba num ≡ words = sectors_from-stored disk lba num words size in
      let count : 2 * length (sectors_from held lba num) ≡ 512 * num =
        ap (λ ws. 2 * length ws) found ∙ omega (arith, size) in
      record {
        between = w.after;
        wrote = w.returns;
        after = got.after;
        read_back = got.returns;
        same = λ k lt.
            got.here k (omega (arith, count))
            ∙ ap (λ ws. get_or (bytes_of_words ws) k 0) found
            ∙ bytes_of_words-words_in (256 * num) buffer k s.memory bytes (omega arith);
        elsewhere = λ x h. got.elsewhere x (grind (arith, count)) ∙ ap (λ m. m x) w.same_memory;
        registers = got.registers;
        idle = got.idle;
      }
