-- ===== src/Monitor.antt =====
-- monitor.c: the text screen of 80 columns and 25 rows, its cursor, and the printing of numbers.
-- A `char` is its byte, and is signed: the characters from 128 on are below ' '.
pub mod Screen
pub mod Numbers
pub mod Hex
use ahk_main.Base.{
  ℕ, zero, suc, ◌+◌, ◌-◌, ◌*◌, ◌/◌, ◌%◌, ◌^◌, bit_or, Bool, true, false, not, ◌&&◌, List, [], ◌∷◌,
  Result, ok, fault, ◌>>=◌, ltb, leb, ◌==◌, if◌then◌else◌, u8,
}
use ahk_main.Kernel.{update}

-- The global variables, and the bytes sent to ports by `outb`, the last one first.
pub record Monitor : Type 0 where
  pub video_memory : ℕ → ℕ
  pub cursor_x : ℕ
  pub cursor_y : ℕ
  pub sent : List (ℕ × ℕ)

abbrev pub outb : ℕ → ℕ → Monitor → Monitor
outb port value s = record s { sent = (port, u8 value) ∷ s.sent }

-- A space in white on black.
abbrev pub blank : ℕ
blank = 0x0F20

unfoldable pub move_cursor : Monitor → Monitor
move_cursor s =
    let location = (s.cursor_y * 80 + s.cursor_x) % 2 ^ 16 in
    outb 0x3D5 location (outb 0x3D4 15 (outb 0x3D5 (location / 2 ^ 8) (outb 0x3D4 14 s)))

-- `for (...) video_memory[i] = video_memory[i+80];` on the rounds that are left
unfoldable pub move_up : ℕ → ℕ → (ℕ → ℕ) → ℕ → ℕ
move_up zero i video = video
move_up (suc rounds) i video = move_up rounds (suc i) (update video i (video (i + 80)))

-- `for (...) video_memory[i] = blank;` on the rounds that are left
unfoldable pub fill : ℕ → ℕ → (ℕ → ℕ) → ℕ → ℕ
fill zero i video = video
fill (suc rounds) i video = fill rounds (suc i) (update video i blank)

unfoldable pub scroll : Monitor → Monitor
scroll s =
    if leb 25 s.cursor_y
    then record s { video_memory = fill 80 1920 (move_up 1920 0 s.video_memory); cursor_y = 24 }
    else s

-- The branches of `monitor_put` on the character.
unfoldable pub put_char : ℕ → Monitor → Monitor
put_char c s =
    if (c == 0x08) && not (s.cursor_x == 0)
    then record s { cursor_x = s.cursor_x - 1 }
    else if c == 0x09
    then record s { cursor_x = u8 ((s.cursor_x + 8) / 8 * 8) }
    else if c == 13
    then record s { cursor_x = 0 }
    else if c == 10
    then record s { cursor_x = 0; cursor_y = u8 (s.cursor_y + 1) }
    else if leb 32 c && ltb c 128
    then record s {
      video_memory = update s.video_memory (s.cursor_y * 80 + s.cursor_x) (bit_or c 0x0F00);
      cursor_x = u8 (s.cursor_x + 1);
    }
    else s

-- The next line, where the cursor is behind the last column.
unfoldable pub wrap_line : Monitor → Monitor
wrap_line s =
    if leb 80 s.cursor_x then record s { cursor_x = 0; cursor_y = u8 (s.cursor_y + 1) } else s

unfoldable pub monitor_put : ℕ → Monitor → Monitor
monitor_put c s = move_cursor (scroll (wrap_line (put_char c s)))

unfoldable pub monitor_clear : Monitor → Monitor
monitor_clear s =
    move_cursor (record s { video_memory = fill 2000 0 s.video_memory; cursor_x = 0; cursor_y = 0 })

-- The characters of a string end with its null, or with the list.
unfoldable pub monitor_write : List ℕ → Monitor → Monitor
monitor_write [] s = s
monitor_write (c ∷ cs) s = if c == 0 then s else monitor_write cs (monitor_put c s)

abbrev pub hex_char : ℕ → ℕ
hex_char tmp = if leb 0xA tmp then tmp - 0xA + 97 else tmp + 48

-- The loop of `monitor_write_hex`: `i` is four times the rounds that are left.
unfoldable pub hex_from : ℕ → Bool → ℕ → Monitor → Monitor
hex_from zero no_zeroes n s = s
hex_from (suc rounds) no_zeroes n s =
    let tmp = n / 2 ^ (4 * suc rounds) % 16 in
    if (tmp == 0) && no_zeroes
    then hex_from rounds no_zeroes n s
    else hex_from rounds false n (monitor_put (hex_char tmp) s)

unfoldable pub monitor_write_hex : ℕ → Monitor → Monitor
monitor_write_hex n s =
    monitor_put (hex_char (n % 16)) (hex_from 7 true n (monitor_write (48 ∷ 120 ∷ []) s))

-- `acc > 0`, of a signed number of 32 bits.
abbrev pub is_positive : ℕ → Bool
is_positive acc = ltb 0 acc && ltb acc (2 ^ 31)

-- The digits in the array `c`, the lowest first, on the elements that are left for them.
unfoldable pub dec_chars : ℕ → ℕ → Result (List ℕ)
dec_chars zero acc = if is_positive acc then fault else ok []
dec_chars (suc free) acc =
    let rest = dec_chars free (acc / 10) >>= λ cs. ok ((48 + acc % 10) ∷ cs) in
    if is_positive acc then rest else ok []

-- The copy into `c2`, from its end to its start.
unfoldable pub copy_reversed : List ℕ → List ℕ → List ℕ
copy_reversed [] c2 = c2
copy_reversed (x ∷ c) c2 = copy_reversed c (x ∷ c2)

-- The last of the 32 elements of `c` is for the null.
unfoldable pub monitor_write_dec : ℕ → Monitor → Result Monitor
monitor_write_dec n s =
    let printed = dec_chars 31 n >>= λ c. ok (monitor_write (copy_reversed c []) s) in
    if n == 0 then ok (monitor_put 48 s) else printed
