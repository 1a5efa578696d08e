-- ===== src/Monitor/Screen.antt =====
-- The screen of monitor.c: where the cursor can be, and which cells a character changes.
use ahk_main.Base.{
  ℕ, zero, suc, ◌+◌, ◌*◌, ◌/◌, ◌%◌, ◌^◌, ◌≤◌, ◌<◌, ◌≡◌, refl, ap, ◌∙◌, bit_or, inl, inr, Bool-cases,
  ◌&&◌, List, [], ◌∷◌, ◌++◌, ltb, leb, ◌==◌, if◌then◌else◌, arith,
}
use ahk_main.Monitor.{
  Monitor, blank, move_cursor, move_up, fill, scroll, put_char, wrap_line, monitor_put,
  monitor_clear,
}

fill-eq :
    (n i : ℕ) (video : ℕ → ℕ) (x : ℕ)
    → fill n i video x ≡ (if leb i x && ltb x (i + n) then blank else video x)
unfolding fill
fill-eq zero i video x = ground arith
fill-eq (suc n) i video x =
    ground (arith, fill-eq n (suc i) (λ j. if j == i then blank else video j) x)

move_up-eq :
    (n i : ℕ) (video : ℕ → ℕ) (x : ℕ)
    → move_up n i video x ≡ (if leb i x && ltb x (i + n) then video (x + 80) else video x)
unfolding move_up
move_up-eq zero i video x = ground arith
move_up-eq (suc n) i video x =
    ground (arith, move_up-eq n (suc i) (λ j. if j == i then video (i + 80) else video j) x)

-- The cursor is on the screen.
pub record OnScreen (s : Monitor) : Type 0 where
  pub column : s.cursor_x < 80
  pub row : s.cursor_y < 25

abbrev pub position : Monitor → ℕ
position s = s.cursor_y * 80 + s.cursor_x

-- The cells after the text has moved up by a line.
abbrev pub scrolled : (ℕ → ℕ) → ℕ → ℕ
scrolled video j = if ltb j 1920 then video (j + 80) else if ltb j 2000 then blank else video j

scroll-cells :
    (s : Monitor) (j : ℕ)
    → (scroll s).video_memory j
      ≡ (if leb 25 s.cursor_y then scrolled s.video_memory j else s.video_memory j)
unfolding scroll
scroll-cells s j = elim (Bool-cases (leb 25 s.cursor_y)) [
  | inl e ↦ rw e (
      ground (
        arith,
        fill-eq 80 1920 (move_up 1920 0 s.video_memory) j,
        move_up-eq 1920 0 s.video_memory j,
      ))
  | inr e ↦ rw e refl
]

-- The bytes that set the hardware cursor to a position, the last one first.
abbrev pub cursor_bytes : ℕ → List (ℕ × ℕ)
cursor_bytes p = (0x3D5, p % 256) ∷ (0x3D4, 15) ∷ (0x3D5, p / 256) ∷ (0x3D4, 14) ∷ []

-- What every character keeps: the cursor on the screen, the memory behind the screen, and the
-- hardware cursor at the cursor.
pub record Kept (s s' : Monitor) : Type 0 where
  pub cursor : OnScreen s'
  pub outside : (j : ℕ) → 2000 ≤ j → s'.video_memory j ≡ s.video_memory j
  pub hardware : s'.sent ≡ cursor_bytes (position s') ++ s.sent

-- Before the line is wrapped: the column may be behind the last one, and the row may be the one
-- behind the last one.
record Put (s s' : Monitor) : Type 0 where
  column : s'.cursor_x < 81
  row : s'.cursor_y + s'.cursor_x / 80 < 26
  outside : (j : ℕ) → 2000 ≤ j → s'.video_memory j ≡ s.video_memory j
  same_sent : s'.sent ≡ s.sent

put_char-Put : (c : ℕ) (s : Monitor) → OnScreen s → Put s (put_char c s)
unfolding put_char
put_char-Put c s o =
    let column = o.column in
    let row = o.row in
    record {
      column = ground arith;
      row = ground arith;
      outside = λ j h. ground arith;
      same_sent = ground arith;
    }

-- The line is wrapped; the row may still be the one behind the last one.
record Wrapped (s s' : Monitor) : Type 0 where
  column : s'.cursor_x < 80
  row : s'.cursor_y < 26
  outside : (j : ℕ) → 2000 ≤ j → s'.video_memory j ≡ s.video_memory j
  same_sent : s'.sent ≡ s.sent

wrap_line-Wrapped : (s s' : Monitor) → Put s s' → Wrapped s (wrap_line s')
unfolding wrap_line
wrap_line-Wrapped s s' p =
    let column = p.column in
    let row = p.row in
    record {
      column = ground arith;
      row = ground arith;
      outside = λ j h. ground (arith, p.outside j h);
      same_sent = ground (arith, p.same_sent);
    }

scroll-OnScreen : (s s' : Monitor) → Wrapped s s' → OnScreen (scroll s')
unfolding scroll
scroll-OnScreen s s' p =
    let column = p.column in let row = p.row in record { column = ground arith; row = ground arith }

pub scroll-sent : (s : Monitor) → (scroll s).sent ≡ s.sent
unfolding scroll
scroll-sent s = ground arith

move_cursor-sent :
    (s : Monitor) → OnScreen s → (move_cursor s).sent ≡ cursor_bytes (position s) ++ s.sent
unfolding move_cursor
move_cursor-sent s o =
    let column = o.column in
    let row = o.row in
    let low : position s % 2 ^ 16 ≡ position s = omega arith in
    let high : position s / 256 % 256 ≡ position s / 256 = omega arith in rw (low, high) refl

finish : (s s' : Monitor) → Wrapped s s' → Kept s (move_cursor (scroll s'))
unfolding move_cursor
finish s s' p =
    let o = scroll-OnScreen s s' p in
    record {
      cursor = record { column = o.column; row = o.row };
      outside = λ j h. ground (arith, scroll-cells s' j, p.outside j h);
      hardware =
          move_cursor-sent (scroll s') o
          ∙ ap (λ l. cursor_bytes (position (scroll s')) ++ l) (scroll-sent s' ∙ p.same_sent);
    }

-- `monitor_put` of any character, with the cursor on the screen, leaves it on the screen, changes no
-- cell behind the screen, and sets the hardware cursor to the cursor.
pub monitor_put-Kept : (c : ℕ) (s : Monitor) → OnScreen s → Kept s (monitor_put c s)
unfolding monitor_put
monitor_put-Kept c s o =
    finish s (wrap_line (put_char c s)) (wrap_line-Wrapped s (put_char c s) (put_char-Put c s o))

-- A printable character before the screen is scrolled.
put_char-printable :
    (c : ℕ) (s : Monitor)
    → OnScreen s
    → 32 ≤ c
    → c < 128
    → let t = wrap_line (put_char c s) in
      ((j : ℕ) → t.video_memory j ≡ (if j == position s then bit_or c 0x0F00 else s.video_memory j))
      × (t.cursor_x ≡ (if s.cursor_x == 79 then 0 else s.cursor_x + 1))
      × (t.cursor_y ≡ (if s.cursor_x == 79 then s.cursor_y + 1 else s.cursor_y))
unfolding put_char wrap_line
put_char-printable c s o low high =
    let column = o.column in let row = o.row in (λ j. ground arith, ground arith, ground arith)

scroll-cursor :
    (s : Monitor)
    → ((scroll s).cursor_x ≡ s.cursor_x)
      × ((scroll s).cursor_y ≡ (if leb 25 s.cursor_y then 24 else s.cursor_y))
unfolding scroll
scroll-cursor s = (ground arith, ground arith)

-- `monitor_put` of a printable character, with the cursor on the screen, writes its cell and takes the
-- cursor one place on; behind the last place of the screen the text moves up by a line and the cursor
-- goes to the start of the last one.
pub monitor_put-printable :
    (c : ℕ) (s : Monitor)
    → OnScreen s
    → 32 ≤ c
    → c < 128
    → let p = position s in
      let shown : ℕ → ℕ = λ j. if j == p then bit_or c 0x0F00 else s.video_memory j in
      let s' = monitor_put c s in
      ((j : ℕ) → s'.video_memory j ≡ (if p == 1999 then scrolled shown j else shown j))
      × (position s' ≡ (if p == 1999 then 1920 else p + 1))
unfolding monitor_put move_cursor
monitor_put-printable c s o low high =
    let column = o.column in
    let row = o.row in
    let t = wrap_line (put_char c s) in
    let (cells, x, y) = put_char-printable c s o low high in
    let (x', y') = scroll-cursor t in
    let last : leb 25 t.cursor_y ≡ (position s == 1999) = ground arith in
    (λ j. scroll-cells t j ∙ rw (last, cells j, cells (j + 80)) refl, ground arith)

-- `monitor_clear` blanks the screen, leaves the memory behind it, and takes the cursor to its start.
monitor_clear-blank :
    (s : Monitor)
    → ((j : ℕ)
        → (monitor_clear s).video_memory j ≡ (if ltb j 2000 then blank else s.video_memory j))
      × (position (monitor_clear s) ≡ 0)
      × ((monitor_clear s).sent ≡ cursor_bytes 0 ++ s.sent)
unfolding monitor_clear move_cursor
monitor_clear-blank s = (λ j. ground (arith, fill-eq 2000 0 s.video_memory j), refl, refl)
