-- ===== src/Tests/Screens.antt =====
-- Tests of monitor.c and common.c.
use ahk_main.Base.{
  ℕ, ◌%◌, ◌≡◌, ◌≢◌, ◌⊎◌, bit_or, List, [], ◌∷◌, ok, inl, ◌==◌, if◌then◌else◌, arith,
}
use ahk_main.Common.{strcmp, strcmp-equal}
use ahk_main.Common.Bytes.{memcpy, memcpy-bytes}
use ahk_main.Memory.{Memory}
use ahk_main.Monitor.{Monitor, monitor_put, monitor_write, monitor_write_dec, monitor_write_hex}
use ahk_main.Monitor.Screen.{
  OnScreen, Kept, position, scrolled, monitor_put-Kept, monitor_put-printable,
}
use ahk_main.Monitor.Hex.{IsHexadecimal, hex_spelled, monitor_write_hex-spelled}
use ahk_main.Monitor.Numbers.{IsDecimal, spelled, monitor_write_dec-spelled}

-- The cursor is at the last place of the screen.
abbrev corner : Monitor
corner = record { video_memory = λ j. j; cursor_x = 79; cursor_y = 24; sent = [] }

corner-OnScreen : OnScreen corner
corner-OnScreen = record { column = omega arith; row = omega arith }

monitor_put-Kept_example : Kept corner (monitor_put 10 corner)
monitor_put-Kept_example = monitor_put-Kept 10 corner corner-OnScreen

monitor_put-printable_example :
    let shown : ℕ → ℕ = λ j. if j == 1999 then bit_or 65 0x0F00 else j in
    ((j : ℕ) → (monitor_put 65 corner).video_memory j ≡ scrolled shown j)
    × (position (monitor_put 65 corner) ≡ 1920)
monitor_put-printable_example =
    monitor_put-printable 65 corner corner-OnScreen (omega arith) (omega arith)

monitor_write_dec-spelled_example :
    (cs : List ℕ) × (monitor_write_dec 1204 corner ≡ ok (monitor_write cs corner))
    × (spelled 0 cs ≡ 1204)
    × IsDecimal cs
monitor_write_dec-spelled_example = monitor_write_dec-spelled 1204 corner (omega arith)

abbrev long : List ℕ
long = 97 ∷ 98 ∷ []

abbrev short : List ℕ
short = 97 ∷ []

strcmp-equal_example :
    ((strcmp long short ≡ 0) × (long ≡ short)) ⊎ ((strcmp long short ≡ 1) × (long ≢ short))
strcmp-equal_example = strcmp-equal long short (omega arith, (omega arith, tt)) (omega arith, tt)

monitor_write_hex-spelled_example :
    (cs : List ℕ) × (monitor_write_hex 0xC0000000 corner ≡ monitor_write (48 ∷ 120 ∷ cs) corner)
    × (hex_spelled 0 cs ≡ 0xC0000000)
    × IsHexadecimal cs
monitor_write_hex-spelled_example = monitor_write_hex-spelled 0xC0000000 corner (omega arith)

abbrev counting : Memory
counting x = x % 256

memcpy-bytes_example : memcpy 100 20 10 counting 105 ≡ 25
memcpy-bytes_example =
    memcpy-bytes 100 20 10 counting 105 (omega arith) (omega arith) (inl (omega arith))
