-- ===== src/Common/Panic.antt =====
-- common.c: what panic and panic_assert print, before they halt the machine.
use ahk_main.Base.{ℕ, List, Result, ok, ◌>>=◌}
use ahk_main.Monitor.{Monitor, monitor_write, monitor_write_dec}
use ahk_main.Common.Messages.{panic_text, failed_text, place_text, colon_text, newline_text}

-- The part after the first message, which both print.
abbrev report_place : List ℕ → List ℕ → ℕ → Monitor → Result Monitor
report_place message file line m = do
  m' ← monitor_write_dec line (
      monitor_write colon_text
        (monitor_write file (monitor_write place_text (monitor_write message m))))
  ok (monitor_write newline_text m')

unfoldable pub panic_report : List ℕ → List ℕ → ℕ → Monitor → Result Monitor
panic_report message file line m = report_place message file line (monitor_write panic_text m)

unfoldable pub panic_assert_report : List ℕ → ℕ → List ℕ → Monitor → Result Monitor
panic_assert_report file line desc m = report_place desc file line (monitor_write failed_text m)
