-- ===== src/Interrupts/Messages.antt =====
-- The messages of isr.c, timer.c and the page fault handler, as the codes of their characters.
use ahk_main.Base.{ℕ, List, [], ◌∷◌}

-- "unhandled interrupt:"
abbrev pub unhandled_text : List ℕ
unhandled_text =
    117 ∷ 110 ∷ 104 ∷ 97 ∷ 110 ∷ 100 ∷ 108 ∷ 101 ∷ 100 ∷ 32 ∷ 105 ∷ 110 ∷ 116 ∷ 101 ∷ 114 ∷ 114
    ∷ 117 ∷ 112 ∷ 116 ∷ 58 ∷ 32 ∷ []

-- "Shit."
abbrev pub invalid_opcode_text : List ℕ
invalid_opcode_text = 83 ∷ 104 ∷ 105 ∷ 116 ∷ 46 ∷ 10 ∷ []

-- "Tick:"
abbrev pub tick_text : List ℕ
tick_text = 84 ∷ 105 ∷ 99 ∷ 107 ∷ 58 ∷ 32 ∷ []

-- a line break
abbrev pub newline_text : List ℕ
newline_text = 10 ∷ []

-- "Page fault! ("
abbrev pub page_fault_text : List ℕ
page_fault_text = 80 ∷ 97 ∷ 103 ∷ 101 ∷ 32 ∷ 102 ∷ 97 ∷ 117 ∷ 108 ∷ 116 ∷ 33 ∷ 32 ∷ 40 ∷ 32 ∷ []

-- "present"
abbrev pub present_text : List ℕ
present_text = 112 ∷ 114 ∷ 101 ∷ 115 ∷ 101 ∷ 110 ∷ 116 ∷ 32 ∷ []

-- "read-only"
abbrev pub read_only_text : List ℕ
read_only_text = 114 ∷ 101 ∷ 97 ∷ 100 ∷ 45 ∷ 111 ∷ 110 ∷ 108 ∷ 121 ∷ 32 ∷ []

-- "user-mode"
abbrev pub user_mode_text : List ℕ
user_mode_text = 117 ∷ 115 ∷ 101 ∷ 114 ∷ 45 ∷ 109 ∷ 111 ∷ 100 ∷ 101 ∷ 32 ∷ []

-- "reserved"
abbrev pub reserved_text : List ℕ
reserved_text = 114 ∷ 101 ∷ 115 ∷ 101 ∷ 114 ∷ 118 ∷ 101 ∷ 100 ∷ 32 ∷ []

-- ") at 0x"
abbrev pub at_text : List ℕ
at_text = 41 ∷ 32 ∷ 97 ∷ 116 ∷ 32 ∷ 48 ∷ 120 ∷ []
