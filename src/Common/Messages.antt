-- ===== src/Common/Messages.antt =====
-- The messages of common.c, as the codes of their characters.
use ahk_main.Base.{ℕ, List, [], ◌∷◌}

-- "PANIC("
abbrev pub panic_text : List ℕ
panic_text = 80 ∷ 65 ∷ 78 ∷ 73 ∷ 67 ∷ 40 ∷ []

-- "ASSERTION-FAILED("
abbrev pub failed_text : List ℕ
failed_text =
    65 ∷ 83 ∷ 83 ∷ 69 ∷ 82 ∷ 84 ∷ 73 ∷ 79 ∷ 78 ∷ 45 ∷ 70 ∷ 65 ∷ 73 ∷ 76 ∷ 69 ∷ 68 ∷ 40 ∷ []

-- ") at"
abbrev pub place_text : List ℕ
place_text = 41 ∷ 32 ∷ 97 ∷ 116 ∷ 32 ∷ []

-- ":"
abbrev pub colon_text : List ℕ
colon_text = 58 ∷ []

-- a line break
abbrev pub newline_text : List ℕ
newline_text = 10 ∷ []
