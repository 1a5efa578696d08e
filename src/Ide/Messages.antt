-- ===== src/Ide/Messages.antt =====
-- The messages of ide.c, as the codes of their characters.
use ahk_main.Base.{ℕ, List, [], ◌∷◌}

-- "IDE ERROR: Drive not found"
abbrev pub not_found_text : List ℕ
not_found_text =
    73 ∷ 68 ∷ 69 ∷ 32 ∷ 69 ∷ 82 ∷ 82 ∷ 79 ∷ 82 ∷ 58 ∷ 32 ∷ 68 ∷ 114 ∷ 105 ∷ 118 ∷ 101 ∷ 32 ∷ 110
    ∷ 111 ∷ 116 ∷ 32 ∷ 102 ∷ 111 ∷ 117 ∷ 110 ∷ 100 ∷ 10 ∷ []

-- "IDE ERROR: LBA address is greater than the available drive sectors:"
abbrev pub too_far_text : List ℕ
too_far_text =
    73 ∷ 68 ∷ 69 ∷ 32 ∷ 69 ∷ 82 ∷ 82 ∷ 79 ∷ 82 ∷ 58 ∷ 32 ∷ 76 ∷ 66 ∷ 65 ∷ 32 ∷ 97 ∷ 100 ∷ 100 ∷ 114
    ∷ 101 ∷ 115 ∷ 115 ∷ 32 ∷ 105 ∷ 115 ∷ 32 ∷ 103 ∷ 114 ∷ 101 ∷ 97 ∷ 116 ∷ 101 ∷ 114 ∷ 32 ∷ 116
    ∷ 104 ∷ 97 ∷ 110 ∷ 32 ∷ 116 ∷ 104 ∷ 101 ∷ 32 ∷ 97 ∷ 118 ∷ 97 ∷ 105 ∷ 108 ∷ 97 ∷ 98 ∷ 108 ∷ 101
    ∷ 32 ∷ 100 ∷ 114 ∷ 105 ∷ 118 ∷ 101 ∷ 32 ∷ 115 ∷ 101 ∷ 99 ∷ 116 ∷ 111 ∷ 114 ∷ 115 ∷ 58 ∷ 32 ∷ []

-- "IDE ERROR: LBA address is greater than the available drive sectors"
abbrev pub too_far_to_write_text : List ℕ
too_far_to_write_text =
    73 ∷ 68 ∷ 69 ∷ 32 ∷ 69 ∷ 82 ∷ 82 ∷ 79 ∷ 82 ∷ 58 ∷ 32 ∷ 76 ∷ 66 ∷ 65 ∷ 32 ∷ 97 ∷ 100 ∷ 100 ∷ 114
    ∷ 101 ∷ 115 ∷ 115 ∷ 32 ∷ 105 ∷ 115 ∷ 32 ∷ 103 ∷ 114 ∷ 101 ∷ 97 ∷ 116 ∷ 101 ∷ 114 ∷ 32 ∷ 116
    ∷ 104 ∷ 97 ∷ 110 ∷ 32 ∷ 116 ∷ 104 ∷ 101 ∷ 32 ∷ 97 ∷ 118 ∷ 97 ∷ 105 ∷ 108 ∷ 97 ∷ 98 ∷ 108 ∷ 101
    ∷ 32 ∷ 100 ∷ 114 ∷ 105 ∷ 118 ∷ 101 ∷ 32 ∷ 115 ∷ 101 ∷ 99 ∷ 116 ∷ 111 ∷ 114 ∷ 115 ∷ 10 ∷ []

-- "IDE:"
abbrev pub ide_text : List ℕ
ide_text = 73 ∷ 68 ∷ 69 ∷ 58 ∷ []

-- "- Device Fault"
abbrev pub device_fault_text : List ℕ
device_fault_text =
    45 ∷ 32 ∷ 68 ∷ 101 ∷ 118 ∷ 105 ∷ 99 ∷ 101 ∷ 32 ∷ 70 ∷ 97 ∷ 117 ∷ 108 ∷ 116 ∷ 10 ∷ []

-- "- No Address Mark Found"
abbrev pub no_mark_text : List ℕ
no_mark_text =
    45 ∷ 32 ∷ 78 ∷ 111 ∷ 32 ∷ 65 ∷ 100 ∷ 100 ∷ 114 ∷ 101 ∷ 115 ∷ 115 ∷ 32 ∷ 77 ∷ 97 ∷ 114 ∷ 107 ∷ 32
    ∷ 70 ∷ 111 ∷ 117 ∷ 110 ∷ 100 ∷ 10 ∷ []

-- "- No Media or Media Error"
abbrev pub no_media_text : List ℕ
no_media_text =
    45 ∷ 32 ∷ 78 ∷ 111 ∷ 32 ∷ 77 ∷ 101 ∷ 100 ∷ 105 ∷ 97 ∷ 32 ∷ 111 ∷ 114 ∷ 32 ∷ 77 ∷ 101 ∷ 100 ∷ 105
    ∷ 97 ∷ 32 ∷ 69 ∷ 114 ∷ 114 ∷ 111 ∷ 114 ∷ 10 ∷ []

-- "- Command Aborted"
abbrev pub aborted_text : List ℕ
aborted_text =
    45 ∷ 32 ∷ 67 ∷ 111 ∷ 109 ∷ 109 ∷ 97 ∷ 110 ∷ 100 ∷ 32 ∷ 65 ∷ 98 ∷ 111 ∷ 114 ∷ 116 ∷ 101 ∷ 100
    ∷ 10 ∷ []

-- "- ID mark not Found"
abbrev pub no_id_text : List ℕ
no_id_text =
    45 ∷ 32 ∷ 73 ∷ 68 ∷ 32 ∷ 109 ∷ 97 ∷ 114 ∷ 107 ∷ 32 ∷ 110 ∷ 111 ∷ 116 ∷ 32 ∷ 70 ∷ 111 ∷ 117 ∷ 110
    ∷ 100 ∷ 10 ∷ []

-- "- Uncorrectable Data Error"
abbrev pub uncorrectable_text : List ℕ
uncorrectable_text =
    45 ∷ 32 ∷ 85 ∷ 110 ∷ 99 ∷ 111 ∷ 114 ∷ 114 ∷ 101 ∷ 99 ∷ 116 ∷ 97 ∷ 98 ∷ 108 ∷ 101 ∷ 32 ∷ 68 ∷ 97
    ∷ 116 ∷ 97 ∷ 32 ∷ 69 ∷ 114 ∷ 114 ∷ 111 ∷ 114 ∷ 10 ∷ []

-- "- Bad Sectors"
abbrev pub bad_sectors_text : List ℕ
bad_sectors_text = 45 ∷ 32 ∷ 66 ∷ 97 ∷ 100 ∷ 32 ∷ 83 ∷ 101 ∷ 99 ∷ 116 ∷ 111 ∷ 114 ∷ 115 ∷ 10 ∷ []

-- "- Reads Nothing"
abbrev pub reads_nothing_text : List ℕ
reads_nothing_text =
    45 ∷ 32 ∷ 82 ∷ 101 ∷ 97 ∷ 100 ∷ 115 ∷ 32 ∷ 78 ∷ 111 ∷ 116 ∷ 104 ∷ 105 ∷ 110 ∷ 103 ∷ 10 ∷ []

-- "- Write Protected"
abbrev pub write_protected_text : List ℕ
write_protected_text =
    45 ∷ 32 ∷ 87 ∷ 114 ∷ 105 ∷ 116 ∷ 101 ∷ 32 ∷ 80 ∷ 114 ∷ 111 ∷ 116 ∷ 101 ∷ 99 ∷ 116 ∷ 101 ∷ 100
    ∷ 10 ∷ []

-- "Model:"
abbrev pub model_text : List ℕ
model_text = 77 ∷ 111 ∷ 100 ∷ 101 ∷ 108 ∷ 58 ∷ 32 ∷ []

-- a line break
abbrev pub newline_text : List ℕ
newline_text = 10 ∷ []

-- "\n  model: "
abbrev pub found_model_text : List ℕ
found_model_text = 10 ∷ 32 ∷ 32 ∷ 109 ∷ 111 ∷ 100 ∷ 101 ∷ 108 ∷ 58 ∷ 32 ∷ []
