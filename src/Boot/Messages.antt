-- ===== src/Boot/Messages.antt =====
-- The messages of main.c, as the codes of their characters.
use ahk_main.Base.{ℕ, List, [], ◌∷◌}

-- "xvX Operating System", and "Kernel: AHK 0.9.9" on the next line
abbrev pub banner_text : List ℕ
banner_text =
    10 ∷ 120 ∷ 118 ∷ 88 ∷ 32 ∷ 79 ∷ 112 ∷ 101 ∷ 114 ∷ 97 ∷ 116 ∷ 105 ∷ 110 ∷ 103 ∷ 32 ∷ 83 ∷ 121
    ∷ 115 ∷ 116 ∷ 101 ∷ 109 ∷ 10 ∷ 75 ∷ 101 ∷ 114 ∷ 110 ∷ 101 ∷ 108 ∷ 58 ∷ 32 ∷ 65 ∷ 72 ∷ 75 ∷ 32
    ∷ 48 ∷ 46 ∷ 57 ∷ 46 ∷ 57 ∷ 10 ∷ []

-- "Disk Driver Initialized:"
abbrev pub driver_text : List ℕ
driver_text =
    68 ∷ 105 ∷ 115 ∷ 107 ∷ 32 ∷ 68 ∷ 114 ∷ 105 ∷ 118 ∷ 101 ∷ 114 ∷ 32 ∷ 73 ∷ 110 ∷ 105 ∷ 116 ∷ 105
    ∷ 97 ∷ 108 ∷ 105 ∷ 122 ∷ 101 ∷ 100 ∷ 58 ∷ 32 ∷ 10 ∷ []

-- "QEMU HARDDISK"
abbrev pub disk_model_text : List ℕ
disk_model_text = 81 ∷ 69 ∷ 77 ∷ 85 ∷ 32 ∷ 72 ∷ 65 ∷ 82 ∷ 68 ∷ 68 ∷ 73 ∷ 83 ∷ 75 ∷ []

-- "Reading Hard Disk and Verifying AFS Header..."
abbrev pub reading_text : List ℕ
reading_text =
    10 ∷ 82 ∷ 101 ∷ 97 ∷ 100 ∷ 105 ∷ 110 ∷ 103 ∷ 32 ∷ 72 ∷ 97 ∷ 114 ∷ 100 ∷ 32 ∷ 68 ∷ 105 ∷ 115
    ∷ 107 ∷ 32 ∷ 97 ∷ 110 ∷ 100 ∷ 32 ∷ 86 ∷ 101 ∷ 114 ∷ 105 ∷ 102 ∷ 121 ∷ 105 ∷ 110 ∷ 103 ∷ 32 ∷ 65
    ∷ 70 ∷ 83 ∷ 32 ∷ 72 ∷ 101 ∷ 97 ∷ 100 ∷ 101 ∷ 114 ∷ 46 ∷ 46 ∷ 46 ∷ 32 ∷ 32 ∷ 32 ∷ 32 ∷ []

-- "FAILED!"
abbrev pub failed_text : List ℕ
failed_text = 70 ∷ 65 ∷ 73 ∷ 76 ∷ 69 ∷ 68 ∷ 33 ∷ 10 ∷ []

-- "No AFS Header found! Are you sure this hard disk is formatted to AHK File System (AFS)?"
abbrev pub no_header_text : List ℕ
no_header_text =
    78 ∷ 111 ∷ 32 ∷ 65 ∷ 70 ∷ 83 ∷ 32 ∷ 72 ∷ 101 ∷ 97 ∷ 100 ∷ 101 ∷ 114 ∷ 32 ∷ 102 ∷ 111 ∷ 117 ∷ 110
    ∷ 100 ∷ 33 ∷ 32 ∷ 65 ∷ 114 ∷ 101 ∷ 32 ∷ 121 ∷ 111 ∷ 117 ∷ 32 ∷ 115 ∷ 117 ∷ 114 ∷ 101 ∷ 32 ∷ 116
    ∷ 104 ∷ 105 ∷ 115 ∷ 32 ∷ 104 ∷ 97 ∷ 114 ∷ 100 ∷ 32 ∷ 100 ∷ 105 ∷ 115 ∷ 107 ∷ 32 ∷ 105 ∷ 115 ∷ 32
    ∷ 102 ∷ 111 ∷ 114 ∷ 109 ∷ 97 ∷ 116 ∷ 116 ∷ 101 ∷ 100 ∷ 32 ∷ 116 ∷ 111 ∷ 32 ∷ 65 ∷ 72 ∷ 75 ∷ 32
    ∷ 70 ∷ 105 ∷ 108 ∷ 101 ∷ 32 ∷ 83 ∷ 121 ∷ 115 ∷ 116 ∷ 101 ∷ 109 ∷ 32 ∷ 40 ∷ 65 ∷ 70 ∷ 83 ∷ 41
    ∷ 63 ∷ 10 ∷ []

-- "SUCCESS!"
abbrev pub success_text : List ℕ
success_text = 83 ∷ 85 ∷ 67 ∷ 67 ∷ 69 ∷ 83 ∷ 83 ∷ 33 ∷ 10 ∷ []

-- "Files found in / (root):"
abbrev pub files_text : List ℕ
files_text =
    70 ∷ 105 ∷ 108 ∷ 101 ∷ 115 ∷ 32 ∷ 102 ∷ 111 ∷ 117 ∷ 110 ∷ 100 ∷ 32 ∷ 105 ∷ 110 ∷ 32 ∷ 47 ∷ 32
    ∷ 40 ∷ 114 ∷ 111 ∷ 111 ∷ 116 ∷ 41 ∷ 58 ∷ 32 ∷ []

-- "Listing files on disk..."
abbrev pub listing_text : List ℕ
listing_text =
    76 ∷ 105 ∷ 115 ∷ 116 ∷ 105 ∷ 110 ∷ 103 ∷ 32 ∷ 102 ∷ 105 ∷ 108 ∷ 101 ∷ 115 ∷ 32 ∷ 111 ∷ 110 ∷ 32
    ∷ 100 ∷ 105 ∷ 115 ∷ 107 ∷ 46 ∷ 46 ∷ 46 ∷ 10 ∷ []

-- "Name:"
abbrev pub name_text : List ℕ
name_text = 78 ∷ 97 ∷ 109 ∷ 101 ∷ 58 ∷ 32 ∷ []

-- "Contents:"
abbrev pub contents_text : List ℕ
contents_text = 67 ∷ 111 ∷ 110 ∷ 116 ∷ 101 ∷ 110 ∷ 116 ∷ 115 ∷ 58 ∷ 32 ∷ 10 ∷ []

-- a line break
abbrev pub newline_text : List ℕ
newline_text = 10 ∷ []
