-- ===== src/Fat12/Chains.antt =====
-- `readFile` along a chain of clusters.
use mathlib.Core.List.{append-nil}
use native.Mathlib.Nat.{mul-div_right}
use ahk_main.Base.{
  ℕ, zero, suc, ◌+◌, ◌-◌, ◌*◌, ◌%◌, ◌^◌, ◌≤◌, ◌<◌, ◌≡◌, refl, ◌⊎◌, inl, inr, Bool-cases, true, Bool,
  List, [], ◌∷◌, ◌++◌, Result, ok, fault, ◌>>=◌, ltb, add32, length, take, drop, length-take,
  length-drop, lt→ltb, le→ltb_false, eq→eqb, ne→eqb_false, arith,
}
use ahk_main.Fat12.{
  File, BootSector, DirectoryEntry, fseek, fread, read_sectors, next_cluster, cluster_lba,
  read_chain, read_file,
}

-- The clusters of a file from one on, up to an entry that ends a chain.
pub data Chain (fat : List ℕ) : ℕ → List ℕ → Type 0 where
  last : {c : ℕ} (n : ℕ) → next_cluster fat c ≡ ok n → 0x0FF8 ≤ n → Chain fat c (c ∷ [])
  link :
      {c n : ℕ} {cs : List ℕ}
      → next_cluster fat c ≡ ok n
      → n < 0x0FF8
      → Chain fat n cs
      → Chain fat c (c ∷ cs)

-- Clusters that follow one another in a table, whatever comes behind them.
pub data Links (fat : List ℕ) : ℕ → List ℕ → Type 0 where
  none_left : {c : ℕ} → Links fat c []
  the_last : {c n : ℕ} → next_cluster fat c ≡ ok n → Links fat c (c ∷ [])
  one_more :
      {c n : ℕ} {cs : List ℕ}
      → next_cluster fat c ≡ ok n
      → n < 0x0FF8
      → Links fat n cs
      → Links fat c (c ∷ cs)

Chain-Links : {fat : List ℕ} {c : ℕ} {cs : List ℕ} → Chain fat c cs → Links fat c cs
Chain-Links (last n e end) = the_last e
Chain-Links (link e lt more) = one_more e lt (Chain-Links more)

-- `fread` of items that are all there.
fread-full :
    (size count p : ℕ) (b : List ℕ)
    → 0 < size
    → p + size * count ≤ length b
    → fread size count (record { bytes = b; position = p })
      ≡ (count, take (size * count) (drop p b), record { bytes = b; position = p + size * count })
unfolding fread
fread-full size count p b some h =
    let got : length (take (size * count) (drop p b)) ≡ size * count =
      omega (arith, length-take (size * count) (drop p b), length-drop p b) in
    let other = ne→eqb_false size 0 (omega arith) in rw (other, got, mul-div_right count some) refl

module _ (boot : BootSector) (root_end : ℕ) (image : List ℕ) where
  abbrev pub cluster_bytes : ℕ
  cluster_bytes = boot.bytes_per_sector * boot.sectors_per_cluster

  abbrev pub cluster_start : ℕ → ℕ
  cluster_start c = cluster_lba boot root_end c * boot.bytes_per_sector

  -- The cluster is on the image, at an offset of 32 bits.
  abbrev pub AreOnDisk : List ℕ → Type 0
  AreOnDisk [] = Unit
  AreOnDisk (c ∷ cs) =
      (cluster_start c + cluster_bytes ≤ length image) × (cluster_start c < 2 ^ 32) × AreOnDisk cs

  -- The bytes of the clusters on the image.
  abbrev pub clusters : List ℕ → List ℕ
  clusters [] = []
  clusters (c ∷ cs) = take cluster_bytes (drop (cluster_start c) image) ++ clusters cs

  -- How a file is read whose clusters are those of a list: into the buffer, or beyond its end.
  abbrev pub Read : ℕ → List ℕ → Result (Bool × List ℕ × File) → Type 0
  Read room cs r =
      ((length cs * cluster_bytes ≤ room)
        × ((q : ℕ) × (r ≡ ok (true, clusters cs, record { bytes = image; position = q }))))
      ⊎ ((room < length cs * cluster_bytes) × (r ≡ fault))

  module _ (some_bytes : 0 < boot.bytes_per_sector) where
    read_cluster :
        (c p : ℕ)
        → cluster_start c + cluster_bytes ≤ length image
        → cluster_start c < 2 ^ 32
        → read_sectors boot
            (cluster_lba boot root_end c)
            boot.sectors_per_cluster
            (record { bytes = image; position = p })
          ≡ (
            true,
            take cluster_bytes (drop (cluster_start c) image),
            record { bytes = image; position = cluster_start c + cluster_bytes },
          )
    unfolding read_sectors fseek
    read_cluster c p h fits =
        let start : cluster_start c % 2 ^ 32 ≡ cluster_start c = omega arith in
        let same = eq→eqb boot.sectors_per_cluster boot.sectors_per_cluster refl in
        rw
          (
            start,
            fread-full boot.bytes_per_sector boot.sectors_per_cluster (cluster_start c) image
                some_bytes h,
            same,
          )
          refl

    abbrev bytes_of : ℕ → List ℕ
    bytes_of c = take cluster_bytes (drop (cluster_start c) image)

    length-bytes_of :
        (c : ℕ)
        → cluster_start c + cluster_bytes ≤ length image
        → length (bytes_of c) ≡ cluster_bytes
    length-bytes_of c h = omega (
      arith,
      length-take cluster_bytes (drop (cluster_start c) image),
      length-drop (cluster_start c) image,
    )

    -- A cluster in a chain that goes on.
    read_chain-link :
        (fat : List ℕ) (fuel room c n p : ℕ) {r : Result (Bool × List ℕ × File)}
        → cluster_start c + cluster_bytes ≤ length image
        → cluster_start c < 2 ^ 32
        → cluster_bytes ≤ room
        → next_cluster fat c ≡ ok n
        → n < 0x0FF8
        → read_chain fuel boot root_end fat
            (room - cluster_bytes)
            n
            (record { bytes = image; position = cluster_start c + cluster_bytes })
          ≡ r
        → read_chain (suc fuel) boot root_end fat room c (record { bytes = image; position = p })
          ≡ (r >>= λ (result, more, disk). ok (result, bytes_of c ++ more, disk))
    unfolding read_chain
    read_chain-link fat fuel room c n p h fits enough e lt rest =
        let size = length-bytes_of c h in
        let inside = le→ltb_false room cluster_bytes enough in
        let on = lt→ltb n 0x0FF8 lt in rw (read_cluster c p h fits, size, inside, e, on, rest) refl

    read_chain-Chain :
        (fat : List ℕ) (fuel room c p : ℕ) (cs : List ℕ)
        → Chain fat c cs
        → AreOnDisk cs
        → length cs * cluster_bytes ≤ room
        → length cs ≤ fuel
        → (q : ℕ) × (read_chain fuel boot root_end fat room c
              (record { bytes = image; position = p })
            ≡ ok (true, clusters cs, record { bytes = image; position = q }))
    unfolding read_chain
    read_chain-Chain fat zero room c p cs (last n e end) d r f = absurd (omega arith)
    read_chain-Chain fat zero room c p cs (link e lt more) d r f = absurd (omega arith)
    read_chain-Chain fat (suc fuel) room c p cs (last n e end) d r f =
        let size = length-bytes_of c d.0 in
        let fits = le→ltb_false room cluster_bytes (omega arith) in
        let stop = le→ltb_false n 0x0FF8 end in
        (
          cluster_start c + cluster_bytes,
          rw (append-nil (bytes_of c), read_cluster c p d.0 d.1, size, fits, e, stop) refl,
        )
    read_chain-Chain fat (suc fuel) room c p cs (link {n = n} {cs = cs'} e lt more) d r f =
        let (q, rest) =
          read_chain-Chain fat fuel (room - cluster_bytes) n (cluster_start c + cluster_bytes) cs'
            more d.2 (omega arith) (omega arith) in
        (q, read_chain-link fat fuel room c n p d.0 d.1 (omega arith) e lt rest)

    read_chain-Links :
        (fat : List ℕ) (fuel room c p : ℕ) (cs : List ℕ)
        → Links fat c cs
        → AreOnDisk cs
        → room < length cs * cluster_bytes
        → length cs ≤ fuel
        → read_chain fuel boot root_end fat room c (record { bytes = image; position = p }) ≡ fault
    unfolding read_chain
    read_chain-Links fat fuel room c p cs none_left d r f = absurd (omega arith)
    read_chain-Links fat zero room c p cs (the_last e) d r f = absurd (omega arith)
    read_chain-Links fat (suc fuel) room c p cs (the_last e) d r f =
        let size = length-bytes_of c d.0 in
        let full : ltb room cluster_bytes ≡ true = ground arith in
        rw (read_cluster c p d.0 d.1, size, full) refl
    read_chain-Links fat zero room c p cs (one_more e lt more) d r f = absurd (omega arith)
    read_chain-Links fat (suc fuel) room c p cs (one_more {n = n} {cs = cs'} e lt more) d r f =
        elim (Bool-cases (ltb room cluster_bytes)) [
          | inl full ↦
              let size = length-bytes_of c d.0 in rw (read_cluster c p d.0 d.1, size, full) refl
          | inr fits ↦ read_chain-link fat fuel room c n p d.0 d.1 (ground arith) e lt (
              read_chain-Links fat fuel (room - cluster_bytes) n (cluster_start c + cluster_bytes)
                cs' more d.2 (let fits' : cluster_bytes ≤ room = ground arith in omega arith)
                (omega arith))
        ]

    -- `readFile` of a file whose chain of clusters ends, where the clusters are on the image, ends within
    -- a round for each cluster. If they fit in the buffer of the file's size and a sector
    -- (a sum of 32 bits), it succeeds,
    -- and the buffer holds the bytes of the clusters in their order; if they do not, it writes behind
    -- the end of the buffer.
    pub read_file-Chain :
        (entry : DirectoryEntry) (fat : List ℕ) (cs : List ℕ) (fuel p : ℕ)
        → Chain fat entry.first_cluster_low cs
        → AreOnDisk cs
        → length cs ≤ fuel
        → Read
            (add32 entry.size boot.bytes_per_sector)
            cs
            (read_file fuel boot root_end fat entry (record { bytes = image; position = p }))
    unfolding read_file
    read_file-Chain entry fat cs fuel p chain on_disk enough =
        let room = add32 entry.size boot.bytes_per_sector in
        elim (Bool-cases (ltb room (length cs * cluster_bytes))) [
          | inl long ↦
              let over : room < length cs * cluster_bytes = ground arith in
              inr (
                over,
                read_chain-Links fat fuel room entry.first_cluster_low p cs (Chain-Links chain)
                    on_disk over enough,
              )
          | inr short ↦
              let fits : length cs * cluster_bytes ≤ room = ground arith in
              inl (
                fits,
                read_chain-Chain fat fuel room entry.first_cluster_low p cs chain on_disk fits
                    enough,
              )
        ]
