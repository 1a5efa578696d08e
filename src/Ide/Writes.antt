-- ===== src/Ide/Writes.antt =====
-- The transfer of the words of the memory to a drive that takes them.
use ahk_main.Base.{
  ℕ, zero, suc, ◌+◌, ◌*◌, ◌^◌, ◌<◌, ◌≤◌, ◌≡◌, refl, sym, ap, subst, ◌∙◌, false, List, [], ◌∷◌, ◌++◌,
  some, get_elem?, length, length-append, Result, ok, add32, arith,
}
use mathlib.Core.List.{append_assoc, append-nil}
use ahk_main.Memory.{Memory}
use ahk_main.Ide.{Channel, Ports, Ide}
use ahk_main.Ide.Registers.{ide_polling}
use ahk_main.Ide.Transfer.{outsw, write_loop}
use ahk_main.Ide.Drive.{Registers}
use ahk_main.Ide.Store.{IsStore, ide_polling-calm}

-- The words of the memory from an address on.
abbrev pub words_in : ℕ → ℕ → Memory → List ℕ
words_in zero a m = []
words_in (suc n) a m = (m a + m (a + 1) * 2 ^ 8) ∷ words_in n (a + 2) m

pub length-words_in : (n a : ℕ) (m : Memory) → length (words_in n a m) ≡ n
length-words_in zero a m = refl
length-words_in (suc n) a m = ap suc (length-words_in n (a + 2) m)

words_in-add :
    (n k a b : ℕ) (m : Memory)
    → b ≡ a + 2 * n
    → words_in (n + k) a m ≡ words_in n a m ++ words_in k b m
words_in-add zero k a b m e =
    let same : 0 + k ≡ k = omega arith in let place : a ≡ b = omega arith in rw (same, place) refl
words_in-add (suc n) k a b m e =
    let same : suc n + k ≡ suc (n + k) = omega arith in
    rw same (ap (λ ws. (m a + m (a + 1) * 2 ^ 8) ∷ ws) (words_in-add n k (a + 2) b m (omega arith)))

module _ {D : Type 0} (bus : Ports D) (c : Channel) (slave : ℕ)
    (Idle : (ℕ → List ℕ) → Registers → D → Type 0) (Ready : (ℕ → List ℕ) → List ℕ → D → Type 0)
    (Taking : (ℕ → List ℕ) → ℕ → ℕ → List ℕ → D → Type 0)
    (store : IsStore bus c slave Idle Ready Taking) (disk : ℕ → List ℕ) (block num : ℕ) where
  abbrev Takes : List ℕ → D → Type 0
  Takes = Taking disk block num

  outsw-Taking :
      (n buffer : ℕ) (taken : List ℕ) (s : Ide D)
      → Takes taken s.hardware
      → length taken + n ≤ 256 * num
      → buffer + 2 * n < 2 ^ 32
      → (d' : D) × (outsw bus n c.base buffer s ≡ record s { hardware = d' })
        × Takes (taken ++ words_in n buffer s.memory) d'
  unfolding outsw
  outsw-Taking zero buffer taken s t le fits =
      (s.hardware, refl, subst (λ ws. Takes ws s.hardware) (sym (append-nil taken)) t)
  outsw-Taking (suc n) buffer taken s t le fits =
      let w = s.memory buffer + s.memory (buffer + 1) * 2 ^ 8 in
      let d = bus.outw c.base w s.hardware in
      let got = store.on_word disk block num w taken s.hardware t (omega arith) in
      let (d', e, t') =
        outsw-Taking n (buffer + 2) (taken ++ (w ∷ [])) (record s { hardware = d }) got
          (omega (arith, length-append taken (w ∷ []))) (omega arith) in
      let next : add32 buffer 2 ≡ buffer + 2 = omega arith in
      let second : add32 buffer 1 ≡ buffer + 1 = omega arith in
      (
        d',
        rw (second, next) e,
        subst (λ ws. Takes ws d') (append_assoc taken (w ∷ []) (words_in n (buffer + 2) s.memory))
            t',
      )

  module _ (channel fuel : ℕ) where
    write_loop-sector :
        (sectors buffer : ℕ) (s s₁ s₂ : Ide D) {r : Result (Ide D)}
        → ide_polling bus (suc fuel) channel false s ≡ ok (0, s₁)
        → outsw bus 256 c.base buffer s₁ ≡ s₂
        → buffer + 512 < 2 ^ 32
        → write_loop bus (suc fuel) sectors channel c.base (buffer + 512) s₂ ≡ r
        → write_loop bus (suc fuel) (suc sectors) channel c.base buffer s ≡ r
    unfolding write_loop
    write_loop-sector sectors buffer s s₁ s₂ polled moved fits rest =
        let next : add32 buffer 512 ≡ buffer + 512 = omega arith in rw (polled, moved, next) rest

    -- The loop of a write: the drive has got the words of the buffer, and nothing else has changed.
    pub write_loop-Taking :
        (sectors buffer : ℕ) (taken : List ℕ) (s : Ide D)
        → get_elem? s.channels channel ≡ some c
        → Takes taken s.hardware
        → length taken + 256 * sectors ≤ 256 * num
        → buffer + 512 * sectors < 2 ^ 32
        → (d' : D) × (write_loop bus (suc fuel) sectors channel c.base buffer s
            ≡ ok (record s { hardware = d' }))
          × Takes (taken ++ words_in (256 * sectors) buffer s.memory) d'
    unfolding write_loop
    write_loop-Taking zero buffer taken s found t le fits =
        (s.hardware, refl, subst (λ ws. Takes ws s.hardware) (sym (append-nil taken)) t)
    write_loop-Taking (suc sectors) buffer taken s found t le fits =
        let m = s.memory in
        let calm = store.taking_calm disk block num taken in
        let (d₁, polled, t₁) = ide_polling-calm bus c channel (Takes taken) calm fuel s found t in
        let (d₂, moved, t₂) =
          outsw-Taking 256 buffer taken (record s { hardware = d₁ }) t₁ (omega arith)
            (omega arith) in
        let sent = taken ++ words_in 256 buffer m in
        let (d₃, done, t₃) =
          write_loop-Taking sectors (buffer + 512) sent (record s { hardware = d₂ }) found t₂
            (omega
              (arith, length-append taken (words_in 256 buffer m), length-words_in 256 buffer m))
            (omega arith) in
        let count : 256 + 256 * sectors ≡ 256 * suc sectors = omega arith in
        let joined : sent ++ words_in (256 * sectors) (buffer + 512) m
            ≡ taken ++ words_in (256 * suc sectors) buffer m =
          append_assoc taken (words_in 256 buffer m) (words_in (256 * sectors) (buffer + 512) m)
          ∙ ap (λ ws. taken ++ ws)
              (sym (words_in-add 256 (256 * sectors) buffer (buffer + 512) m (omega arith))
                ∙ ap (λ k. words_in k buffer m) count) in
        (
          d₃,
          write_loop-sector sectors buffer s (record s { hardware = d₁ })
              (record s { hardware = d₂ }) polled moved (omega arith) done,
          subst (λ ws. Takes ws d₃) joined t₃,
        )
