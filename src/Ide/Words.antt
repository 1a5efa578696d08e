-- ===== src/Ide/Words.antt =====
-- The transfer of the words that a drive sends into the memory.
use ahk_main.Base.{
  ℕ, zero, suc, ◌+◌, ◌-◌, ◌*◌, ◌/◌, ◌%◌, ◌^◌, ◌≤◌, ◌<◌, ◌≡◌, ◌⊎◌, inl, inr, Bool-cases, refl, sym,
  ap, subst, ◌∙◌, bit_and, List, [], ◌∷◌, ◌++◌, length, get_or, length-append, ltb, ◌==◌, add32, u8,
  arith,
}
use ahk_main.Memory.{Memory, store8}
use ahk_main.Memory.Laws.{store8_self, store8-ne}
use ahk_main.Ide.{Channel, Ports, Ide}
use ahk_main.Ide.Registers.{poll_result}
use ahk_main.Ide.Transfer.{insw}

-- The bytes of 16-bit words, the low one first.
abbrev pub bytes_of_words : List ℕ → List ℕ
bytes_of_words [] = []
bytes_of_words (w ∷ ws) = w % 2 ^ 8 ∷ w / 2 ^ 8 % 2 ^ 8 ∷ bytes_of_words ws

get_or-bytes_of_words-append :
    (ws vs : List ℕ) (k : ℕ)
    → (k < 2 * length ws → get_or (bytes_of_words (ws ++ vs)) k 0 ≡ get_or (bytes_of_words ws) k 0)
      × (2 * length ws ≤ k
          → get_or (bytes_of_words (ws ++ vs)) k 0
            ≡ get_or (bytes_of_words vs) (k - 2 * length ws) 0)
get_or-bytes_of_words-append [] vs k =
    (λ h. absurd (omega arith), λ h. ap (λ j. get_or (bytes_of_words vs) j 0) (omega arith))
get_or-bytes_of_words-append (w ∷ ws) vs zero = (λ h. refl, λ h. absurd (omega arith))
get_or-bytes_of_words-append (w ∷ ws) vs (suc zero) = (λ h. refl, λ h. absurd (omega arith))
get_or-bytes_of_words-append (w ∷ ws) vs (suc (suc k)) =
    let (low, high) = get_or-bytes_of_words-append ws vs k in
    (
      λ h. low (omega arith),
      λ h. high (omega arith) ∙ ap (λ j. get_or (bytes_of_words vs) j 0) (omega arith),
    )

module _ {D : Type 0} (bus : Ports D) (c : Channel) (Ready : List ℕ → D → Type 0) where
  -- `Ready ws d`: the drive of the channel has the words `ws` to send. While it has some, a read of a
  -- status register changes nothing of that, and tells that it is not busy, without error, and has
  -- data; each read of the data register gives the next word.
  pub record IsSending : Type 0 where
    pub alternate :
        (w : ℕ) (ws : List ℕ) (d : D)
        → Ready (w ∷ ws) d
        → (v : ℕ) × (d' : D) × (bus.inb ((c.control + 0x0C - 0x0A) % 2 ^ 16) d ≡ (v, d'))
          × Ready (w ∷ ws) d'
    pub status :
        (w : ℕ) (ws : List ℕ) (d : D)
        → Ready (w ∷ ws) d
        → (v : ℕ) × (d' : D) × (bus.inb ((c.base + 0x07) % 2 ^ 16) d ≡ (v, d'))
          × (bit_and (u8 v) 0x80 ≡ 0)
          × (poll_result (u8 v) ≡ 0)
          × Ready (w ∷ ws) d'
    pub data_word :
        (w : ℕ) (ws : List ℕ) (d : D)
        → Ready (w ∷ ws) d
        → (d' : D) × (bus.inw c.base d ≡ (w, d')) × Ready ws d'

  -- The words `ws` are at `buffer`, and nothing else has changed but the drive, which has sent them.
  pub record Got (ws rest : List ℕ) (buffer : ℕ) (s s' : Ide D) : Type 0 where
    pub here : (k : ℕ) → k < 2 * length ws → s'.memory (buffer + k) ≡ get_or (bytes_of_words ws) k 0
    pub elsewhere : (x : ℕ) → (x < buffer) ⊎ (buffer + 2 * length ws ≤ x) → s'.memory x ≡ s.memory x
    pub ready : Ready rest s'.hardware
    pub same_channels : s'.channels ≡ s.channels
    pub same_devices : s'.devices ≡ s.devices
    pub same_monitor : s'.monitor ≡ s.monitor

  pub Got-append :
      (ws vs rest : List ℕ) (buffer : ℕ) (s s' s'' : Ide D)
      → Got ws (vs ++ rest) buffer s s'
      → Got vs rest (buffer + 2 * length ws) s' s''
      → Got (ws ++ vs) rest buffer s s''
  Got-append ws vs rest buffer s s' s'' p q =
      let both : length (ws ++ vs) ≡ length ws + length vs = length-append ws vs in
      record {
        here = λ k h. elim (Bool-cases (ltb k (2 * length ws))) [
          | inl e ↦
              let before : k < 2 * length ws = ground arith in
              q.elsewhere (buffer + k) (inl (omega arith))
              ∙ p.here k before
              ∙ sym ((get_or-bytes_of_words-append ws vs k).0 before)
          | inr e ↦
              let behind : 2 * length ws ≤ k = ground arith in
              let place : buffer + k ≡ buffer + 2 * length ws + (k - 2 * length ws) = omega arith in
              ap s''.memory place
              ∙ q.here (k - 2 * length ws) (omega arith)
              ∙ sym ((get_or-bytes_of_words-append ws vs k).1 behind)
        ];
        elsewhere = λ x h. elim h [
          | inl l ↦ q.elsewhere x (inl (omega arith)) ∙ p.elsewhere x (inl l)
          | inr r ↦ q.elsewhere x (inr (omega arith)) ∙ p.elsewhere x (inr (omega arith))
        ];
        ready = q.ready;
        same_channels = q.same_channels ∙ p.same_channels;
        same_devices = q.same_devices ∙ p.same_devices;
        same_monitor = q.same_monitor ∙ p.same_monitor;
      }

  pub Got-nil :
      (rest : List ℕ) (buffer : ℕ) (s : Ide D) → Ready rest s.hardware → Got [] rest buffer s s
  Got-nil rest buffer s r = record {
    here = λ k h. absurd (omega arith);
    elsewhere = λ x h. refl;
    ready = r;
    same_channels = refl;
    same_devices = refl;
    same_monitor = refl;
  }

  -- The hardware may have changed before.
  pub Got-polled :
      (ws rest : List ℕ) (buffer : ℕ) (d : D) (s s' : Ide D)
      → Got ws rest buffer (record s { hardware = d }) s'
      → Got ws rest buffer s s'
  Got-polled ws rest buffer d s s' p = record {
    here = p.here;
    elsewhere = p.elsewhere;
    ready = p.ready;
    same_channels = p.same_channels;
    same_devices = p.same_devices;
    same_monitor = p.same_monitor;
  }

  -- The state after one word.
  abbrev with_word : ℕ → ℕ → D → Ide D → Ide D
  with_word w buffer d s = record s {
    memory = store8 (store8 s.memory buffer w) (add32 buffer 1) (w / 2 ^ 8);
    hardware = d;
  }

  with_word-bytes :
      (w buffer : ℕ) (m : Memory)
      → buffer + 2 < 2 ^ 32
      → let m' = store8 (store8 m buffer w) (add32 buffer 1) (w / 2 ^ 8) in
        (m' buffer ≡ w % 2 ^ 8)
        × (m' (buffer + 1) ≡ w / 2 ^ 8 % 2 ^ 8)
        × ((x : ℕ) → (x < buffer) ⊎ (buffer + 2 ≤ x) → m' x ≡ m x)
  with_word-bytes w buffer m fits =
      let next : add32 buffer 1 ≡ buffer + 1 = omega arith in
      rw next (
        store8-ne (store8 m buffer w) (buffer + 1) buffer (w / 2 ^ 8) (omega arith)
            ∙ store8_self m buffer w,
        store8_self (store8 m buffer w) (buffer + 1) (w / 2 ^ 8),
        λ x h.
            store8-ne (store8 m buffer w) (buffer + 1) x (w / 2 ^ 8) (grind arith)
            ∙ store8-ne m buffer x w (grind arith),
      )

  with_word-Got :
      (w : ℕ) (rest : List ℕ) (buffer : ℕ) (d : D) (s : Ide D)
      → Ready rest d
      → buffer + 2 < 2 ^ 32
      → Got (w ∷ []) rest buffer s (with_word w buffer d s)
  with_word-Got w rest buffer d s r fits =
      let (low, high, others) = with_word-bytes w buffer s.memory fits in
      let m' = (with_word w buffer d s).memory in
      record {
        here = λ k h. elim (Bool-cases (k == 0)) [
          | inl e ↦
              let zeroth : k ≡ 0 = ground arith in
              let place : buffer + 0 ≡ buffer = omega arith in rw (zeroth, place) low
          | inr e ↦ let first : k ≡ 1 = ground arith in rw first high
        ];
        elsewhere = others;
        ready = r;
        same_channels = refl;
        same_devices = refl;
        same_monitor = refl;
      }

  insw-step :
      (n buffer w : ℕ) (s : Ide D) (d : D)
      → bus.inw c.base s.hardware ≡ (w, d)
      → buffer + 2 < 2 ^ 32
      → insw bus (suc n) c.base buffer s ≡ insw bus n c.base (buffer + 2) (with_word w buffer d s)
  unfolding insw
  insw-step n buffer w s d e fits =
      let next : add32 buffer 2 ≡ buffer + 2 = omega arith in
      ap (λ (p : ℕ × D). insw bus n c.base (add32 buffer 2) (with_word (p.0) buffer (p.1) s)) e
      ∙ ap (λ b. insw bus n c.base b (with_word w buffer d s)) next

  module _ (drive : IsSending) where
    pub insw-Got :
        (ws rest : List ℕ) (buffer : ℕ) (s : Ide D)
        → Ready (ws ++ rest) s.hardware
        → buffer + 2 * length ws < 2 ^ 32
        → Got ws rest buffer s (insw bus (length ws) c.base buffer s)
    unfolding insw
    insw-Got [] rest buffer s r fits = Got-nil rest buffer s r
    insw-Got (w ∷ ws) rest buffer s r fits =
        let (d', got, r') = drive.data_word w (ws ++ rest) s.hardware r in
        let s' = with_word w buffer d' s in
        let step = insw-step (length ws) buffer w s d' got (omega arith) in
        subst (λ t. Got (w ∷ ws) rest buffer s t) (sym step)
          (Got-append (w ∷ []) ws rest buffer s s' (insw bus (length ws) c.base (buffer + 2) s')
            (with_word-Got w (ws ++ rest) buffer d' s r' (omega arith))
            (insw-Got ws rest (buffer + 2) s' r' (omega arith)))
