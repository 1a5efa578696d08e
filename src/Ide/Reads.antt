-- ===== src/Ide/Reads.antt =====
-- The transfer of sectors from a drive that is ready.
use ahk_main.Base.{
  ℕ, zero, suc, ◌+◌, ◌*◌, ◌^◌, ◌<◌, ◌≡◌, refl, sym, ap, subst, ◌∙◌, bit_and, true, List, [], ◌∷◌,
  ◌++◌, length, get_elem?, take, drop, length-take, length-drop, append-take-drop, Result, ok, read,
  some, add32, u8, arith,
}
use mathlib.Core.List.{append_assoc}
use ahk_main.Ide.{Channel, Ports, Ide}
use ahk_main.Ide.Registers.{
  register_port, poll_result, read_at, ide_read_register, delay, wait_busy, ide_polling,
}
use ahk_main.Ide.Transfer.{insw, read_loop}
use ahk_main.Ide.Words.{IsSending, Got, Got-append, Got-nil, Got-polled, insw-Got}

module _ {D : Type 0} (bus : Ports D) (c : Channel) (Ready : List ℕ → D → Type 0) where
  module _ (drive : IsSending bus c Ready) where
    module _ (channel w : ℕ) (ws : List ℕ) where
      abbrev with_hardware : D → Ide D → Ide D
      with_hardware d s = record s { hardware = d }

      read_alternate :
          (s : Ide D)
          → get_elem? s.channels channel ≡ some c
          → Ready (w ∷ ws) s.hardware
          → (v : ℕ) × (d' : D) × (ide_read_register bus channel 0x0C s ≡ ok (v, with_hardware d' s))
            × Ready (w ∷ ws) d'
      unfolding ide_read_register read_at register_port read
      read_alternate s found r =
          let (v, d', e, r') = drive.alternate w ws s.hardware r in
          (u8 v, d', rw (found, e) refl, r')

      read_status :
          (s : Ide D)
          → get_elem? s.channels channel ≡ some c
          → Ready (w ∷ ws) s.hardware
          → (v : ℕ) × (d' : D) × (ide_read_register bus channel 0x07 s ≡ ok (v, with_hardware d' s))
            × (bit_and v 0x80 ≡ 0)
            × (poll_result v ≡ 0)
            × Ready (w ∷ ws) d'
      unfolding ide_read_register read_at register_port read
      read_status s found r =
          let (v, d', e, quiet, good, r') = drive.status w ws s.hardware r in
          (u8 v, d', rw (found, e) refl, quiet, good, r')

      delay-Ready :
          (rounds : ℕ) (s : Ide D)
          → get_elem? s.channels channel ≡ some c
          → Ready (w ∷ ws) s.hardware
          → (d' : D) × (delay bus rounds channel s ≡ ok (with_hardware d' s)) × Ready (w ∷ ws) d'
      unfolding delay
      delay-Ready zero s found r = (s.hardware, refl, r)
      delay-Ready (suc rounds) s found r =
          let (v, d', e, r') = read_alternate s found r in
          let (d'', rest, r'') = delay-Ready rounds (with_hardware d' s) found r' in
          (d'', rw e rest, r'')

      -- One poll of the drive: it has data and no error, and nothing has changed but the hardware.
      ide_polling-Ready :
          (fuel : ℕ) (s : Ide D)
          → get_elem? s.channels channel ≡ some c
          → Ready (w ∷ ws) s.hardware
          → (d' : D) × (ide_polling bus (suc fuel) channel true s ≡ ok (0, with_hardware d' s))
            × Ready (w ∷ ws) d'
      unfolding ide_polling wait_busy
      ide_polling-Ready fuel s found r =
          let (d1, e1, r1) = delay-Ready 4 s found r in
          let (v2, d2, e2, quiet, _, r2) = read_status (with_hardware d1 s) found r1 in
          let (v3, d3, e3, _, good, r3) = read_status (with_hardware d2 s) found r2 in
          (d3, rw (e1, e2, quiet, e3, good) refl, r3)

    done_at_once :
        (fuel channel buffer : ℕ) (s : Ide D)
        → read_loop bus (suc fuel) 0 channel c.base buffer s ≡ ok (0, s)
    unfolding read_loop
    done_at_once fuel channel buffer s = refl

    read_loop-sector :
        (fuel sectors channel buffer behind : ℕ) (s s1 s2 : Ide D) {r : Result (ℕ × Ide D)}
        → ide_polling bus (suc fuel) channel true s ≡ ok (0, s1)
        → insw bus 256 c.base buffer s1 ≡ s2
        → behind ≡ buffer + 512
        → behind < 2 ^ 32
        → read_loop bus (suc fuel) sectors channel c.base behind s2 ≡ r
        → read_loop bus (suc fuel) (suc sectors) channel c.base buffer s ≡ r
    unfolding read_loop
    read_loop-sector fuel sectors channel buffer behind s s1 s2 polled moved place fits rest =
        let next : add32 buffer 512 ≡ behind = omega arith in rw (polled, moved, next) rest

    -- The loop of `ide_ata_access` for a read, on a drive that has the words of the sectors to send, into
    -- a buffer that does not wrap: with any fuel of at least one poll for each wait, it ends without an
    -- error, the bytes of the words are in the buffer in their order, the rest of the memory is
    -- unchanged, and the drive has sent these words and no more.
    pub read_loop-Got :
        (fuel sectors channel buffer : ℕ) (ws rest : List ℕ) (s : Ide D)
        → get_elem? s.channels channel ≡ some c
        → Ready (ws ++ rest) s.hardware
        → length ws ≡ 256 * sectors
        → buffer + 512 * sectors < 2 ^ 32
        → (s' : Ide D) × (read_loop bus (suc fuel) sectors channel c.base buffer s ≡ ok (0, s'))
          × Got bus c Ready ws rest buffer s s'
    read_loop-Got fuel zero channel buffer [] rest s found r size fits =
        (s, done_at_once fuel channel buffer s, Got-nil bus c Ready rest buffer s r)
    read_loop-Got fuel zero channel buffer (w ∷ ws) rest s found r size fits = absurd (omega arith)
    read_loop-Got fuel (suc sectors) channel buffer [] rest s found r size fits =
        absurd (omega arith)
    read_loop-Got fuel (suc sectors) channel buffer (w ∷ ws) rest s found r size fits =
        let a = take 256 (w ∷ ws) in
        let b = drop 256 (w ∷ ws) in
        let whole : a ++ b ≡ w ∷ ws = append-take-drop 256 (w ∷ ws) in
        let first : length a ≡ 256 = length-take 256 (w ∷ ws) ∙ omega arith in
        let others : length b ≡ 256 * sectors = length-drop 256 (w ∷ ws) ∙ omega arith in
        let (d, polled, r') = ide_polling-Ready channel w (ws ++ rest) fuel s found r in
        let s1 = record s { hardware = d } in
        let s2 = insw bus 256 c.base buffer s1 in
        let ready : Ready (a ++ (b ++ rest)) d =
          subst (λ l. Ready l d) (sym (ap (λ l. l ++ rest) whole) ∙ append_assoc a b rest) r' in
        let got : Got bus c Ready a (b ++ rest) buffer s1 s2 =
          subst (λ n. Got bus c Ready a (b ++ rest) buffer s1 (insw bus n c.base buffer s1)) first
            (insw-Got bus c Ready drive a (b ++ rest) buffer s1 ready (omega arith)) in
        let still : get_elem? s2.channels channel ≡ some c =
          ap (λ cs. get_elem? cs channel) got.same_channels ∙ found in
        let (s', done, more) =
          read_loop-Got fuel sectors channel (buffer + 2 * length a) b rest s2 still got.ready
            others (omega arith) in
        (
          s',
          read_loop-sector fuel sectors channel buffer (buffer + 2 * length a) s s1 s2 polled refl
              (omega arith) (omega arith) done,
          subst (λ l. Got bus c Ready l rest buffer s s') whole
              (Got-append bus c Ready a b rest buffer s s2 s'
                (Got-polled bus c Ready a (b ++ rest) buffer d s s2 got) more),
        )
