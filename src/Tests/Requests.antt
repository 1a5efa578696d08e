-- ===== src/Tests/Requests.antt =====
-- Tests of ide_read_sectors and ide_write_sectors, on a drive that follows the protocol: its disk, its
-- registers, and the words on their way.
use ahk_main.Base.{
  ℕ, ◌%◌, ◌^◌, ◌≡◌, refl, ap, List, [], ◌∷◌, ◌++◌, length, length-replicate, replicate, ◌==◌,
  if◌then◌else◌, arith,
}
use ahk_main.Ide.{Channel, Device, Ports, Ide}
use ahk_main.Ide.Drive.{
  Registers, put_select, put_count, put_low, put_mid, put_high, block_of, long_block_of,
  long_count_of, sectors_from, IsDrive,
}
use ahk_main.Ide.Sectors.{ide_read_sectors}
use ahk_main.Ide.Store.{stored, IsStore}
use ahk_main.Ide.RoundTrip.{ReadBack, ide_write_sectors-ReadBack}
use ahk_main.Ide.Delivery.{Delivered, CanRead, ide_read_sectors-Delivered}

-- It sends the words that are left, or takes words for sectors.
data Hardware : Type 0 where
  sending : (ℕ → List ℕ) → Registers → List ℕ → Hardware
  taking : (ℕ → List ℕ) → Registers → ℕ → ℕ → List ℕ → Hardware

abbrev platter : ℕ → List ℕ
platter block = replicate 256 (block % 2 ^ 16)

abbrev status_of : Hardware → ℕ
status_of (sending disk r []) = 0x50
status_of (sending disk r (w ∷ ws)) = 0x58
status_of (taking disk r block n ws) = 0x58

abbrev next_word : Hardware → ℕ × Hardware
next_word (sending disk r []) = (0, sending disk r [])
next_word (sending disk r (w ∷ ws)) = (w, sending disk r ws)
next_word (taking disk r block n ws) = (0, taking disk r block n ws)

abbrev on_word : ℕ → Hardware → Hardware
on_word w (sending disk r ws) = sending disk r ws
on_word w (taking disk r block n ws) = taking disk r block n (ws ++ (w ∷ []))

abbrev on_registers : (Registers → Registers) → Hardware → Hardware
on_registers f (sending disk r ws) = sending disk (f r) ws
on_registers f (taking disk r block n ws) = taking disk (f r) block n ws

abbrev on_command : ℕ → Hardware → Hardware
on_command cmd (sending disk r ws) =
    if cmd == 0x20
    then sending disk r (sectors_from disk (block_of r) r.count)
    else if cmd == 0x24
    then sending disk r (sectors_from disk (long_block_of r) (long_count_of r))
    else if cmd == 0x30
    then taking disk r (block_of r) r.count []
    else if cmd == 0x34
    then taking disk r (long_block_of r) (long_count_of r) []
    else sending disk r ws
on_command cmd (taking disk r block n ws) = sending (stored disk block n ws) r []

abbrev on_write : ℕ → ℕ → Hardware → Hardware
on_write port v d =
    if port == 0x1F7
    then on_command v d
    else if port == 0x1F6
    then on_registers (put_select v) d
    else if port == 0x1F5
    then on_registers (put_high v) d
    else if port == 0x1F4
    then on_registers (put_mid v) d
    else if port == 0x1F3
    then on_registers (put_low v) d
    else if port == 0x1F2
    then on_registers (put_count v) d
    else d

abbrev ports : Ports Hardware
ports = record {
  inb = λ p d. (status_of d, d);
  outb = on_write;
  inw = λ p d. next_word d;
  outw = λ p v d. on_word v d;
  inl = λ p d. (0, d);
  outl = λ p v d. d;
}

abbrev primary : Channel
primary = record { base = 0x1F0; control = 0x3F6; bm_ide = 0; no_intr = 0 }

abbrev Waiting : (ℕ → List ℕ) → Registers → Hardware → Type 0
Waiting disk r d = d ≡ sending disk r []

abbrev Sending : (ℕ → List ℕ) → List ℕ → Hardware → Type 0
Sending disk ws d = (r : Registers) × (d ≡ sending disk r ws)

abbrev Taking : (ℕ → List ℕ) → ℕ → ℕ → List ℕ → Hardware → Type 0
Taking disk block n ws d = (r : Registers) × (d ≡ taking disk r block n ws)

ports-IsDrive : (disk : ℕ → List ℕ) → IsDrive ports primary 0 disk (Waiting disk) (Sending disk)
ports-IsDrive disk = record {
  sending = record {
    alternate = λ w ws d s. (status_of d, d, refl, s);
    status = λ w ws d (r, e). (status_of d, d, refl, rw e refl, rw e refl, (r, e));
    data_word = λ w ws d (r, e). (sending disk r ws, ap next_word e, (r, refl));
  };
  status = λ r d e. (status_of d, d, refl, rw e refl, e);
  control = λ v r d e. e;
  on_select = λ v r d lt e. ap (on_registers (put_select v)) e;
  on_count = λ v r d lt e. ap (on_registers (put_count v)) e;
  on_low = λ v r d lt e. ap (on_registers (put_low v)) e;
  on_mid = λ v r d lt e. ap (on_registers (put_mid v)) e;
  on_high = λ v r d lt e. ap (on_registers (put_high v)) e;
  on_read = λ r d e sel some_count. (r, ap (on_command 0x20) e);
  on_long_read = λ r d e sel some_count. (r, ap (on_command 0x24) e);
  all_sent = λ d s. s;
}

ports-IsStore : IsStore ports primary 0 Waiting Sending Taking
ports-IsStore = record {
  reading = ports-IsDrive;
  idle_calm = λ disk r. record {
    alternate = λ d e. (status_of d, d, refl, e);
    status = λ d e. (status_of d, d, refl, rw e refl, e);
  };
  taking_calm = λ disk block n ws. record {
    alternate = λ d t. (status_of d, d, refl, t);
    status = λ d (r, e). (status_of d, d, refl, rw e refl, (r, e));
  };
  on_write = λ disk r d e sel some_count. (r, ap (on_command 0x30) e);
  on_long_write = λ disk r d e sel some_count. (r, ap (on_command 0x34) e);
  on_word = λ disk block n w ws d (r, e) lt. (r, ap (on_word w) e);
  on_flush = λ disk block n ws d (r, e) all. (r, ap (on_command 0xE7) e);
  on_long_flush = λ disk block n ws d (r, e) all. (r, ap (on_command 0xEA) e);
}

abbrev drive : Device
drive = record {
  reserved = 1;
  channel = 0;
  drive = 0;
  type_of = 0;
  signature = 0;
  features = 0x200;
  command_sets = 0;
  size = 100;
  model = [];
}

abbrev blank_registers : Registers
blank_registers = record {
  select = 0;
  count = 0;
  low = 0;
  mid = 0;
  high = 0;
  count_before = 0;
  low_before = 0;
  mid_before = 0;
  high_before = 0;
}

abbrev waiting : Ide Hardware
waiting = record {
  channels = primary ∷ [];
  devices = drive ∷ [];
  irq_invoked = 0;
  monitor = record { video_memory = λ _. 0; cursor_x = 0; cursor_y = 0; sent = [] };
  memory = λ _. 0;
  hardware = sending platter blank_registers [];
}

two_sectors-CanRead : CanRead drive primary 0 2 3 4096 waiting
two_sectors-CanRead = record {
  six = omega arith;
  there = refl;
  found = refl;
  present = λ e. omega arith;
  ata = refl;
  one = omega arith;
  inside = omega arith;
  size = omega arith;
  chs = λ e. omega arith;
  some_sectors = λ e. omega arith;
  few = omega arith;
  room = omega arith;
}

platter-whole : (j : ℕ) → length (platter j) ≡ 256
platter-whole j = length-replicate 256 (j % 2 ^ 16)

ide_read_sectors-Delivered_example :
    Delivered primary 0
      (sectors_from platter 3 2)
      (Waiting platter)
      4096
      waiting
      (ide_read_sectors ports 1 0 2 3 4096 waiting)
ide_read_sectors-Delivered_example =
    ide_read_sectors-Delivered ports drive primary platter (Waiting platter) (Sending platter)
      (ports-IsDrive platter) platter-whole 0 0 2 3 4096 blank_registers waiting two_sectors-CanRead
      refl

ide_write_sectors-ReadBack_example : ReadBack 1 0 2 3 4096 8192 ports platter Waiting waiting
ide_write_sectors-ReadBack_example =
    ide_write_sectors-ReadBack ports drive primary Waiting Sending Taking ports-IsStore platter
      platter-whole 0 0 2 3 4096 8192 blank_registers waiting two_sectors-CanRead (omega arith)
      (λ x. omega arith) refl
