-- ===== src/Ide/Named.antt =====
-- The registers that select fills in name the block that is asked for.
use ahk_main.Base.{
  ℕ, ◌*◌, ◌/◌, ◌%◌, ◌^◌, ◌<◌, ◌≡◌, bit_and, inl, inr, Bool-cases, true, false, leb, ◌==◌, arith,
}
use ahk_main.Ide.Address.{BlockAddress, block_address}
use ahk_main.Ide.Drive.{Registers, put_select, block_of, long_block_of}
use ahk_main.Ide.Select.{Fits, select_value, put_address, put_long}

-- What the registers name is the block that was asked for.
pub record Named (b : BlockAddress) (lba num slave : ℕ) (r : Registers) : Type 0 where
  pub fits : Fits b
  pub selected : select_value b slave / 2 ^ 4 % 2 ≡ slave
  pub named :
      (b.lba_mode == 2) ≡ false
      → block_of (put_address b num (put_select (select_value b slave) r)) ≡ lba
  pub long_named :
      (b.lba_mode == 2) ≡ true
      → long_block_of (put_address b num (put_long b (put_select (select_value b slave) r))) ≡ lba

pub block_address-Named :
    (features lba num slave : ℕ) (r : Registers)
    → lba < 2 ^ 32
    → (bit_and features 0x200 ≡ 0 → lba < 65536 * 16 * 63)
    → slave < 2
    → Named (block_address features lba) lba num slave r
unfolding block_address
block_address-Named features lba num slave r h chs one = elim (Bool-cases (leb 0x10000000 lba)) [
  | inl e ↦ rw e (record {
    fits = record {
      io0 = omega arith;
      io1 = omega arith;
      io2 = omega arith;
      io3 = omega arith;
      head = omega arith;
    };
    selected = omega arith;
    named = λ n. absurd (ground arith);
    long_named = λ n. omega arith;
  })
  | inr e ↦ elim (Bool-cases (bit_and features 0x200 == 0)) [
    | inl z ↦
        let small = chs (ground arith) in
        rw (e, z)
          (record {
            fits = record {
              io0 = omega arith;
              io1 = omega arith;
              io2 = omega arith;
              io3 = omega arith;
              head = omega arith;
            };
            selected = omega arith;
            named = λ n. ground arith;
            long_named = λ n. absurd (ground arith);
          })
    | inr z ↦
        let small : lba < 0x10000000 = ground arith in
        rw (e, z)
          (record {
            fits = record {
              io0 = omega arith;
              io1 = omega arith;
              io2 = omega arith;
              io3 = omega arith;
              head = omega arith;
            };
            selected = omega arith;
            named = λ n. ground arith;
            long_named = λ n. absurd (ground arith);
          })
  ]
]
