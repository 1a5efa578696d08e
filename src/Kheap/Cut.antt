-- ===== src/Kheap/Cut.antt =====
-- A block that is cut from a hole, in the memory: the new block, and the hole that is left behind it.
use ahk_main.Base.{
  ℕ, ◌+◌, ◌-◌, ◌^◌, ◌≤◌, ◌<◌, ◌≡◌, ◌∙◌, true, ◌⊎◌, inl, ltb, lt→ltb, add32, sub32, arith,
}
use ahk_main.Memory.{Memory}
use ahk_main.Memory.Laws.{Agree, load32-Agree}
use ahk_main.Kheap.Layout.{set_header, set_footer}
use ahk_main.Kheap.Fields.{
  magic-set_header, is_hole-set_header, size-set_header, set_header-ne, magic-set_footer,
  header-set_footer, set_footer-ne,
}
use ahk_main.Kheap.Blocks.{Block, flag, IsBlock, HasFooter}
use ahk_main.Kheap.Holes.{write_block, write_rest}

-- The footer that is written for a block, in use or not, leads back to its header.
pub write-HasFooter :
    (m : Memory) (a : ℕ) (b : Block)
    → a + b.size < 2 ^ 32
    → HasFooter (set_footer (a + b.size - 8) a (set_header a (flag b.is_hole) b.size m)) a b.size
write-HasFooter m a b fits =
    let headed = set_header a (flag b.is_hole) b.size m in
    record {
      magic = magic-set_footer headed (a + b.size - 8) a;
      header = omega (arith, header-set_footer headed (a + b.size - 8) a);
    }

-- A header and the footer that belongs to it make a block.
pub write-IsBlock :
    (m : Memory) (a : ℕ) (b : Block)
    → 20 ≤ b.size
    → a + b.size < 2 ^ 32
    → IsBlock (set_footer (a + b.size - 8) a (set_header a (flag b.is_hole) b.size m)) a b
write-IsBlock m a b room fits =
    let headed = set_header a (flag b.is_hole) b.size m in
    let full = set_footer (a + b.size - 8) a headed in
    let kept : Agree a (a + 12) headed full =
      λ x p q. set_footer-ne headed (a + b.size - 8) a x (inl (omega arith)) in
    record {
      room = room;
      magic =
          load32-Agree a kept (omega arith) (omega arith)
          ∙ magic-set_header m a (flag b.is_hole) b.size;
      kind =
          kept (a + 4) (omega arith) (omega arith)
          ∙ ground (arith, is_hole-set_header m a (flag b.is_hole) b.size);
      size =
          load32-Agree (a + 8) kept (omega arith) (omega arith)
          ∙ omega (arith, size-set_header m a (flag b.is_hole) b.size);
      footer = λ _. write-HasFooter m a b fits;
    }

pub write-ne :
    (m : Memory) (a : ℕ) (b : Block) (x : ℕ)
    → 20 ≤ b.size
    → (x < a) ⊎ (a + b.size ≤ x)
    → set_footer (a + b.size - 8) a (set_header a (flag b.is_hole) b.size m) x ≡ m x
write-ne m a b x room out =
    set_footer-ne (set_header a (flag b.is_hole) b.size m) (a + b.size - 8) a x (omega arith)
    ∙ set_header-ne m a (flag b.is_hole) b.size x (omega arith)

-- `write_block` and `write_rest` are such writes, where no address wraps.
pub write_block-eq :
    (m : Memory) (a n : ℕ)
    → 20 ≤ n
    → a + n < 2 ^ 32
    → write_block a (n - 20) n m ≡ set_footer (a + n - 8) a (set_header a 0 n m)
unfolding write_block
write_block-eq m a n room fits =
    let e : add32 (add32 a 12) (n - 20) ≡ a + n - 8 = omega arith in rw e

pub write_rest-eq :
    (m : Memory) (a n end : ℕ)
    → 20 ≤ n
    → a + n ≤ end
    → end < 2 ^ 32
    → write_rest a n end m ≡ set_footer (a + n - 8) a (set_header a 1 n m)
unfolding write_rest
write_rest-eq m a n end room inside fits =
    let e : sub32 (add32 a n) 8 ≡ a + n - 8 = omega arith in
    let t : ltb (a + n - 8) end ≡ true = lt→ltb (a + n - 8) end (omega arith) in rw (e, t)
