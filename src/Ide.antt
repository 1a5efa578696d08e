-- ===== src/Ide.antt =====
-- ide.h and ide.c: the IDE controller. The ports of the machine are a parameter.
pub mod Messages
pub mod Constants
pub mod Registers
pub mod Address
pub mod Transfer
pub mod Sectors
pub mod Buffers
pub mod Identify
pub mod Init
pub mod Names
pub mod Words
pub mod Reads
pub mod Drive
pub mod Command
pub mod Select
pub mod Named
pub mod Requests
pub mod Delivery
pub mod Store
pub mod Writes
pub mod Flush
pub mod Stored
pub mod RoundTrip
pub mod Laws
use ahk_main.Base.{ℕ, List}
use ahk_main.Memory.{Memory}
use ahk_main.Monitor.{Monitor}

-- `IDE_CHANNELS`
pub record Channel : Type 0 where
  pub base : ℕ
  pub control : ℕ
  pub bm_ide : ℕ
  pub no_intr : ℕ

-- `IDE_DEVICE`; the name of the model ends with its null.
pub record Device : Type 0 where
  pub reserved : ℕ
  pub channel : ℕ
  pub drive : ℕ
  pub type_of : ℕ
  pub signature : ℕ
  pub features : ℕ
  pub command_sets : ℕ
  pub size : ℕ
  pub model : List ℕ

-- The instructions `in` and `out`, on bytes and on words of 16 and 32 bits, over the state of the hardware.
pub record Ports (D : Type 0) : Type 0 where
  pub inb : ℕ → D → ℕ × D
  pub outb : ℕ → ℕ → D → D
  pub inw : ℕ → D → ℕ × D
  pub outw : ℕ → ℕ → D → D
  pub inl : ℕ → D → ℕ × D
  pub outl : ℕ → ℕ → D → D

-- The global variables of ide.c, and what the driver acts on.
pub record Ide (D : Type 0) : Type 0 where
  pub channels : List Channel
  pub devices : List Device
  pub irq_invoked : ℕ
  pub monitor : Monitor
  pub memory : Memory
  pub hardware : D
