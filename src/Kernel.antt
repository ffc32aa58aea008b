-- ===== src/Kernel.antt =====
-- What the driver calls in the Linux kernel and what it shares with the device: none of it is code
-- of this repository, so it is a parameter of the model.
use upciedev.Prelude.{ℕ, Bool, Option, ℤ, negsuc}

-- `World` is the state of the device and of the user's memory.
-- `ioread bits address` and `iowrite bits address value` stand for ioread8/16/32 and iowrite8/16/32.
-- `copy_to_user address bytes value` says whether it failed; `copy_from_user address bytes` is
-- `none` if it failed.
pub record Kernel : Type 1 where
  pub World : Type 0
  pub ioread : ℕ → ℕ → World → ℕ × World
  pub iowrite : ℕ → ℕ → ℕ → World → World
  pub copy_to_user : ℕ → ℕ → ℕ → World → Bool × World
  pub copy_from_user : ℕ → ℕ → World → Option ℕ

-- The end of a C function: it returns, or it has left the array that it indexes.
pub data Outcome (W : Type 0) : Type 0 where
  returned : ℤ → W → Outcome W
  undefined : Outcome W

-- The negative error codes.
abbrev pub eio : ℤ
eio = negsuc 4

abbrev pub enomem : ℤ
enomem = negsuc 11

abbrev pub efault : ℤ
efault = negsuc 13

abbrev pub enodev : ℤ
enodev = negsuc 18
