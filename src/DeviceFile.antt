-- ===== src/DeviceFile.antt =====
-- Reading and writing the device file (pciedev_rw_exp.c).
pub mod Position
pub mod Lock
pub mod Ioctl
pub mod Vector
pub mod Settings
use upciedev.Prelude.{
  ℕ, ◌+◌, ◌/◌, ◌%◌, ◌^◌, bit_and, Bool, true, false, not, Option, none, some, ℤ, pos, ◌==◌,
  if◌then◌else◌,
}
use upciedev.Registers.{mtca_simple_read, mtca_simple_write, correct_register_size}
use upciedev.Kernel.{Kernel, Outcome, returned, undefined, eio, efault, enodev}
use upciedev.Device.{PciedevDev}
use upciedev.Access.{pciedev_read_inline, pciedev_write_inline}

-- The position at which a request stands in the buffer, as a record `device_rw`.
abbrev pub pcied_fpos : ℕ
pcied_fpos = 7

-- The fields of a position that names a register.
abbrev pub prw_reg_size_mask : ℕ
prw_reg_size_mask = 0xf000000000000000

abbrev pub prw_bar_mask : ℕ
prw_bar_mask = 0x0f00000000000000

abbrev pub prw_offset_mask : ℕ
prw_offset_mask = 0x00ffffffffffffff

unfoldable pub prw_reg_size : ℕ → ℕ
prw_reg_size position = bit_and position prw_reg_size_mask / 2 ^ 60

unfoldable pub prw_bar : ℕ → ℕ
prw_bar position = bit_and position prw_bar_mask / 2 ^ 56

unfoldable pub prw_offset : ℕ → ℕ
prw_offset position = bit_and position prw_offset_mask % 2 ^ 32

-- `sizeof(device_rw)`, and its fields at the bytes 0, 4, 8 and 12, in little-endian order.
abbrev pub sizeof_device_rw : ℕ
sizeof_device_rw = 24

abbrev pub device_rw_field : ℕ → ℕ → ℕ
device_rw_field at_bit reading = reading / 2 ^ at_bit % 2 ^ 32

-- What the inline functions are called with.
pub record Request : Type 0 where
  pub reg_size : ℕ
  pub bar : ℕ
  pub offset : ℕ
  pub user_buf : ℕ
  pub count : ℕ

-- How a system call ends: it returns, with the mutex held or free, or it waits for a mutex that
-- nobody gives back, or it has left an array.
pub data FileRun (W : Type 0) : Type 0 where
  completed : ℤ → Bool → W → FileRun W
  blocked : FileRun W
  out_of_array : FileRun W

-- The end of both functions: the mutex is given back, and the result is the size of the record,
-- whatever the inline function returned.
abbrev pub finish : {W : Type 0} → Outcome W → FileRun W
finish (returned r w) = completed (pos sizeof_device_rw) false w
finish undefined = out_of_array

module _ (k : Kernel) (dev : PciedevDev) where
  open k use {World, copy_from_user}

  -- The request of both functions. `position` is `*f_pos` and `f_pos` the pointer itself, which is
  -- what the fields are taken from.
  unfoldable pub decode_request : ℕ → ℕ → ℕ → ℕ → World → Option Request
  unfolding prw_reg_size prw_bar prw_offset correct_register_size
  decode_request position f_pos buf count w =
      if not (position == pcied_fpos)
      then some (record {
        reg_size = correct_register_size (prw_reg_size f_pos) dev.register_size;
        bar = prw_bar f_pos;
        offset = prw_offset f_pos;
        user_buf = buf;
        count = count;
      })
      else elim (copy_from_user buf sizeof_device_rw w) [
        | none ↦ none
        | some reading ↦ some (record {
          reg_size = correct_register_size (device_rw_field 64 reading) dev.register_size;
          bar = device_rw_field 96 reading;
          offset = device_rw_field 0 reading;
          user_buf = buf + 4;
          count = 1;
        })
      ]

  -- `held` is whether the mutex `dev_mut` is held. A record that cannot be copied is an error that
  -- leaves the mutex held.
  unfoldable pub pciedev_read_exp : (ℕ → ℕ) → Bool → ℕ → ℕ → ℕ → ℕ → World → FileRun World
  unfolding decode_request
  pciedev_read_exp junk held position f_pos buf count w =
      if not dev.dev_sts
      then completed enodev held w
      else if held
      then blocked
      else elim (decode_request position f_pos buf count w) [
        | none ↦ completed eio true w
        | some q ↦ finish (
            pciedev_read_inline k dev junk q.reg_size mtca_simple_read q.bar q.offset q.user_buf
              q.count w)
      ]

  unfoldable pub pciedev_write_exp : ℕ → Bool → ℕ → ℕ → ℕ → ℕ → World → FileRun World
  unfolding decode_request
  pciedev_write_exp junk held position f_pos buf count w =
      if not dev.dev_sts
      then completed efault held w
      else if held
      then blocked
      else elim (decode_request position f_pos buf count w) [
        | none ↦ completed efault true w
        | some q ↦ finish (
            pciedev_write_inline k dev junk q.reg_size mtca_simple_write q.bar q.offset q.user_buf 0
              q.count w)
      ]

-- The new position of the file, and the result.
unfoldable pub pciedev_llseek : PciedevDev → ℕ × ℤ
pciedev_llseek dev = (pcied_fpos, if not dev.dev_sts then efault else pos pcied_fpos)
