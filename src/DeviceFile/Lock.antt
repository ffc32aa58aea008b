-- ===== src/DeviceFile/Lock.antt =====
-- The mutex and the array bounds of the device file's functions (pciedev_rw_exp.c).
use upciedev.Prelude.{
  ℕ, ◌+◌, ◌^◌, ◌≤◌, ◌<◌, true, false, not, Option, none, some, ℤ, pos, ◌==◌, ◌≡◌, ◌≢◌, refl, ap,
  arith, if-both, get_elem?-in_range,
}
use upciedev.Registers.{mtca_simple_read, mtca_simple_write, correct_register_size}
use upciedev.Kernel.{Kernel, Outcome, returned, undefined, eio, efault}
use upciedev.Device.{PciedevDev, IsDevice, number_of_bars}
use upciedev.Access.{}
use upciedev.Access.Rounds.{Returns, Keeps, KeepsAccess}
use upciedev.Access.Reading.{read_inline-stays_in_bar}
use upciedev.Access.Writing.{write_inline-stays_in_bar}
use upciedev.Access.Faults.{unknown_bar_undefined}
use upciedev.DeviceFile.{
  pcied_fpos, prw_reg_size, prw_bar, prw_offset, Request, completed, blocked, out_of_array, finish,
  decode_request, pciedev_read_exp, pciedev_write_exp, device_rw_field, sizeof_device_rw,
}
use upciedev.DeviceFile.Position.{prw_bar_lem}

pub correct_register_size-known : (m d : ℕ) → d < 3 → correct_register_size m d < 3
unfolding correct_register_size
correct_register_size-known m d h = ground arith

-- A function that returns is finished with the mutex free.
finish-Returns :
    {W : Type 0} (Q : ℤ → W → Type 0) (o : Outcome W)
    → Returns Q o
    → (w : W) × (finish o ≡ completed (pos 24) false w)
finish-Returns Q (returned r w) h = (w, refl)
finish-Returns Q undefined h = absurd h

module _ (k : Kernel) (dev : PciedevDev) where
  open k use {World}

  -- Nothing is asked of the world.
  pub anywhere : (reg_size lo hi : ℕ) → Keeps k dev reg_size lo hi (λ w. Unit)
  anywhere reg_size lo hi = record {
    reads = λ a w p q h. tt;
    writes = λ a v w p q h. tt;
    scratch = λ base w e h. tt;
    delivers = λ a n v w h. tt;
  }

  pub unasked : (reg_size lo hi : ℕ) → KeepsAccess k reg_size lo hi (λ w. Unit)
  unasked reg_size lo hi = record { reads = λ a w p q h. tt; writes = λ a v w p q h. tt }

  abbrev KnownSize : Option Request → Type 0
  KnownSize none = Unit
  KnownSize (some q) = q.reg_size < 3

  decode_request-KnownSize :
      (position f_pos buf count : ℕ) (w : World)
      → dev.register_size < 3
      → KnownSize (decode_request k dev position f_pos buf count w)
  unfolding decode_request
  decode_request-KnownSize position f_pos buf count w h =
      if-both KnownSize (not (position == pcied_fpos))
        (correct_register_size-known (prw_reg_size f_pos) dev.register_size h)
        (copied (k.copy_from_user buf sizeof_device_rw w))
    where
      copied :
          (o : Option ℕ)
          → KnownSize (elim o as (λ _. Option Request) [
            | none ↦ none
            | some reading ↦ some (record {
              reg_size = correct_register_size (device_rw_field 64 reading) dev.register_size;
              bar = device_rw_field 96 reading;
              offset = device_rw_field 0 reading;
              user_buf = buf + 4;
              count = 1;
            })
          ])
      copied none = tt
      copied (some reading) =
          correct_register_size-known (device_rw_field 64 reading) dev.register_size h

  -- A read of a present device, with the mutex free and a request that is at hand, always ends with
  -- the size of the record as the result and gives the mutex back; the BAR of the request and the
  -- scratch BAR must be numbers below 6.
  pub read_exp_gives_back :
      (junk : ℕ → ℕ) (position f_pos buf count : ℕ) (w : World) (q : Request)
      → IsDevice dev
      → dev.scratch_bar < number_of_bars
      → dev.dev_sts ≡ true
      → decode_request k dev position f_pos buf count w ≡ some q
      → q.bar < number_of_bars
      → (w' : World) × (pciedev_read_exp k dev junk false position f_pos buf count w
          ≡ completed (pos sizeof_device_rw) false w')
  unfolding pciedev_read_exp
  read_exp_gives_back junk position f_pos buf count w q device scratch present e inside =
      let known : q.reg_size < 3 =
        rw e at (decode_request-KnownSize position f_pos buf count w device.known_size) in
      let (base, eb) = get_elem?-in_range dev.memmory_base q.bar (rw device.mapped inside) in
      let (start, es) = get_elem?-in_range dev.mem_base q.bar (rw device.starts inside) in
      let (last, el) = get_elem?-in_range dev.mem_base_end q.bar (rw device.ends inside) in
      rw (present, e)
        (finish-Returns _ _ (
          read_inline-stays_in_bar k dev junk q.reg_size mtca_simple_read q.bar q.offset q.user_buf
            q.count base start last w (λ w. Unit) device known scratch eb es el
            (anywhere q.reg_size _ _) tt))

  -- A write to a present device, with the mutex free and a request that is at hand whose BAR is a
  -- number below 6, always ends with the size of the record as the result and gives the mutex back.
  pub write_exp_gives_back :
      (junk position f_pos buf count : ℕ) (w : World) (q : Request)
      → IsDevice dev
      → dev.dev_sts ≡ true
      → decode_request k dev position f_pos buf count w ≡ some q
      → q.bar < number_of_bars
      → (w' : World) × (pciedev_write_exp k dev junk false position f_pos buf count w
          ≡ completed (pos sizeof_device_rw) false w')
  unfolding pciedev_write_exp
  write_exp_gives_back junk position f_pos buf count w q device present e inside =
      let known : q.reg_size < 3 =
        rw e at (decode_request-KnownSize position f_pos buf count w device.known_size) in
      let (base, eb) = get_elem?-in_range dev.memmory_base q.bar (rw device.mapped inside) in
      let (start, es) = get_elem?-in_range dev.mem_base q.bar (rw device.starts inside) in
      let (last, el) = get_elem?-in_range dev.mem_base_end q.bar (rw device.ends inside) in
      rw (present, e)
        (finish-Returns _ _ (
          write_inline-stays_in_bar k dev junk q.reg_size mtca_simple_write q.bar q.offset
            q.user_buf 0 q.count base start last w (λ w. Unit) device known eb es el
            (unasked q.reg_size _ _) tt))

  -- A record that cannot be copied from the user ends both functions with an error and the mutex
  -- held: any read or write of a present device that follows waits forever.
  bad_record_blocks :
      (junk junk' : ℕ → ℕ) (f_pos buf count position' f_pos' buf' count' : ℕ) (w w' : World)
      → dev.dev_sts ≡ true
      → k.copy_from_user buf sizeof_device_rw w ≡ none
      → (pciedev_read_exp k dev junk false pcied_fpos f_pos buf count w ≡ completed eio true w)
        × (pciedev_write_exp k dev (junk 0) false pcied_fpos f_pos buf count w
            ≡ completed efault true w)
        × (pciedev_read_exp k dev junk' true position' f_pos' buf' count' w' ≡ blocked)
        × (pciedev_write_exp k dev (junk' 0) true position' f_pos' buf' count' w' ≡ blocked)
  unfolding pciedev_read_exp pciedev_write_exp decode_request
  bad_record_blocks junk junk' f_pos buf count position' f_pos' buf' count' w w' present e =
      (rw (present, e), rw (present, e), rw present, rw present)

  -- A read at a position takes the BAR from the address of the position in the kernel's memory: with
  -- an address in the upper 2 ^ 56 bytes, where a kernel on a 64-bit machine has its data, a read of
  -- a present device leaves the array of BARs, whatever the position is.
  pread_leaves_array :
      (junk : ℕ → ℕ) (position f_pos buf count : ℕ) (w : World)
      → IsDevice dev
      → dev.dev_sts ≡ true
      → position ≢ pcied_fpos
      → 0xff00000000000000 ≤ f_pos
      → f_pos < 2 ^ 64
      → pciedev_read_exp k dev junk false position f_pos buf count w ≡ out_of_array
  unfolding pciedev_read_exp decode_request
  pread_leaves_array junk position f_pos buf count w device present other high low =
      let away : (position == pcied_fpos) ≡ false = ground arith in
      let bar : prw_bar f_pos ≡ 15 = omega (arith, prw_bar_lem f_pos) in
      let gone =
        unknown_bar_undefined k dev junk
          (correct_register_size (prw_reg_size f_pos) dev.register_size) mtca_simple_read
          (prw_bar f_pos) (prw_offset f_pos) buf 0 count w
          (λ h. omega (arith, bar, device.mapped)) in
      rw (present, away) (ap (λ (o : Outcome World). finish o) gone.0)
