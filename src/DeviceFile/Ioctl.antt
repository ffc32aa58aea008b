-- ===== src/DeviceFile/Ioctl.antt =====
-- The ioctl commands that access registers one request at a time: PCIEDEV_SET_BITS,
-- PCIEDEV_SWAP_BITS, PCIEDEV_LOCKED_READ and PCIEDEV_SINGLE_IOC_ACCESS (pciedev_ioctl_exp.c).
use upciedev.Prelude.{
  ℕ, ◌*◌, ◌/◌, ◌%◌, ◌^◌, ◌≤◌, ◌<◌, Bool, true, false, Option, none, some, ℤ, ltb, ◌==◌,
  if◌then◌else◌, ◌≡◌, ◌≢◌, refl, arith, ◌⊎◌, inl, inr, get_elem?-in_range,
}
use upciedev.Registers.{
  mtca_locked_read, mtca_simple_write, mtca_set_bits, mtca_swap_bits, correct_register_size,
  get_register_size_in_bytes,
}
use upciedev.Kernel.{Kernel, Outcome, returned, undefined, efault}
use upciedev.Device.{PciedevDev, IsDevice, number_of_bars}
use upciedev.Access.{pciedev_read_inline, pciedev_write_inline}
use upciedev.Access.Rounds.{Returns, CountTo, Never}
use upciedev.Access.Writing.{write_inline-stays_in_bar}
use upciedev.DeviceFile.{FileRun, completed, blocked, out_of_array}
use upciedev.DeviceFile.Lock.{correct_register_size-known, unasked}

-- `device_ioc_rw`, of 32 bytes: two fields of 16 bits, three of 32 and two of 64, little-endian.
abbrev pub sizeof_device_ioc_rw : ℕ
sizeof_device_ioc_rw = 32

abbrev pub ioc_field : ℕ → ℕ → ℕ → ℕ
ioc_field at_bit bits reading = reading / 2 ^ at_bit % 2 ^ bits

pub record DeviceIocRw : Type 0 where
  pub register_size : ℕ
  pub rw_access_mode : ℕ
  pub barx_rw : ℕ
  pub offset_rw : ℕ
  pub count_rw : ℕ
  pub data_ptr : ℕ
  pub mask_ptr : ℕ

-- The end of a command: the mutex is left as `held` says, and the result is that of the access.
abbrev pub leave : {W : Type 0} → Bool → Outcome W → FileRun W
leave held (returned r w) = completed r held w
leave held undefined = out_of_array

module _ (k : Kernel) (dev : PciedevDev) where
  open k use {World, copy_from_user}

  -- The request at the address `arg`, with its register size corrected.
  unfoldable pub copy_request : ℕ → World → Option DeviceIocRw
  unfolding correct_register_size
  copy_request arg w = elim (copy_from_user arg sizeof_device_ioc_rw w) [
    | none ↦ none
    | some reading ↦ some (record {
      register_size = correct_register_size (ioc_field 0 16 reading) dev.register_size;
      rw_access_mode = ioc_field 16 16 reading;
      barx_rw = ioc_field 32 32 reading;
      offset_rw = ioc_field 64 32 reading;
      count_rw = ioc_field 96 32 reading;
      data_ptr = ioc_field 128 64 reading;
      mask_ptr = ioc_field 192 64 reading;
    })
  ]

  -- PCIEDEV_SET_BITS, and PCIEDEV_SWAP_BITS, which has no data.
  unfoldable pub ioctl_set_bits : ℕ → Bool → ℕ → World → FileRun World
  unfolding copy_request
  ioctl_set_bits junk held arg w = if held then blocked else elim (copy_request arg w) [
    | none ↦ completed efault false w
    | some q ↦ leave false (
        pciedev_write_inline k dev junk q.register_size mtca_set_bits q.barx_rw q.offset_rw
          q.data_ptr q.mask_ptr q.count_rw w)
  ]

  unfoldable pub ioctl_swap_bits : ℕ → Bool → ℕ → World → FileRun World
  unfolding copy_request
  ioctl_swap_bits junk held arg w = if held then blocked else elim (copy_request arg w) [
    | none ↦ completed efault false w
    | some q ↦ leave false (
        pciedev_write_inline k dev junk q.register_size mtca_swap_bits q.barx_rw q.offset_rw 0
          q.mask_ptr q.count_rw w)
  ]

  -- PCIEDEV_LOCKED_READ copies the request before it takes the mutex.
  unfoldable pub ioctl_locked_read : (ℕ → ℕ) → Bool → ℕ → World → FileRun World
  unfolding copy_request
  ioctl_locked_read junk held arg w = elim (copy_request arg w) [
    | none ↦ completed efault held w
    | some q ↦
        if held
        then blocked
        else leave false (
            pciedev_read_inline k dev junk q.register_size mtca_locked_read q.barx_rw q.offset_rw
              q.data_ptr q.count_rw w)
  ]

  -- EnterCritRegion on the mutex, which is `held` or not, and what follows it with the mutex taken.
  abbrev pub enter_crit_region : Bool → (Bool → FileRun World) → FileRun World
  enter_crit_region held rest = if held then blocked else rest true

  -- PCIEDEV_SINGLE_IOC_ACCESS takes the mutex, and takes it again for a locked read and for every
  -- write, which waits for itself; the first one is given back only where the copy failed.
  unfoldable pub ioctl_single_access : (ℕ → ℕ) → ℕ → Bool → ℕ → World → FileRun World
  unfolding copy_request
  ioctl_single_access junk junk_write held arg w = enter_crit_region held λ entered.
      elim (copy_request arg w) [
        | none ↦ completed efault false w
        | some q ↦
            let read =
              pciedev_read_inline k dev junk q.register_size q.rw_access_mode q.barx_rw q.offset_rw
                q.data_ptr q.count_rw w in
            if ltb q.rw_access_mode mtca_simple_write
            then (if q.rw_access_mode == mtca_locked_read
                then enter_crit_region entered (λ again. leave false read)
                else leave entered read)
            else enter_crit_region entered λ again. leave false (
                pciedev_write_inline k dev junk_write q.register_size q.rw_access_mode q.barx_rw
                  q.offset_rw q.data_ptr q.mask_ptr q.count_rw w)
      ]

  abbrev pub KnownSize : Option DeviceIocRw → Type 0
  KnownSize none = Unit
  KnownSize (some q) = q.register_size < 3

  pub copy_request-KnownSize :
      (arg : ℕ) (w : World) → dev.register_size < 3 → KnownSize (copy_request arg w)
  unfolding copy_request
  copy_request-KnownSize arg w h = copied (k.copy_from_user arg sizeof_device_ioc_rw w)
    where
      copied :
          (o : Option ℕ)
          → KnownSize (elim o as (λ _. Option DeviceIocRw) [
            | none ↦ none
            | some reading ↦ some (record {
              register_size = correct_register_size (ioc_field 0 16 reading) dev.register_size;
              rw_access_mode = ioc_field 16 16 reading;
              barx_rw = ioc_field 32 32 reading;
              offset_rw = ioc_field 64 32 reading;
              count_rw = ioc_field 96 32 reading;
              data_ptr = ioc_field 128 64 reading;
              mask_ptr = ioc_field 192 64 reading;
            })
          ])
      copied none = tt
      copied (some reading) =
          correct_register_size-known (ioc_field 0 16 reading) dev.register_size h

  -- A command that has ended with the mutex free, and with a bad request's error or a count of
  -- bytes up to that of the request.
  abbrev pub GivenBack : DeviceIocRw → FileRun World → Type 0
  GivenBack q run =
      (r : ℤ) × (w' : World) × (run ≡ completed r false w')
      × ((r ≡ efault)
          ⊎ CountTo Never
              (q.count_rw * get_register_size_in_bytes q.register_size dev.register_size) r)

  leave-GivenBack :
      (q : DeviceIocRw) (rest : ℕ) (o : Outcome World)
      → Returns
          (λ r w'.
            Unit
            × ((r ≡ efault)
                ⊎ (CountTo Never
                      (q.count_rw * get_register_size_in_bytes q.register_size dev.register_size)
                      r
                    × CountTo Never rest r)))
          o
      → GivenBack q (leave false o)
  leave-GivenBack q rest undefined h = absurd h
  leave-GivenBack q rest (returned r w') (u, inl e) = (r, w', refl, inl e)
  leave-GivenBack q rest (returned r w') (u, inr c) = (r, w', refl, inr c.0)

  -- A bitwise write of a request whose BAR is a number below 6.
  write_gives_back :
      (junk mode user_data : ℕ) (w : World) (q : DeviceIocRw)
      → IsDevice dev
      → q.register_size < 3
      → q.barx_rw < number_of_bars
      → GivenBack q (
          leave false (
            pciedev_write_inline k dev junk q.register_size mode q.barx_rw q.offset_rw user_data
              q.mask_ptr q.count_rw w))
  write_gives_back junk mode user_data w q device known inside =
      let (base, eb) = get_elem?-in_range dev.memmory_base q.barx_rw (rw device.mapped inside) in
      let (start, es) = get_elem?-in_range dev.mem_base q.barx_rw (rw device.starts inside) in
      let (last, el) = get_elem?-in_range dev.mem_base_end q.barx_rw (rw device.ends inside) in
      leave-GivenBack q _ _ (
        write_inline-stays_in_bar k dev junk q.register_size mode q.barx_rw q.offset_rw user_data
          q.mask_ptr q.count_rw base start last w (λ w. Unit) device known eb es el
          (unasked k dev q.register_size _ _) tt)

  -- Setting and swapping bits, with the mutex free and a request whose BAR is a number below 6,
  -- end with the mutex free again, and with a bad request's error or a count of bytes up to that
  -- of the request.
  ioctl_bits_give_back :
      (junk arg : ℕ) (w : World) (q : DeviceIocRw)
      → IsDevice dev
      → copy_request arg w ≡ some q
      → q.barx_rw < number_of_bars
      → GivenBack q (ioctl_set_bits junk false arg w)
        × GivenBack q (ioctl_swap_bits junk false arg w)
  unfolding ioctl_set_bits ioctl_swap_bits
  ioctl_bits_give_back junk arg w q device e inside =
      let known : q.register_size < 3 = rw e at (copy_request-KnownSize arg w device.known_size) in
      (
        rw (e, ioctl_set_bits)
            (write_gives_back junk mtca_set_bits q.data_ptr w q device known inside),
        rw (e, ioctl_swap_bits) (write_gives_back junk mtca_swap_bits 0 w q device known inside),
      )

  -- A single access with the mutex free waits for itself if it is a locked read or a write; any
  -- other read that returns leaves the mutex held.
  pub single_access_keeps_mutex :
      (junk : ℕ → ℕ) (junk_write arg : ℕ) (w : World) (q : DeviceIocRw)
      → copy_request arg w ≡ some q
      → ((q.rw_access_mode ≡ 1) ⊎ (5 ≤ q.rw_access_mode)
          → ioctl_single_access junk junk_write false arg w ≡ blocked)
        × ((r : ℤ) (w' : World)
            → q.rw_access_mode < 5
            → q.rw_access_mode ≢ 1
            → pciedev_read_inline k dev junk q.register_size q.rw_access_mode q.barx_rw q.offset_rw
                q.data_ptr q.count_rw w
              ≡ returned r w'
            → ioctl_single_access junk junk_write false arg w ≡ completed r true w')
  unfolding ioctl_single_access
  single_access_keeps_mutex junk junk_write arg w q e = (
    λ h.
        rw (e, ioctl_single_access)
          (elim h [
            | inl locked ↦ rw locked refl
            | inr write ↦ let high : ltb q.rw_access_mode 5 ≡ false = ground arith in rw high refl
          ]),
    λ r w' below other f.
        let low : ltb q.rw_access_mode 5 ≡ true = ground arith in
        let not_locked : (q.rw_access_mode == 1) ≡ false = ground arith in
        rw (e, ioctl_single_access) (rw (low, not_locked, f) refl),
  )
