-- ===== src/Access.antt =====
-- Access to one device register, and to a row of them (read_write_inline.h).
pub mod Bounds
pub mod Rounds
pub mod Reading
pub mod Writing
pub mod Faults
pub mod BitModes
use upciedev.Prelude.{
  ℕ, zero, suc, ◌+◌, ◌-◌, ◌*◌, ◌/◌, ◌%◌, ◌^◌, bit_and, bit_or, Bool, true, false, not, ◌&&◌, ◌||◌,
  Option, none, some, ℤ, pos, ltb, ◌==◌, if◌then◌else◌, get_elem?,
}
use upciedev.Registers.{
  rw_d8, rw_d16, mtca_simple_read, mtca_simple_write, mtca_set_bits, mtca_swap_bits,
  mt_read_to_extra_buffer, get_register_size_in_bytes, upciedev_swap_tot,
}
use upciedev.Kernel.{Kernel, Outcome, returned, undefined, enomem, efault}
use upciedev.Device.{PciedevDev}

-- The width that `switch (a_usnRegSize)` chooses, in bits.
unfoldable pub access_bits : ℕ → ℕ
access_bits size = if size == rw_d8 then 8 else if size == rw_d16 then 16 else 32

-- What an access stores through a kernel pointer, at the access's width.
pub data Stored : Type 0 where
  nothing : Stored
  to_value : ℕ → Stored
  to_extra : ℕ → Stored

-- `~x` of a u32.
abbrev pub complement32 : ℕ → ℕ
complement32 x = 2 ^ 32 - 1 - x

-- The value that MTCA_SET_BITS writes for the old register value `prev`.
unfoldable pub set_bits : ℕ → ℕ → ℕ → ℕ → ℕ
set_bits bits value mask prev =
    bit_or (bit_and (value % 2 ^ bits) (mask % 2 ^ bits))
      (bit_and prev (complement32 (mask % 2 ^ bits)))
    % 2 ^ bits

-- The value that MTCA_SWAP_BITS writes.
unfoldable pub swap_bits : ℕ → ℕ → ℕ → ℕ
swap_bits bits mask prev =
    bit_or (bit_and (complement32 prev) (mask % 2 ^ bits))
      (bit_and prev (complement32 (mask % 2 ^ bits)))
    % 2 ^ bits

-- A little-endian store of the low `bits` bits into a u32.
unfoldable pub store_low : ℕ → ℕ → ℕ → ℕ
store_low bits v tmp = tmp / 2 ^ bits * 2 ^ bits + v % 2 ^ bits

-- All ones at a width in bytes.
unfoldable pub all_ones : ℕ → ℕ
all_ones bytes = if bytes == 1 then 0xff else if bytes == 2 then 0xffff else 0xffffffff

-- The rest of the BAR behind `offset`, in registers, and the count that is served of a request.
unfoldable pub served_count : ℕ → ℕ → ℕ → ℕ → ℕ → ℕ
served_count mem_base mem_base_end offset bytes count =
    let total_size_rw = (mem_base_end + 2 ^ 32 - mem_base) % 2 ^ 32 in
    let size_after_offset_rw = if ltb offset total_size_rw then total_size_rw - offset else 0 in
    let cnt_after_offset_rw = size_after_offset_rw / bytes in
    if ltb count cnt_after_offset_rw then count else cnt_after_offset_rw

-- One round of a loop: the function ends, or the loop goes on with its local variables.
pub data Round (L W : Type 0) : Type 0 where
  stop : Outcome W → Round L W
  next : L → W → Round L W

-- The local variables of the two loops.
pub record ReadLocals : Type 0 where
  pub i : ℕ
  pub pc_user_buf : ℕ
  pub address_dev : ℕ
  pub tmp_data : ℕ
  pub retval : ℕ

pub record WriteLocals : Type 0 where
  pub pc_user_data : ℕ
  pub pc_user_mask : ℕ
  pub address_dev : ℕ
  pub tmp_data : ℕ
  pub tmp_mask : ℕ
  pub retval : ℕ

-- Their values before the first round.
abbrev pub read_locals : ℕ → ℕ → ℕ → ReadLocals
read_locals junk user_buf0 address = record {
  i = 0;
  pc_user_buf = user_buf0;
  address_dev = address;
  tmp_data = junk;
  retval = 0;
}

abbrev pub write_locals : ℕ → ℕ → ℕ → ℕ → WriteLocals
write_locals junk user_data0 user_mask0 address = record {
  pc_user_data = user_data0;
  pc_user_mask = user_mask0;
  address_dev = address;
  tmp_data = junk;
  tmp_mask = 0xffffffff;
  retval = 0;
}

module _ (k : Kernel) where
  open k use {World, ioread, iowrite, copy_to_user, copy_from_user}

  -- The three cases of `switch (a_usnRegSize)` differ in the width alone. `value` and `mask` are
  -- the u32 variables behind `a_pValueKernel` and `a_pMaskW`.
  unfoldable pub read_write_private : ℕ → ℕ → ℕ → ℕ → ℕ → World → Stored × World
  unfolding access_bits
  read_write_private reg_size access_mode address value mask w =
      let bits = access_bits reg_size in
      let (prev, w') = ioread bits address w in
      if access_mode == mtca_simple_write
      then (nothing, iowrite bits address (value % 2 ^ bits) w)
      else if access_mode == mtca_set_bits
      then (nothing, iowrite bits address (set_bits bits value mask prev) w')
      else if access_mode == mtca_swap_bits
      then (nothing, iowrite bits address (swap_bits bits mask prev) w')
      else if access_mode == mt_read_to_extra_buffer
      then (to_extra prev, w')
      else (to_value prev, w')

  -- 1 for a dead bus, 0 for a live one; `none` if the scratch BAR is no BAR. `junk` is what the
  -- uninitialised `tmp_data_for_rw` holds.
  unfoldable pub check_scratch : PciedevDev → ℕ → World → Option (Bool × World)
  check_scratch dev junk w = elim (get_elem? dev.memmory_base dev.scratch_bar) [
    | none ↦ none
    | some base ↦
        if base == 0
        then some (true, w)
        else let scratch_test =
            if dev.register_size == rw_d8
            then 0xff
            else if dev.register_size == rw_d16
            then 0xffff
            else 0xffffffff in
          let (stored, w') =
            read_write_private dev.register_size mtca_simple_read (base + dev.scratch_offset) junk 0
              w in
          some (kept stored == scratch_test, w')
  ]
    where
      kept : Stored → ℕ
      kept nothing = junk
      kept (to_value v) = store_low (access_bits dev.register_size) v junk
      kept (to_extra v) = junk

  -- In `pciedev_read_inline` the three pointers are to one variable.
  unfoldable pub stored_alias : ℕ → Stored → ℕ → ℕ
  unfolding access_bits store_low
  stored_alias reg_size nothing tmp = tmp
  stored_alias reg_size (to_value v) tmp = store_low (access_bits reg_size) v tmp
  stored_alias reg_size (to_extra v) tmp = store_low (access_bits reg_size) v tmp

  module _ (dev : PciedevDev) (reg_size access_mode bytes : ℕ) where
    -- The end of a round: swap, copy to the user, count.
    unfoldable pub deliver : ℕ → ReadLocals → ℕ → World → Round ReadLocals World
    deliver user_buf0 l tmp w =
        let tmp' = if dev.swap then upciedev_swap_tot bytes tmp else tmp in
        let (failed, w') = copy_to_user l.pc_user_buf bytes (tmp' % 2 ^ (8 * bytes)) w in
        let l' : ReadLocals = record {
          i = l.i + 1;
          pc_user_buf = l.pc_user_buf + bytes;
          address_dev = l.address_dev + bytes;
          tmp_data = tmp';
          retval = l.retval + bytes;
        } in
        if user_buf0 == 0
        then next l' w
        else if failed
        then stop (returned (pos l.retval) w')
        else next l' w'

    -- `junk` is what the uninitialised variable of the scratch check holds in this round.
    unfoldable pub read_round : ℕ → ℕ → ReadLocals → World → Round ReadLocals World
    unfolding stored_alias all_ones deliver
    read_round user_buf0 junk l w =
        let (stored, w1) =
          read_write_private reg_size access_mode l.address_dev l.tmp_data l.tmp_data w in
        let tmp = stored_alias reg_size stored l.tmp_data in
        if tmp == all_ones bytes
        then elim (check_scratch dev junk w1) [
          | none ↦ stop undefined
          | some (bad, w2) ↦ if bad then stop (returned enomem w2) else deliver user_buf0 l tmp w2
        ]
        else deliver user_buf0 l tmp w1

    unfoldable pub read_loop : ℕ → ℕ → (ℕ → ℕ) → ReadLocals → World → Outcome World
    read_loop zero user_buf0 junk l w = returned (pos l.retval) w
    read_loop (suc n) user_buf0 junk l w = elim (read_round user_buf0 (junk l.i) l w) [
      | stop r ↦ r
      | next l' w' ↦ read_loop n user_buf0 junk l' w'
    ]

    -- One register is written from the local variables; an unknown mode reads into them.
    unfoldable pub perform_write : WriteLocals → World → Round WriteLocals World
    unfolding store_low access_bits
    perform_write l w =
        let data' = if dev.swap then upciedev_swap_tot bytes l.tmp_data else l.tmp_data in
        let mask' = if dev.swap then upciedev_swap_tot bytes l.tmp_mask else l.tmp_mask in
        let (stored, w') = read_write_private reg_size access_mode l.address_dev data' mask' w in
        next
          (record {
            pc_user_data = l.pc_user_data + bytes;
            pc_user_mask = l.pc_user_mask + bytes;
            address_dev = l.address_dev + bytes;
            tmp_data = kept_data stored data';
            tmp_mask = kept_mask stored mask';
            retval = l.retval + bytes;
          })
          w'
      where
        kept_data : Stored → ℕ → ℕ
        kept_data (to_value v) tmp = store_low (access_bits reg_size) v tmp
        kept_data nothing tmp = tmp
        kept_data (to_extra v) tmp = tmp

        kept_mask : Stored → ℕ → ℕ
        kept_mask (to_extra v) tmp = store_low (access_bits reg_size) v tmp
        kept_mask nothing tmp = tmp
        kept_mask (to_value v) tmp = tmp

    -- What a copy from the user leaves in a u32; a null pointer leaves it alone.
    unfoldable pub fetch : ℕ → ℕ → ℕ → World → Option ℕ
    unfolding store_low
    fetch pointer0 pointer tmp w =
        if pointer0 == 0 then some tmp else elim (copy_from_user pointer bytes w) [
          | none ↦ none
          | some v ↦ some (store_low (8 * bytes) v tmp)
        ]

    unfoldable pub write_round : ℕ → ℕ → WriteLocals → World → Round WriteLocals World
    unfolding fetch perform_write
    write_round user_data0 user_mask0 l w = elim (fetch user_data0 l.pc_user_data l.tmp_data w) [
      | none ↦ stop (returned (pos l.retval) w)
      | some data' ↦ elim (fetch user_mask0 l.pc_user_mask l.tmp_mask w) [
        | none ↦ stop (returned (pos l.retval) w)
        | some mask' ↦ perform_write (record l { tmp_data = data'; tmp_mask = mask' }) w
      ]
    ]

    unfoldable pub write_loop : ℕ → ℕ → ℕ → WriteLocals → World → Outcome World
    write_loop zero user_data0 user_mask0 l w = returned (pos l.retval) w
    write_loop (suc n) user_data0 user_mask0 l w = elim (write_round user_data0 user_mask0 l w) [
      | stop r ↦ r
      | next l' w' ↦ write_loop n user_data0 user_mask0 l' w'
    ]

-- What both functions check of the request before their loop: the mapped address of the BAR and
-- its first and last byte.
pub data Window : Type 0 where
  outside : Window
  refused : Window
  window : ℕ → ℕ → ℕ → Window

unfoldable pub find_window : PciedevDev → ℕ → ℕ → ℕ → Window
find_window dev bar offset bytes = elim (get_elem? dev.memmory_base bar) [
  | none ↦ outside
  | some base ↦
      if base == 0 || not (offset % bytes == 0)
      then refused
      else elim (get_elem? dev.mem_base bar) [
        | none ↦ outside
        | some start ↦ elim (get_elem? dev.mem_base_end bar) [
          | none ↦ outside
          | some last ↦ window base start last
        ]
      ]
]

module _ (k : Kernel) where
  open k use {World}

  -- `junk 0` is what the uninitialised `tmp_data_for_rw` holds, `junk (i + 1)` what that of the
  -- scratch check holds in round `i`.
  unfoldable pub pciedev_read_inline :
      PciedevDev → (ℕ → ℕ) → ℕ → ℕ → ℕ → ℕ → ℕ → ℕ → World → Outcome World
  unfolding find_window
  pciedev_read_inline dev junk reg_size access_mode bar offset user_buf0 count w =
      let bytes = get_register_size_in_bytes reg_size dev.register_size in
      elim (find_window dev bar offset bytes) [
        | outside ↦ undefined
        | refused ↦ returned efault w
        | window base start last ↦
            read_loop k dev reg_size access_mode bytes (served_count start last offset bytes count)
              user_buf0 (λ i. junk (suc i)) (read_locals (junk 0) user_buf0 (base + offset)) w
      ]

  -- `junk` is what the uninitialised `tmp_data_for_rw` holds.
  unfoldable pub pciedev_write_inline :
      PciedevDev → ℕ → ℕ → ℕ → ℕ → ℕ → ℕ → ℕ → ℕ → World → Outcome World
  unfolding find_window
  pciedev_write_inline dev junk reg_size access_mode bar offset user_data0 user_mask0 count w =
      let bytes = get_register_size_in_bytes reg_size dev.register_size in
      elim (find_window dev bar offset bytes) [
        | outside ↦ undefined
        | refused ↦ returned efault w
        | window base start last ↦
            write_loop k dev reg_size access_mode bytes (served_count start last offset bytes count)
              user_data0 user_mask0 (write_locals junk user_data0 user_mask0 (base + offset)) w
      ]
