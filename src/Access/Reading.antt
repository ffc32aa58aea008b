-- ===== src/Access/Reading.antt =====
-- `pciedev_check_scratch` and `pciedev_read_inline` (read_write_inline.h): where they read, and what
-- they return.
use upciedev.Prelude.{
  ℕ, zero, suc, ◌+◌, ◌-◌, ◌*◌, ◌%◌, ◌^◌, ◌≤◌, ◌<◌, ◌≡◌, refl, arith, ◌⊎◌, inl, inr, if◌then◌else◌,
  if-both, ◌==◌, some, get_elem?, get_elem?-in_range, length,
}
use upciedev.Kernel.{Kernel, efault}
use upciedev.Device.{PciedevDev, IsDevice, number_of_bars}
use upciedev.Registers.{get_register_size_in_bytes, upciedev_swap_tot}
use upciedev.Registers.Swap.{register_size_bytes}
use upciedev.Access.{
  all_ones, served_count, ReadLocals, read_locals, read_write_private, check_scratch, stored_alias,
  deliver, read_round, read_loop, pciedev_read_inline,
}
use upciedev.Access.Bounds.{bar_bytes, served_count_bounds, find_window_cases}
use upciedev.Access.Rounds.{
  Returns, Returns-mono, served, access_bytes, access_bytes-fits, Keeps, Keeps-KeepsAccess, IsDead,
  CountTo, read_write_private-P, ReadPost, ScratchPost, after_round, after_scratch,
}

module _ (k : Kernel) (dev : PciedevDev) (reg_size bytes lo hi : ℕ) (P : k.World → Type 0)
    (keeps : Keeps k dev reg_size lo hi P) (width : access_bytes reg_size ≤ bytes) where
  open k use {World}

  check_scratch-post :
      (junk : ℕ) (w : World)
      → dev.scratch_bar < length dev.memmory_base
      → P w
      → ScratchPost P (check_scratch k dev junk w)
  unfolding check_scratch read_write_private
  check_scratch-post junk w inside h =
      let (base, e) = get_elem?-in_range dev.memmory_base dev.scratch_bar inside in
      rw (e, check_scratch) (if-both (ScratchPost P) (base == 0) h (keeps.scratch base w e h))

  deliver-post :
      (mode user_buf0 : ℕ) (l : ReadLocals) (tmp : ℕ) (w : World)
      → P w
      → ReadPost P bytes l (deliver k dev reg_size mode bytes user_buf0 l tmp w)
  unfolding deliver
  deliver-post mode user_buf0 l tmp w h =
      let tmp' = if dev.swap then upciedev_swap_tot bytes tmp else tmp in
      let sent = k.copy_to_user l.pc_user_buf bytes (tmp' % 2 ^ (8 * bytes)) w in
      let kept : P sent.1 = keeps.delivers _ _ _ w h in
      if-both (ReadPost P bytes l) (user_buf0 == 0) (h, refl, refl)
        (if-both (ReadPost P bytes l) sent.0 (kept, inr (l.retval, refl, omega arith))
          (kept, refl, refl))

  read_round-post :
      (mode user_buf0 junk : ℕ) (l : ReadLocals) (w : World)
      → dev.scratch_bar < length dev.memmory_base
      → lo ≤ l.address_dev
      → l.address_dev + bytes ≤ hi
      → P w
      → ReadPost P bytes l (read_round k dev reg_size mode bytes user_buf0 junk l w)
  unfolding read_round
  read_round-post mode user_buf0 junk l w inside p q h =
      let result = read_write_private k reg_size mode l.address_dev l.tmp_data l.tmp_data w in
      let tmp = stored_alias k reg_size result.0 l.tmp_data in
      let kept : P result.1 =
        read_write_private-P k reg_size bytes lo hi P
          (Keeps-KeepsAccess k dev reg_size lo hi P keeps) width mode l.address_dev l.tmp_data
          l.tmp_data w p q h in
      if-both (ReadPost P bytes l) (tmp == all_ones bytes)
        (after_scratch P bytes l (λ w2. deliver k dev reg_size mode bytes user_buf0 l tmp w2)
          (check_scratch k dev junk result.1) (check_scratch-post junk result.1 inside kept)
          (λ w2 h2. deliver-post mode user_buf0 l tmp w2 h2))
        (deliver-post mode user_buf0 l tmp result.1 kept)

  read_loop-post :
      (mode n user_buf0 : ℕ) (junk : ℕ → ℕ) (l : ReadLocals) (w : World)
      → dev.scratch_bar < length dev.memmory_base
      → lo ≤ l.address_dev
      → l.address_dev + n * bytes ≤ hi
      → P w
      → Returns
          (λ r w'. P w' × CountTo IsDead (l.retval + n * bytes) r)
          (read_loop k dev reg_size mode bytes n user_buf0 junk l w)
  unfolding read_loop
  read_loop-post mode zero user_buf0 junk l w inside p q h = (h, inr (l.retval, refl, omega arith))
  read_loop-post mode (suc n) user_buf0 junk l w inside p q h =
      after_round P IsDead bytes (λ l. l.address_dev) (λ l. l.retval) (l.retval + suc n * bytes)
        (λ l' w'. read_loop k dev reg_size mode bytes n user_buf0 junk l' w') l
        (read_round k dev reg_size mode bytes user_buf0 (junk l.i) l w)
        (read_round-post mode user_buf0 (junk l.i) l w inside p (omega arith) h) (omega arith)
        λ l' w' h' ea er.
          let limit : l'.retval + n * bytes ≡ l.retval + suc n * bytes = omega arith in
          rw limit at
            (read_loop-post mode n user_buf0 junk l' w' inside (omega arith) (omega arith) h')

-- A read of a BAR always returns, with the error of a bad request, that of a dead bus, or a count
-- of bytes that is at most the requested one and ends inside the BAR; and it touches the device only
-- from the requested offset to the end of that BAR, and at the scratch register: what such accesses
-- and copies to the user keep, it keeps. The BAR and the scratch BAR must be numbers
-- below 6, and the register size a known one.
pub read_inline-stays_in_bar :
    (k : Kernel) (dev : PciedevDev) (junk : ℕ → ℕ)
    (reg_size mode bar offset user_buf0 count base start last : ℕ) (w : k.World)
    (P : k.World → Type 0)
    → IsDevice dev
    → reg_size < 3
    → dev.scratch_bar < number_of_bars
    → get_elem? dev.memmory_base bar ≡ some base
    → get_elem? dev.mem_base bar ≡ some start
    → get_elem? dev.mem_base_end bar ≡ some last
    → let bytes = get_register_size_in_bytes reg_size dev.register_size in
      let size = bar_bytes start last in
      Keeps k dev reg_size (base + offset) (base + offset + (size - offset)) P
      → P w
      → Returns
          (λ r w'.
            P w'
            × ((r ≡ efault)
                ⊎ (CountTo IsDead (count * bytes) r × CountTo IsDead (size - offset) r)))
          (pciedev_read_inline k dev junk reg_size mode bar offset user_buf0 count w)
unfolding pciedev_read_inline
read_inline-stays_in_bar k dev junk reg_size mode bar offset user_buf0 count base start last w P
      device known scratch eb es el keeps h =
    let bytes = get_register_size_in_bytes reg_size dev.register_size in
    let size = bar_bytes start last in
    let n = served_count start last offset bytes count in
    let sized = register_size_bytes reg_size dev.register_size device.known_size in
    let width = access_bytes-fits reg_size dev.register_size known in
    let bounds = served_count_bounds start last offset bytes count (omega arith) in
    elim (find_window_cases dev bar offset bytes base start last eb es el) [
      | inl e ↦ rw (e, pciedev_read_inline) (h, inl refl)
      | inr e ↦
          rw (e, pciedev_read_inline)
            (Returns-mono (λ r w'. P w' × CountTo IsDead (0 + n * bytes) r)
              (λ r w'.
                P w'
                × ((r ≡ efault)
                    ⊎ (CountTo IsDead (count * bytes) r × CountTo IsDead (size - offset) r)))
              (read_loop k dev reg_size mode bytes n user_buf0 (λ i. junk (suc i))
                (read_locals (junk 0) user_buf0 (base + offset)) w)
              (served P IsDead bytes n count (size - offset) bounds.0 bounds.1)
              (read_loop-post k dev reg_size bytes (base + offset) (base + offset + (size - offset))
                P keeps width mode n user_buf0 (λ i. junk (suc i))
                (read_locals (junk 0) user_buf0 (base + offset)) w (omega arith) (omega arith)
                (omega arith) h))
    ]
