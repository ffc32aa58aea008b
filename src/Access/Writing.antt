-- ===== src/Access/Writing.antt =====
-- `pciedev_write_inline` (read_write_inline.h): where it writes, and what it returns.
use upciedev.Prelude.{
  ℕ, zero, suc, ◌+◌, ◌-◌, ◌*◌, ◌≤◌, ◌<◌, ◌≡◌, refl, arith, ◌⊎◌, inl, inr, Option, some, none,
  get_elem?, pos,
}
use upciedev.Kernel.{Kernel, returned, efault}
use upciedev.Device.{PciedevDev, IsDevice}
use upciedev.Registers.{get_register_size_in_bytes}
use upciedev.Registers.Swap.{register_size_bytes}
use upciedev.Access.{
  served_count, WriteLocals, write_locals, Round, stop, fetch, perform_write, write_round,
  write_loop, pciedev_write_inline,
}
use upciedev.Access.Bounds.{bar_bytes, served_count_bounds, find_window_cases}
use upciedev.Access.Rounds.{
  Returns, Returns-mono, served, access_bytes, access_bytes-fits, KeepsAccess, Never, CountTo,
  read_write_private-P, WritePost, after_round,
}

-- After a copy from the user the function ends, or it goes on.
after_fetch :
    {W : Type 0} (P : W → Type 0) (bytes : ℕ) (l : WriteLocals) (w : W)
    (rest : ℕ → Round WriteLocals W) (o : Option ℕ)
    → P w
    → ((v : ℕ) → WritePost P bytes l (rest v))
    → WritePost P bytes l (elim o as (λ _. Round WriteLocals W) [
      | none ↦ stop (returned (pos l.retval) w)
      | some v ↦ rest v
    ])
after_fetch P bytes l w rest none h f = (h, inr (l.retval, refl, omega arith))
after_fetch P bytes l w rest (some v) h f = f v

module _ (k : Kernel) (dev : PciedevDev) (reg_size bytes lo hi : ℕ) (P : k.World → Type 0)
    (keeps : KeepsAccess k reg_size lo hi P) (width : access_bytes reg_size ≤ bytes) where
  open k use {World}

  perform_write-post :
      (mode : ℕ) (l : WriteLocals) (w : World)
      → lo ≤ l.address_dev
      → l.address_dev + bytes ≤ hi
      → P w
      → WritePost P bytes l (perform_write k dev reg_size mode bytes l w)
  unfolding perform_write
  perform_write-post mode l w p q h = (
    read_write_private-P k reg_size bytes lo hi P keeps width mode l.address_dev _ _ w p q h,
    refl,
    refl,
  )

  write_round-post :
      (mode user_data0 user_mask0 : ℕ) (l : WriteLocals) (w : World)
      → lo ≤ l.address_dev
      → l.address_dev + bytes ≤ hi
      → P w
      → WritePost P bytes l (write_round k dev reg_size mode bytes user_data0 user_mask0 l w)
  unfolding write_round
  write_round-post mode user_data0 user_mask0 l w p q h =
      after_fetch P bytes l w _
        (fetch k dev reg_size mode bytes user_data0 l.pc_user_data l.tmp_data w) h
        λ data'.
          after_fetch P bytes l w _
            (fetch k dev reg_size mode bytes user_mask0 l.pc_user_mask l.tmp_mask w) h
            λ mask'.
              perform_write-post mode (record l { tmp_data = data'; tmp_mask = mask' }) w p q h

  write_loop-post :
      (mode n user_data0 user_mask0 : ℕ) (l : WriteLocals) (w : World)
      → lo ≤ l.address_dev
      → l.address_dev + n * bytes ≤ hi
      → P w
      → Returns
          (λ r w'. P w' × CountTo Never (l.retval + n * bytes) r)
          (write_loop k dev reg_size mode bytes n user_data0 user_mask0 l w)
  unfolding write_loop
  write_loop-post mode zero user_data0 user_mask0 l w p q h = (h, inr (l.retval, refl, omega arith))
  write_loop-post mode (suc n) user_data0 user_mask0 l w p q h =
      after_round P Never bytes (λ l. l.address_dev) (λ l. l.retval) (l.retval + suc n * bytes)
        (λ l' w'. write_loop k dev reg_size mode bytes n user_data0 user_mask0 l' w') l
        (write_round k dev reg_size mode bytes user_data0 user_mask0 l w)
        (write_round-post mode user_data0 user_mask0 l w p (omega arith) h) (omega arith)
        λ l' w' h' ea er.
          let limit : l'.retval + n * bytes ≡ l.retval + suc n * bytes = omega arith in
          rw limit at
            (write_loop-post mode n user_data0 user_mask0 l' w' (omega arith) (omega arith) h')

-- A write to a BAR always returns, with the error of a bad request or a count of bytes that is at
-- most the requested one and ends inside the BAR; and it touches the device only from the requested
-- offset to the end of that BAR: what such accesses keep, it keeps. The BAR must be a number below
-- 6, and the register size a known one.
pub write_inline-stays_in_bar :
    (k : Kernel) (dev : PciedevDev)
    (junk reg_size mode bar offset user_data0 user_mask0 count base start last : ℕ) (w : k.World)
    (P : k.World → Type 0)
    → IsDevice dev
    → reg_size < 3
    → get_elem? dev.memmory_base bar ≡ some base
    → get_elem? dev.mem_base bar ≡ some start
    → get_elem? dev.mem_base_end bar ≡ some last
    → let bytes = get_register_size_in_bytes reg_size dev.register_size in
      let size = bar_bytes start last in
      KeepsAccess k reg_size (base + offset) (base + offset + (size - offset)) P
      → P w
      → Returns
          (λ r w'.
            P w'
            × ((r ≡ efault) ⊎ (CountTo Never (count * bytes) r × CountTo Never (size - offset) r)))
          (pciedev_write_inline k dev junk reg_size mode bar offset user_data0 user_mask0 count w)
unfolding pciedev_write_inline
write_inline-stays_in_bar k dev junk reg_size mode bar offset user_data0 user_mask0 count base start
      last w P device known eb es el keeps h =
    let bytes = get_register_size_in_bytes reg_size dev.register_size in
    let size = bar_bytes start last in
    let n = served_count start last offset bytes count in
    let locals = write_locals junk user_data0 user_mask0 (base + offset) in
    let sized = register_size_bytes reg_size dev.register_size device.known_size in
    let width = access_bytes-fits reg_size dev.register_size known in
    let bounds = served_count_bounds start last offset bytes count (omega arith) in
    elim (find_window_cases dev bar offset bytes base start last eb es el) [
      | inl e ↦ rw (e, pciedev_write_inline) (h, inl refl)
      | inr e ↦
          rw (e, pciedev_write_inline)
            (Returns-mono (λ r w'. P w' × CountTo Never (0 + n * bytes) r)
              (λ r w'.
                P w'
                × ((r ≡ efault)
                    ⊎ (CountTo Never (count * bytes) r × CountTo Never (size - offset) r)))
              (write_loop k dev reg_size mode bytes n user_data0 user_mask0 locals w)
              (served P Never bytes n count (size - offset) bounds.0 bounds.1)
              (write_loop-post k dev reg_size bytes (base + offset)
                (base + offset + (size - offset)) P keeps width mode n user_data0 user_mask0 locals
                w (omega arith) (omega arith) h))
    ]
