-- ===== src/BoardInfo/Modules/Chain.antt =====
-- The modules that a SHAPI board's registers list: what pciedev_get_shapi_module_info
-- (pciedev_ufn.c) finds.
use upciedev.Prelude.{
  ℕ, zero, suc, ◌+◌, ◌/◌, ◌%◌, ◌^◌, ◌<◌, ◌≡◌, ◌≢◌, refl, List, [], ◌∷◌, some, length, ==-yes, ==-no,
  replicate, bit_or, arith,
}
use upciedev.Kernel.{Kernel}
use upciedev.Device.{PciedevDev}
use upciedev.BoardInfo.{
  ShapiModuleInfo, Info, shapi_magic_module_num, link_address, collect, chain_loop, first_base,
  put_chars,
}
use upciedev.BoardInfo.Modules.{pciedev_fill_shapi_module_info, pciedev_get_shapi_module_info}
use upciedev.BoardInfo.Prj.Chain.{IsSteady, push_all, chain_loop-0}

-- The module number `n`, whose header stands at an address, and the modules that a chain of links
-- names, from the link `next` on, numbered behind `n`.
module _ (peek : ℕ → ℕ) where
  abbrev pub module_at : ℕ → ℕ → ShapiModuleInfo
  module_at n a = record {
    module_num = n;
    shapi_version = peek (a + 0x00) % 2 ^ 16;
    next_module_address = peek (a + 0x04);
    module_fw_ids = peek (a + 0x08);
    module_version = peek (a + 0x0C);
    name_words = peek (a + 0x10) ∷ peek (a + 0x14) ∷ [];
    module_cap = peek (a + 0x18);
    module_status = peek (a + 0x1C);
    module_control = peek (a + 0x20);
    irq_id = peek (a + 0x24);
    irq_flag_clear = peek (a + 0x28);
    irq_mask = peek (a + 0x2C);
    irq_flag = peek (a + 0x30);
    irq_active = peek (a + 0x34);
    module_name =
        put_chars 4 0 4 (peek (a + 0x14)) (put_chars 4 0 0 (peek (a + 0x10)) (replicate 9 0));
  }

  abbrev IsModule : ℕ → Type 0
  IsModule a = peek a / 2 ^ 16 ≡ shapi_magic_module_num

  pub data Modules (base : ℕ) : ℕ → ℕ → List ShapiModuleInfo → Type 0 where
    ends : {n : ℕ} → Modules base n 0 []
    stops : {n next : ℕ} → next ≢ 0 → ¬ IsModule (link_address base next) → Modules base n next []
    link :
        {n next : ℕ} {ms : List ShapiModuleInfo}
        → next ≢ 0
        → IsModule (link_address base next)
        → Modules base (n + 1) (peek (link_address base next + 0x04)) ms
        → Modules base n next (module_at (n + 1) (link_address base next) ∷ ms)

module _ (k : Kernel) (peek : ℕ → ℕ) (steady : IsSteady k peek) where
  open k use {World}

  abbrev with_module : ℕ → Info → Info
  with_module a info = record info {
    shapi_module_num = info.shapi_module_num + 1;
    device_irq_num = bit_or info.device_irq_num (peek (a + 0x24));
    module_list = module_at peek (info.shapi_module_num + 1) a ∷ info.module_list;
  }

  fill-module :
      (a : ℕ) (info : Info) (w : World)
      → peek a / 2 ^ 16 ≡ shapi_magic_module_num
      → pciedev_fill_shapi_module_info k a info w ≡ ((peek (a + 0x04), with_module a info), w)
  unfolding pciedev_fill_shapi_module_info
  fill-module a info w e =
      rw
        (
          steady a w,
          ==-yes e,
          steady (a + 0x00) w,
          steady (a + 0x08) w,
          steady (a + 0x0C) w,
          steady (a + 0x18) w,
          steady (a + 0x1C) w,
          steady (a + 0x20) w,
          steady (a + 0x24) w,
          steady (a + 0x28) w,
          steady (a + 0x2C) w,
          steady (a + 0x30) w,
          steady (a + 0x34) w,
          steady (a + 0x10) w,
          steady (a + 0x14) w,
          steady (a + 0x04) w,
        )
        refl

  fill-other :
      (a : ℕ) (info : Info) (w : World)
      → peek a / 2 ^ 16 ≢ shapi_magic_module_num
      → pciedev_fill_shapi_module_info k a info w ≡ ((0, info), w)
  unfolding pciedev_fill_shapi_module_info
  fill-other a info w ne = rw (steady a w, ==-no ne) refl

  -- Links that end are followed to their end, with enough fuel.
  chain-found :
      (fuel base : ℕ) (info : Info) (w : World) {next : ℕ} {ms : List ShapiModuleInfo}
      → Modules peek base info.shapi_module_num next ms
      → length ms < fuel
      → (i : Info) × (chain_loop (pciedev_fill_shapi_module_info k) fuel base next info w
          ≡ some (i, w))
        × (i.module_list ≡ push_all ms info.module_list)
        × (i.shapi_module_num ≡ info.shapi_module_num + length ms)
  unfolding chain_loop
  chain-found zero base info w c enough = absurd (omega arith)
  chain-found (suc fuel) base info w ends enough = (info, refl, refl, omega arith)
  chain-found (suc fuel) base info w {next} (stops ne other) enough = (
    info,
    rw (fill-other (link_address base next) info w other, ==-no ne)
        (chain_loop-0 (pciedev_fill_shapi_module_info k) fuel base info w),
    refl,
    omega arith,
  )
  chain-found (suc fuel) base info w {next} (link ne is rest) enough =
      let (i, e, l, n) =
        chain-found fuel base (with_module (link_address base next) info) w rest (omega arith) in
      (i, rw (fill-module (link_address base next) info w is, ==-no ne) e, l, omega (arith, n))

-- On a board whose registers keep their values: links that end are followed to their end, fuel above
-- their number being enough, and the modules found are numbered from 1 in the order of the links.
pub get_shapi_module_info-Modules :
    (k : Kernel) (peek : ℕ → ℕ)
    → IsSteady k peek
    → (dev : PciedevDev) (info : Info) (w : k.World) (fuel : ℕ) {ms : List ShapiModuleInfo}
    → info.device_info.first_module_address ≢ 0
    → Modules peek (first_base dev.memmory_base) 0 info.device_info.first_module_address ms
    → length ms < fuel
    → (i : Info) × (pciedev_get_shapi_module_info k fuel dev info w ≡ some (i, w))
      × (i.module_list ≡ push_all ms info.module_list)
      × (i.shapi_module_num ≡ length ms)
unfolding pciedev_get_shapi_module_info collect
get_shapi_module_info-Modules k peek steady dev info w fuel ne c enough =
    let (i, e, l, n) =
      chain-found k peek steady fuel (first_base dev.memmory_base)
        (record info { shapi_module_num = 0 }) w c enough in
    (i, rw (==-no ne) e, l, omega (arith, n))
