-- ===== src/BoardInfo.antt =====
-- What a board says of itself (pciedev_ufn.c): pciedev_get_brdinfo, pciedev_fill_prj_info,
-- pciedev_get_prjinfo, pciedev_fill_shapi_module__info and pciedev_get_shapi_module_info. The
-- kernel's kzalloc has memory for every header of a project or module, which the source takes for
-- granted too.
pub mod Prj
pub mod Modules
pub mod Board
use upciedev.Prelude.{
  ℕ, zero, suc, ◌+◌, ◌-◌, ◌*◌, ◌/◌, ◌%◌, ◌^◌, bit_or, Bool, true, false, ◌||◌, List, [], ◌∷◌,
  Option, none, some, ltb, ◌==◌, if◌then◌else◌, drop, replicate, set,
}
use upciedev.Kernel.{Kernel}
use upciedev.Device.{PciedevDev}

-- A board of DESY, its projects, a board of PICMG's SHAPI and its modules.
pub record BrdInfo : Type 0 where
  pub board_id : ℕ
  pub board_version : ℕ
  pub board_date : ℕ
  pub hw_version : ℕ
  pub proj_next : ℕ

pub record PrjInfo : Type 0 where
  pub proj_id : ℕ
  pub proj_version : ℕ
  pub proj_date : ℕ
  pub proj_reserved : ℕ
  pub proj_next : ℕ

-- `fw_name` is the array of 13 characters.
pub record ShapiDeviceInfo : Type 0 where
  pub shapi_version : ℕ
  pub first_module_address : ℕ
  pub hw_ids : ℕ
  pub fw_ids : ℕ
  pub fw_version : ℕ
  pub fw_timestamp : ℕ
  pub name_words : List ℕ
  pub device_cap : ℕ
  pub device_status : ℕ
  pub device_control : ℕ
  pub irq_mask : ℕ
  pub irq_flag : ℕ
  pub irq_active : ℕ
  pub scratch_register : ℕ
  pub fw_name : List ℕ

-- `module_name` is the array of 9 characters.
pub record ShapiModuleInfo : Type 0 where
  pub module_num : ℕ
  pub shapi_version : ℕ
  pub next_module_address : ℕ
  pub module_fw_ids : ℕ
  pub module_version : ℕ
  pub name_words : List ℕ
  pub module_cap : ℕ
  pub module_status : ℕ
  pub module_control : ℕ
  pub irq_id : ℕ
  pub irq_flag_clear : ℕ
  pub irq_mask : ℕ
  pub irq_flag : ℕ
  pub irq_active : ℕ
  pub module_name : List ℕ

-- The fields of `struct pciedev_dev` for these; `list_add` puts an entry first.
pub record Info : Type 0 where
  pub startup_brd : Bool
  pub startup_prj_num : ℕ
  pub brd_info : BrdInfo
  pub prj_list : List PrjInfo
  pub shapi_brd : Bool
  pub shapi_module_num : ℕ
  pub device_info : ShapiDeviceInfo
  pub module_list : List ShapiModuleInfo
  pub device_irq_num : ℕ

abbrev pub ascii_board_magic_num : ℕ
ascii_board_magic_num = 0x424F5244

abbrev pub ascii_board_magic_num_l : ℕ
ascii_board_magic_num_l = 0x626F7264

abbrev pub ascii_proj_magic_num : ℕ
ascii_proj_magic_num = 0x50524F4A

abbrev pub shapi_magic_device_num : ℕ
shapi_magic_device_num = 0x5348

abbrev pub shapi_magic_module_num : ℕ
shapi_magic_module_num = 0x534D

-- `baddress + n` for an `int` n that holds a u32: from 2 ^ 31 on it is negative.
unfoldable pub link_address : ℕ → ℕ → ℕ
link_address base n = if ltb n (2 ^ 31) then base + n else (base + n + 2 ^ 64 - 2 ^ 32) % 2 ^ 64

-- The loop over the four characters of a word, from character `i` on: a space or a zero ends it.
unfoldable pub put_chars : ℕ → ℕ → ℕ → ℕ → List ℕ → List ℕ
put_chars zero i k word name = name
put_chars (suc n) i k word name =
    let ach = word / 2 ^ ((3 - i) * 8) % 256 in
    let rest = put_chars n (i + 1) k word (set name (i + k) ach) in
    if ach == 0x20 || ach == 0 then set name (i + k) 0 else rest

-- Reads of registers in their order.
abbrev pub Reads : Type 0 → Type 0 → Type 0
Reads W A = W → A × W

infixl 5 ◌>>=◌
abbrev pub ◌>>=◌ : {W A B : Type 0} → Reads W A → (A → Reads W B) → Reads W B
◌>>=◌ m f w = let (a, w') = m w in f a w'

abbrev pub return : {W A : Type 0} → A → Reads W A
return a w = (a, w)

-- The mapped address of BAR 0.
abbrev pub first_base : List ℕ → ℕ
first_base [] = 0
first_base (base ∷ bases) = base

abbrev pub word_scratch_register : ℕ
word_scratch_register = 0x3C

abbrev pub with_device :
    {W : Type 0} → PciedevDev → Option (Info × W) → Option (PciedevDev × Info × W)
with_device dev none = none
with_device dev (some (info, w)) = some (dev, info, w)

-- The loops that collect the headers of projects or modules; `fill` reads one header and gives the
-- link to the next one. `none` means that the fuel has run out.
module _ {W : Type 0} (fill : ℕ → Info → Reads W (ℕ × Info)) where
  -- `while (tmp_next_prj)` over the links from BAR 0.
  unfoldable pub chain_loop : ℕ → ℕ → ℕ → Info → W → Option (Info × W)
  unfolding link_address
  chain_loop zero base next info w = if next == 0 then some (info, w) else none
  chain_loop (suc fuel) base next info w =
      let ((next', info'), w') = fill (link_address base next) info w in
      let rest = chain_loop fuel base next' info' w' in if next == 0 then some (info, w) else rest

  -- The loop in another BAR: `tmp_next_prj1` stays 0, so each round reads the start of the BAR.
  unfoldable pub bar_loop : ℕ → ℕ → Info → W → Option (Info × W)
  bar_loop zero base info w = none
  bar_loop (suc fuel) base info w =
      let ((next', info'), w') = fill base info w in
      let rest = bar_loop fuel base info' w' in if next' == 0 then some (info', w') else rest

  -- The BARs from 1 on that are mapped.
  unfoldable pub bars_loop : ℕ → List ℕ → Info → W → Option (Info × W)
  unfolding bar_loop
  bars_loop fuel [] info w = some (info, w)
  bars_loop fuel (base ∷ bases) info w =
      let skip = bars_loop fuel bases info w in
      if base == 0 then skip else elim (bar_loop fuel base info w) [
        | none ↦ none
        | some (info', w') ↦ bars_loop fuel bases info' w'
      ]

  -- The headers that the link `first` leads to, or without one those in the BARs.
  unfoldable pub collect : ℕ → ℕ → PciedevDev → Info → W → Option (Info × W)
  unfolding chain_loop bars_loop
  collect fuel first dev info w =
      if first == 0
      then bars_loop fuel (drop 1 dev.memmory_base) info w
      else chain_loop fuel (first_base dev.memmory_base) first info w

module _ (k : Kernel) where
  open k use {World, ioread}

  abbrev pub ioread32 : ℕ → Reads World ℕ
  ioread32 address = ioread 32 address
