-- ===== src/Boards/Ioctl/Modinfo.antt =====
-- What PCIEDEV_GET_SHAPI_MODINFO reports of the modules that a board's registers list.
use upciedev.Prelude.{
  ℕ, zero, suc, ◌+◌, ◌<◌, ◌≡◌, ◌≢◌, refl, sym, ap, ◌∙◌, true, false, List, [], ◌∷◌, some, length,
  get_elem?, ◌==◌, ==-yes, ==-no, arith,
}
use upciedev.Kernel.{Kernel}
use upciedev.Device.{PciedevDev}
use upciedev.BoardInfo.{ShapiModuleInfo, Info, first_base, link_address}
use upciedev.BoardInfo.Modules.{pciedev_get_shapi_module_info}
use upciedev.BoardInfo.Modules.Chain.{
  module_at, Modules, ends, stops, link, get_shapi_module_info-Modules,
}
use upciedev.BoardInfo.Prj.Chain.{IsSteady, push_all}
use upciedev.Boards.{Board}
use upciedev.Boards.Ioctl.{
  asked_module, shapi_module_bytes, module_answer, report, sizeof_shapi_module_info,
  ioctl_shapi_modinfo,
}

same_entry : {x y : ShapiModuleInfo} → some x ≡ some y → x ≡ y
same_entry e = cc

module _ (peek : ℕ → ℕ) (base reading : ℕ) where
  -- Modules behind the one that is asked for do not change the answer.
  behind :
      {n next : ℕ} {ms : List ShapiModuleInfo} (olds : List ShapiModuleInfo) (found : ℕ)
      → Modules peek base n next ms
      → asked_module reading < suc n
      → module_answer (push_all ms olds) reading found ≡ module_answer olds reading found
  unfolding module_answer
  behind olds found ends low = refl
  behind olds found (stops ne other) low = refl
  behind {n} {next} olds found (link ne is rest) low =
      let other : (n + 1 == asked_module reading) ≡ false = ==-no (λ e. omega (arith, e, low)) in
      behind (module_at peek (n + 1) (link_address base next) ∷ olds) found rest
        (omega (arith, low))
      ∙ rw other refl

  -- Of the modules that a chain lists, the one that is asked for is what comes before the older ones.
  among :
      {n next : ℕ} {ms : List ShapiModuleInfo} (olds : List ShapiModuleInfo) (found j : ℕ)
      (s : ShapiModuleInfo)
      → Modules peek base n next ms
      → get_elem? ms j ≡ some s
      → asked_module reading ≡ n + suc j
      → module_answer (push_all ms olds) reading found
        ≡ module_answer olds reading (shapi_module_bytes s reading)
  unfolding module_answer
  among olds found j s ends at asked = absurd cc
  among olds found j s (stops ne other) at asked = absurd cc
  among {n} {next} olds found zero s (link ne is rest) at asked =
      let same : (n + 1 == asked_module reading) ≡ true = ==-yes (sym asked) in
      let it : module_at peek (n + 1) (link_address base next) ≡ s = same_entry at in
      behind (module_at peek (n + 1) (link_address base next) ∷ olds) found rest
        (omega (arith, asked))
      ∙ rw same (
          ap (λ (x : ShapiModuleInfo). module_answer olds reading (shapi_module_bytes x reading))
            it)
  among {n} {next} olds found (suc j) s (link ne is rest) at asked =
      let other : (n + 1 == asked_module reading) ≡ false = ==-no (λ e. omega (arith, e, asked)) in
      among (module_at peek (n + 1) (link_address base next) ∷ olds) found j s rest at
        (omega (arith, asked))
      ∙ rw other refl

-- A board whose registers keep their values lists the modules `ms`, and no modules were listed before.
-- With fuel above their number, the driver finds them all. With the mutex free, the command that asks
-- for number `j + 1` then reports the header of the module at place `j`.
pub modinfo-Modules :
    (k : Kernel) (peek : ℕ → ℕ)
    → IsSteady k peek
    → (dev : PciedevDev) (info : Info) (b : Board) (fuel arg reading j : ℕ) (w w' : k.World)
      (ms : List ShapiModuleInfo) (s : ShapiModuleInfo)
    → info.module_list ≡ []
    → info.device_info.first_module_address ≢ 0
    → Modules peek (first_base dev.memmory_base) 0 info.device_info.first_module_address ms
    → length ms < fuel
    → get_elem? ms j ≡ some s
    → k.copy_from_user arg sizeof_shapi_module_info w' ≡ some reading
    → asked_module reading ≡ suc j
    → (i : Info) × (pciedev_get_shapi_module_info k fuel dev info w ≡ some (i, w))
      × (ioctl_shapi_modinfo k (record b { info = i }) false arg w'
          ≡ report k
              (record b { info = i })
              arg
              sizeof_shapi_module_info
              (shapi_module_bytes s reading)
              w')
unfolding ioctl_shapi_modinfo
modinfo-Modules k peek steady dev info b fuel arg reading j w w' ms s new first c enough at request
      asked =
    let (i, e, l, n) = get_shapi_module_info-Modules k peek steady dev info w fuel first c enough in
    let answer =
      among peek (first_base dev.memmory_base) reading [] reading j s c at (omega (arith, asked)) in
    (i, e, rw (request, l, new, answer) refl)

-- The same on a board whose list still holds the modules `olds` of a board that was removed: the
-- driver finds the modules and puts them in front, and the command that asks for a number up to that
-- of the old modules reports the header of the old module, not that of the new one.
pub stale_modinfo :
    (k : Kernel) (peek old_peek : ℕ → ℕ)
    → IsSteady k peek
    → (dev : PciedevDev) (info : Info) (b : Board) (old_base old_first fuel arg reading j : ℕ)
      (w w' : k.World) (ms olds : List ShapiModuleInfo) (s old : ShapiModuleInfo)
    → Modules old_peek old_base 0 old_first olds
    → info.module_list ≡ push_all olds []
    → info.device_info.first_module_address ≢ 0
    → Modules peek (first_base dev.memmory_base) 0 info.device_info.first_module_address ms
    → length ms < fuel
    → get_elem? ms j ≡ some s
    → get_elem? olds j ≡ some old
    → k.copy_from_user arg sizeof_shapi_module_info w' ≡ some reading
    → asked_module reading ≡ suc j
    → (i : Info) × (pciedev_get_shapi_module_info k fuel dev info w ≡ some (i, w))
      × (ioctl_shapi_modinfo k (record b { info = i }) false arg w'
          ≡ report k
              (record b { info = i })
              arg
              sizeof_shapi_module_info
              (shapi_module_bytes old reading)
              w')
unfolding ioctl_shapi_modinfo
stale_modinfo k peek old_peek steady dev info b old_base old_first fuel arg reading j w w' ms olds s
      old c_old kept first c enough at at_old request asked =
    let (i, e, l, n) = get_shapi_module_info-Modules k peek steady dev info w fuel first c enough in
    let answer =
      among peek (first_base dev.memmory_base) reading (push_all olds []) reading j s c at
        (omega (arith, asked)) in
    let old_answer =
      among old_peek old_base reading [] (shapi_module_bytes s reading) j old c_old at_old
        (omega (arith, asked)) in
    (i, e, rw (request, l, kept, answer, old_answer) refl)
