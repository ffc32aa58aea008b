-- ===== src/Boards/Information.antt =====
-- Board information leaves the BARs of a device alone (pciedev_get_brdinfo of pciedev_ufn.c).
use upciedev.Prelude.{ℕ, ◌≡◌, Option, none, some, ◌==◌, if◌then◌else◌, if-both, arith}
use upciedev.Device.{PciedevDev}
use upciedev.Kernel.{Kernel}
use upciedev.BoardInfo.{Info, with_device}
use upciedev.BoardInfo.Prj.{pciedev_get_prjinfo}
use upciedev.BoardInfo.Modules.{pciedev_get_shapi_module_info}
use upciedev.BoardInfo.Board.{pciedev_get_brdinfo, board_info}
use upciedev.Boards.{}
use upciedev.Boards.Files.{}
use upciedev.Boards.Probe.{}
use upciedev.Boards.Remove.{}

-- Board information leaves the BARs of the device alone.
abbrev pub SameBars : PciedevDev → PciedevDev → Type 0
SameBars a b =
    (b.mem_base ≡ a.mem_base)
    × (b.mem_base_end ≡ a.mem_base_end)
    × (b.memmory_base ≡ a.memmory_base)

module _ (k : Kernel) where
  open k use {World}

  abbrev InfoSameBars : PciedevDev → Option (PciedevDev × Info × World) → Type 0
  InfoSameBars dev none = Unit
  InfoSameBars dev (some (dev', info, w)) = SameBars dev dev'

  brdinfo-SameBars :
      (dev : PciedevDev) (info : Info) (w : World)
      → SameBars dev (pciedev_get_brdinfo k dev info w).1
  unfolding pciedev_get_brdinfo
  brdinfo-SameBars dev info w = (ground arith, ground arith, ground arith)

  with_device-SameBars :
      (dev dev' : PciedevDev) (o : Option (Info × World))
      → SameBars dev dev'
      → InfoSameBars dev (with_device dev' o)
  with_device-SameBars dev dev' none h = tt
  with_device-SameBars dev dev' (some (info, w)) h = h

  board_info-SameBars :
      (fuel : ℕ) (dev : PciedevDev) (info : Info) (w : World)
      → InfoSameBars dev (board_info k fuel dev info w)
  unfolding board_info
  board_info-SameBars fuel dev info w =
      let same = brdinfo-SameBars dev info w in
      let (kind, dev', info', w') = pciedev_get_brdinfo k dev info w in
      if-both (InfoSameBars dev) (kind == 1)
        {x = with_device dev' (pciedev_get_prjinfo k fuel dev' info' w')}
        {y = if kind == 2
          then with_device dev' (pciedev_get_shapi_module_info k fuel dev' info' w')
          else some (dev', info', w')}
        (with_device-SameBars dev dev' (pciedev_get_prjinfo k fuel dev' info' w') same)
        (if-both (InfoSameBars dev) (kind == 2)
          {x = with_device dev' (pciedev_get_shapi_module_info k fuel dev' info' w')}
          {y = some (dev', info', w')}
          (with_device-SameBars dev dev' (pciedev_get_shapi_module_info k fuel dev' info' w') same)
          same)

  pub board_info-bars :
      (fuel : ℕ) (dev dev' : PciedevDev) (info info' : Info) (w w' : World)
      → board_info k fuel dev info w ≡ some (dev', info', w')
      → SameBars dev dev'
  board_info-bars fuel dev dev' info info' w w' e = rw e at (board_info-SameBars fuel dev info w)
