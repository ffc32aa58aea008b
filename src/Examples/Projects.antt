-- ===== src/Examples/Projects.antt =====
-- Projects in the registers of a board.
use upciedev.Prelude.{ℕ, ◌≡◌, refl, ◌||◌, [], ◌∷◌, ◌==◌, if◌then◌else◌, none, some, false, arith}
use upciedev.Kernel.{Kernel}
use upciedev.Device.{PciedevDev}
use upciedev.BoardInfo.{Info, link_address, ascii_proj_magic_num}
use upciedev.BoardInfo.Prj.{pciedev_get_prjinfo}
use upciedev.BoardInfo.Prj.Chain.{
  IsEndless, Projects, ends, link, project_at, get_prjinfo-Projects, get_prjinfo_endless,
}
use upciedev.Boards.Init.{no_info}
use upciedev.Examples.DeviceAccess.{board}

-- Projects at 0x1020 and 0x1040 with a link between them, one at 0x1060 that names itself, and one
-- in a BAR at 0x2000 that names a next one.
abbrev rom : ℕ → ℕ
rom a =
    if a == 0x1020 || a == 0x1040 || a == 0x1060 || a == 0x2000
    then ascii_proj_magic_num
    else if a == 0x1038
    then 0x40
    else if a == 0x1078
    then 0x60
    else if a == 0x2018
    then 8
    else 0

-- A device of these registers.
abbrev steady : Kernel
steady = record {
  World = Unit;
  ioread = λ bits a w. (rom a, w);
  iowrite = λ bits a v w. w;
  copy_to_user = λ a n v w. (false, w);
  copy_from_user = λ a n w. some a;
}

abbrev first_project : ℕ → Info
first_project n = record no_info { brd_info = record no_info.brd_info { proj_next = n } }

two-Projects : Projects rom 0x1000 0x20 (project_at rom 0x1020 ∷ project_at rom 0x1040 ∷ [])
unfolding link_address
two-Projects = link (λ e. omega arith) refl (link (λ e. omega arith) refl ends)

abbrev two_bars : PciedevDev
two_bars = record board { memmory_base = 0x1000 ∷ 0x2000 ∷ 0 ∷ 0 ∷ 0 ∷ 0 ∷ [] }

get_prjinfo-Projects_example :
    (i : Info) × (pciedev_get_prjinfo steady 3 board (first_project 0x20) tt ≡ some (i, tt))
    × (i.prj_list ≡ project_at rom 0x1040 ∷ project_at rom 0x1020 ∷ [])
    × (i.startup_prj_num ≡ 2)
get_prjinfo-Projects_example =
    get_prjinfo-Projects steady rom (λ a w. refl) board (first_project 0x20) tt 3
      (λ (e : 0x20 ≡ 0). omega arith) two-Projects (omega arith)

only_self : IsEndless rom 0x1000 (λ n. n ≡ 0x60)
unfolding link_address
only_self next e = (λ z. omega arith, rw e refl, rw e refl)

get_prjinfo_endless_example : pciedev_get_prjinfo steady 100 board (first_project 0x60) tt ≡ none
get_prjinfo_endless_example =
    get_prjinfo_endless steady rom (λ a w. refl) board (λ n. n ≡ 0x60) only_self
      (first_project 0x60) refl 100 tt
