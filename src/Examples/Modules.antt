-- ===== src/Examples/Modules.antt =====
-- Modules in the registers of a SHAPI board, and a user who asks for the second one.
use upciedev.Prelude.{
  ℕ, ◌*◌, ◌^◌, ◌≡◌, refl, ◌||◌, [], ◌∷◌, ◌==◌, if◌then◌else◌, some, false, arith,
}
use upciedev.Kernel.{Kernel}
use upciedev.BoardInfo.{Info, link_address}
use upciedev.BoardInfo.Modules.{pciedev_get_shapi_module_info}
use upciedev.BoardInfo.Modules.Chain.{Modules, ends, link, module_at}
use upciedev.DeviceFile.Ioctl.{ioc_field}
use upciedev.Boards.Init.{no_info, init_board}
use upciedev.Boards.Ioctl.{
  asked_module, shapi_module_bytes, report, sizeof_shapi_module_info, ioctl_shapi_modinfo,
}
use upciedev.Boards.Ioctl.Modinfo.{modinfo-Modules, stale_modinfo}
use upciedev.Examples.DeviceAccess.{board}

-- Modules at 0x1020 and 0x1040 with a link between them, and others on a board that was removed.
abbrev rom : ℕ → ℕ
rom a = if a == 0x1020 || a == 0x1040 then 0x534D0001 else if a == 0x1024 then 0x40 else 0

abbrev old_rom : ℕ → ℕ
old_rom a = if a == 0x1028 || a == 0x1048 then 7 else rom a

abbrev second : ℕ
second = 2 * 2 ^ 544

abbrev steady : Kernel
steady = record {
  World = Unit;
  ioread = λ bits a w. (rom a, w);
  iowrite = λ bits a v w. w;
  copy_to_user = λ a n v w. (false, w);
  copy_from_user = λ a n w. some second;
}

abbrev first_module : ℕ → Info
first_module n = record no_info {
  device_info = record no_info.device_info { first_module_address = n };
}

two-Modules : Modules rom 0x1000 0 0x20 (module_at rom 1 0x1020 ∷ module_at rom 2 0x1040 ∷ [])
unfolding link_address
two-Modules = link (λ e. omega arith) refl (link (λ e. omega arith) refl ends)

old-Modules :
    Modules old_rom 0x1000 0 0x20 (module_at old_rom 1 0x1020 ∷ module_at old_rom 2 0x1040 ∷ [])
unfolding link_address
old-Modules = link (λ e. omega arith) refl (link (λ e. omega arith) refl ends)

modinfo-Modules_example :
    (i : Info) × (pciedev_get_shapi_module_info steady 3 board (first_module 0x20) tt
      ≡ some (i, tt))
    × (ioctl_shapi_modinfo steady (record (init_board 0) { info = i }) false 0 tt
        ≡ report steady
            (record (init_board 0) { info = i })
            0
            sizeof_shapi_module_info
            (shapi_module_bytes (module_at rom 2 0x1040) second)
            tt)
unfolding asked_module ioc_field
modinfo-Modules_example =
    modinfo-Modules steady rom (λ a w. refl) board (first_module 0x20) (init_board 0) 3 0 second 1
      tt tt _ (module_at rom 2 0x1040) refl (λ (e : 0x20 ≡ 0). omega arith) two-Modules
      (omega arith) refl refl refl

-- The list of the board when the old one has been removed.
abbrev kept : Info
kept = record (first_module 0x20) {
  module_list = module_at old_rom 2 0x1040 ∷ module_at old_rom 1 0x1020 ∷ [];
}

stale_modinfo_example :
    (i : Info) × (pciedev_get_shapi_module_info steady 3 board kept tt ≡ some (i, tt))
    × (ioctl_shapi_modinfo steady (record (init_board 0) { info = i }) false 0 tt
        ≡ report steady
            (record (init_board 0) { info = i })
            0
            sizeof_shapi_module_info
            (shapi_module_bytes (module_at old_rom 2 0x1040) second)
            tt)
unfolding asked_module ioc_field
stale_modinfo_example =
    stale_modinfo steady rom old_rom (λ a w. refl) board kept (init_board 0) 0x1000 0x20 3 0 second
      1 tt tt _ _ (module_at rom 2 0x1040) (module_at old_rom 2 0x1040) old-Modules refl
      (λ (e : 0x20 ≡ 0). omega arith) two-Modules (omega arith) refl refl refl refl
