-- ===== src/Examples/BoardIoctl.antt =====
-- A command on a board that has a card and an open file.
use upciedev.Prelude.{refl, true}
use upciedev.Boards.Init.{init_board}
use upciedev.Boards.Files.{pciedev_open_exp}
use upciedev.Boards.Probe.{pciedev_probe_exp}
use upciedev.Boards.Ioctl.{set_bits, Versions, Junk, pciedev_ioctl_exp}
use upciedev.Boards.Ioctl.Mutex.{Frees, pciedev_ioctl_exp-Frees}
use upciedev.Examples.DeviceAccess.{memory}
use upciedev.Examples.BoardTable.{registers, with_file, board_at}

abbrev pub versions : Versions
versions = record { drv_ver_maj = 2; drv_ver_min = 1; upciedev_ver_maj = 3; upciedev_ver_min = 0 }

abbrev pub junk : Junk
junk = record {
  reads = λ i. 0;
  writes = 0;
  answers = record { offset = 0; data_word = 0; cmd = 0; reserved = 0 };
  pad = 0;
}

-- A user sets bits of a register of the card.
pciedev_ioctl_exp-Frees_example :
    Frees
      (pciedev_ioctl_exp memory (board_at 0 with_file) versions junk 60 true set_bits 4 registers).0
unfolding pciedev_probe_exp pciedev_open_exp init_board
pciedev_ioctl_exp-Frees_example =
    pciedev_ioctl_exp-Frees memory (board_at 0 with_file) versions junk 60 true set_bits 4 registers
      refl (λ e. cc)
