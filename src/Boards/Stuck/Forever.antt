-- ===== src/Boards/Stuck/Forever.antt =====
-- What leaves the mutex of a board held for ever (pciedev_rw_exp.c and pciedev_ioctl_exp.c).
use upciedev.Prelude.{ℕ, ◌≡◌, Bool, true, some, get_elem?, if◌then◌else◌}
use upciedev.Kernel.{Kernel, enodev, efault}
use upciedev.DeviceFile.{FileRun, completed, pciedev_read_exp, pciedev_write_exp}
use upciedev.Boards.{File, Board, Driver}
use upciedev.Boards.Files.{pciedev_open_exp, pciedev_release_exp}
use upciedev.Boards.Steps.{Steps}

module _ (k : Kernel) where
  open k use {World, copy_from_user}

  -- The board `h` is out of reach: opening and closing its files waits, and so does every read and
  -- write, but that it fails at once where the device has gone.
  pub record IsStuck (h : ℕ) (d : Driver) : Type 0 where
    pub board : Board
    pub in_table : get_elem? d.boards h ≡ some board
    pub opening :
        (filp : ℕ) (kzalloc : Bool) → pciedev_open_exp h filp kzalloc d ≡ upciedev.Boards.blocked
    pub closing :
        (filp : ℕ) (file : File)
        → d.open_files filp ≡ some file
        → file.private_data ≡ h
        → pciedev_release_exp filp d ≡ upciedev.Boards.blocked
    pub reading :
        (junk : ℕ → ℕ) (position f_pos buf count : ℕ) (w : World)
        → pciedev_read_exp k board.dev junk board.dev_mut position f_pos buf count w
          ≡ (if board.dev.dev_sts then upciedev.DeviceFile.blocked else completed enodev true w)
    pub writing :
        (junk position f_pos buf count : ℕ) (w : World)
        → pciedev_write_exp k board.dev junk board.dev_mut position f_pos buf count w
          ≡ (if board.dev.dev_sts then upciedev.DeviceFile.blocked else completed efault true w)
