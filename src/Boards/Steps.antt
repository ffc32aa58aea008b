-- ===== src/Boards/Steps.antt =====
-- The driver between two calls: which calls the kernel makes, and the states that they lead to.
use upciedev.Prelude.{ℕ, ◌≡◌, Bool, Option, none, some, ℤ, get_elem?}
use upciedev.Kernel.{Kernel}
use upciedev.DeviceFile.{completed, pciedev_read_exp, pciedev_write_exp}
use upciedev.Device.{PciedevDev}
use upciedev.Boards.{File, Board, Driver, returned, assign, put_board}
use upciedev.Boards.Init.{ready, upciedev_init_module_exp}
use upciedev.Boards.Files.{pciedev_open_exp, pciedev_release_exp}
use upciedev.Boards.Probe.{PciDevice, pciedev_probe_exp}
use upciedev.Boards.Remove.{pciedev_remove_exp}
use upciedev.Boards.Ioctl.{Command, Versions, Junk, pciedev_ioctl_exp}
use upciedev.Boards.Interrupts.{pciedev_setup_interrupt}
use upciedev.Boards.Queries.{pciedev_set_drvdata}

-- What the kernel does itself: it forgets a file that has been closed, and the driver data of a
-- device that has been removed.
abbrev pub forget_file : ℕ → Driver → Driver
forget_file filp d = record d { open_files = assign filp none d.open_files }

abbrev pub forget_device : ℕ → Driver → Driver
forget_device p d = record d { drvdata = assign p none d.drvdata }

module _ (k : Kernel) where
  open k use {World}

  -- A call that returns. A file that is opened was not open, and a device that is probed has no
  -- driver data; the devices change as they like between two calls.
  pub data Step (d d' : Driver) : Type 0 where
    opens :
        (i filp : ℕ) (kzalloc : Bool) (r : ℤ)
        → d.open_files filp ≡ none
        → pciedev_open_exp i filp kzalloc d ≡ returned r d'
        → Step d d'
    closes :
        (filp : ℕ) (r : ℤ) (e : Driver)
        → pciedev_release_exp filp d ≡ returned r e
        → d' ≡ forget_file filp e
        → Step d d'
    probes :
        (fuel : ℕ) (pci : PciDevice) (parent m : ℕ) (r : ℤ) (w w' : World)
        → d.drvdata pci.id ≡ none
        → pciedev_probe_exp k fuel pci parent d w ≡ returned r (d', m, w')
        → Step d d'
    removes :
        (p : ℕ) (r : ℤ) (e : Driver) (slot : Option ℕ)
        → pciedev_remove_exp p d ≡ returned r (e, slot)
        → d' ≡ forget_device p e
        → Step d d'
    reads :
        (filp : ℕ) (file : File) (b : Board) (junk : ℕ → ℕ) (position f_pos buf count : ℕ) (r : ℤ)
        (held : Bool) (w w' : World)
        → d.open_files filp ≡ some file
        → get_elem? d.boards file.private_data ≡ some b
        → pciedev_read_exp k b.dev junk b.dev_mut position f_pos buf count w ≡ completed r held w'
        → d' ≡ put_board file.private_data (record b { dev_mut = held }) d
        → Step d d'
    writes :
        (filp : ℕ) (file : File) (b : Board) (junk position f_pos buf count : ℕ) (r : ℤ)
        (held : Bool) (w w' : World)
        → d.open_files filp ≡ some file
        → get_elem? d.boards file.private_data ≡ some b
        → pciedev_write_exp k b.dev junk b.dev_mut position f_pos buf count w ≡ completed r held w'
        → d' ≡ put_board file.private_data (record b { dev_mut = held }) d
        → Step d d'
    commands :
        (filp : ℕ) (file : File) (b : Board) (versions : Versions) (junk : Junk) (slot_command : ℕ)
        (accessible : Bool) (command : Command) (arg : ℕ) (dev : PciedevDev) (r : ℤ) (held : Bool)
        (w w' : World)
        → d.open_files filp ≡ some file
        → get_elem? d.boards file.private_data ≡ some b
        → pciedev_ioctl_exp k b versions junk slot_command accessible command arg w
          ≡ (completed r held w', dev)
        → d' ≡ put_board file.private_data (record b { dev = dev; dev_mut = held }) d
        → Step d d'
    sets_up_interrupt :
        (i num : ℕ) (b b' : Board) (request_irq : ℕ → ℤ) (r : ℤ)
        → get_elem? d.boards i ≡ some b
        → pciedev_setup_interrupt request_irq num b ≡ returned r b'
        → d' ≡ put_board i b' d
        → Step d d'
    stores :
        (board : Option ℕ) (data_address : ℕ) (r : ℤ)
        → pciedev_set_drvdata board data_address d ≡ returned r d'
        → Step d d'

  -- The states that a driver can come to from its start.
  pub data Reach : Driver → Type 0 where
    starts :
        (kzalloc : ℕ → Bool) (cdev_add : ℕ → ℤ) {d : Driver}
        → upciedev_init_module_exp kzalloc cdev_add ≡ ready d
        → Reach d
    next : {d d' : Driver} → Reach d → Step d d' → Reach d'

  -- Any number of calls.
  pub data Steps (d : Driver) : Driver → Type 0 where
    stays : Steps d d
    then_step : {e e' : Driver} → Steps d e → Step e e' → Steps d e'
