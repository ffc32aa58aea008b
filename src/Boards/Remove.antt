-- ===== src/Boards/Remove.antt =====
-- A device is taken away from its board: pciedev_remove_exp (pciedev_remove_exp.c).
use upciedev.Prelude.{
  ℕ, zero, suc, false, List, [], ◌∷◌, Option, none, some, ℤ, pos, ◌==◌, get_elem?, set,
  if◌then◌else◌,
}
use upciedev.Device.{number_of_bars}
use upciedev.BoardInfo.{}
use upciedev.Boards.{
  pciedev_nr_devs, File, Board, Driver, Run, returned, blocked, undefined, assign, increment,
  decrement, with_board, put_board,
}
use upciedev.Boards.Init.{empty_slot}

-- One round of the loop over the BARs.
unfoldable pub unmap_bar : ℕ → Board → Board
unmap_bar i b = elim (get_elem? b.dev.memmory_base i) [
  | none ↦ b
  | some address ↦ if address == 0 then b else record b {
    dev = record b.dev {
      memmory_base = set b.dev.memmory_base i 0;
      mem_base = set b.dev.mem_base i 0;
      mem_base_end = set b.dev.mem_base_end i 0;
    };
    mem_base_flag = set b.mem_base_flag i 0;
    rw_off = set b.rw_off i 0;
  }
]

unfoldable pub unmap_bars : ℕ → ℕ → Board → Board
unfolding unmap_bar
unmap_bars zero i b = b
unmap_bars (suc n) i b = unmap_bars n (suc i) (unmap_bar i b)

-- The file now belongs to the null device.
abbrev pub redirect_file : Option File → Option File
redirect_file none = none
redirect_file (some file) = some (record file { private_data = pciedev_nr_devs })

-- The loop over the files that are open on the board, with the null device's count of files.
unfoldable pub redirect : List ℕ → ℤ → (ℕ → Option File) → ℤ × (ℕ → Option File)
redirect [] count open_files = (count, open_files)
redirect (filp ∷ files) count open_files =
    redirect files (increment count) (assign filp (redirect_file (open_files filp)) open_files)

-- The board when its device has gone.
unfoldable pub absent : Board → Board
unfolding unmap_bars
absent b =
    let unmapped = unmap_bars number_of_bars 0 b in
    record unmapped {
      dev = record unmapped.dev { dev_sts = false };
      info = record b.info { prj_list = [] };
      binded = false;
      files = [];
    }

-- What the function writes: `b` is the board at index `i`, and `null` the null device.
abbrev pub removed : ℕ → Board → Board → Driver → Driver
removed i b null d =
    let (count, open_files) = redirect b.files null.dev_file_ref d.open_files in
    record d {
      boards =
          set (set d.boards i (absent b)) pciedev_nr_devs (record null { dev_file_ref = count });
      dev_phys_addresses = set d.dev_phys_addresses b.slot_num empty_slot;
      module_num = decrement d.module_num;
      open_files = open_files;
    }

-- The result comes with what is stored in `*brd_num`, if anything.
unfoldable pub pciedev_remove_exp : ℕ → Driver → Run (Driver × Option ℕ)
unfolding absent redirect
pciedev_remove_exp pci d = elim (d.drvdata pci) [
  | none ↦ returned (pos 0) (d, none)
  | some i ↦ with_board d i λ b. elim (get_elem? d.dev_phys_addresses b.slot_num) [
    | none ↦ undefined
    | some phys ↦
        if b.dev_mut
        then blocked
        else with_board (put_board i (absent b) d) pciedev_nr_devs
            λ null. returned (pos 0) (removed i b null d, some b.slot_num)
  ]
]
