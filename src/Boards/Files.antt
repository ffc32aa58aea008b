-- ===== src/Boards/Files.antt =====
-- Opening and closing the file of a board: pciedev_open_exp and pciedev_release_exp (pciedev_ufn.c).
use upciedev.Prelude.{ℕ, Bool, List, [], ◌∷◌, none, some, pos, ◌==◌, set, if◌then◌else◌}
use upciedev.DeviceFile.{pcied_fpos}
use upciedev.Boards.{
  Board, Driver, Run, returned, blocked, undefined, assign, increment, decrement, with_board,
  put_board,
}

-- What both functions write, with the board `b` at index `i`.
abbrev pub opened : ℕ → ℕ → Board → Driver → Driver
opened i filp b d = record d {
  boards =
      set d.boards i (record b {
        dev_minor = i;
        dev_file_ref = increment b.dev_file_ref;
        files = filp ∷ b.files;
      });
  open_files = assign filp (some (record { private_data = i; f_pos = pcied_fpos })) d.open_files;
}

-- The entries of other files.
unfoldable pub without : ℕ → List ℕ → List ℕ
without filp [] = []
without filp (f ∷ fs) = let rest = without filp fs in if f == filp then rest else f ∷ rest

abbrev pub released : ℕ → ℕ → Board → Driver → Driver
released i filp b d =
    put_board i (record b { dev_file_ref = decrement b.dev_file_ref; files = without filp b.files })
      d

-- The file `filp` is opened on board `i`; `kzalloc` is whether there is memory for its entry.
unfoldable pub pciedev_open_exp : ℕ → ℕ → Bool → Driver → Run Driver
pciedev_open_exp i filp kzalloc d = with_board d i λ b.
    if b.dev_mut
    then blocked
    else if kzalloc
    then returned (pos 0) (opened i filp b d)
    else undefined

unfoldable pub pciedev_release_exp : ℕ → Driver → Run Driver
unfolding without
pciedev_release_exp filp d = elim (d.open_files filp) [
  | none ↦ undefined
  | some file ↦
      with_board d file.private_data
        λ b. if b.dev_mut then blocked else returned (pos 0) (released file.private_data filp b d)
]
