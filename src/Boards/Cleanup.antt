-- ===== src/Boards/Cleanup.antt =====
-- The end of the driver: upciedev_cleanup_module_exp (pciedev_ufn.c).
use upciedev.Prelude.{ℕ, suc, ◌+◌, List, [], ◌∷◌, ◌++◌}
use upciedev.Boards.{pciedev_nr_devs, Board, Driver}

-- What is given back to the kernel: the device numbers, how many, the class, the device file of a
-- board, the memory of a board, and that of the table.
pub data Freed : Type 0 where
  chrdev_region : (count : ℕ) → Freed
  class : Freed
  cdev : (k : ℕ) → Freed
  board : (k : ℕ) → Freed
  table : Freed

-- The loop over the boards, from board `k` on.
unfoldable pub cleanup_boards : ℕ → List Board → List Freed
cleanup_boards k [] = []
cleanup_boards k (b ∷ bs) = cdev k ∷ board k ∷ cleanup_boards (suc k) bs

unfoldable pub upciedev_cleanup_module_exp : Driver → List Freed
unfolding cleanup_boards
upciedev_cleanup_module_exp d =
    chrdev_region (pciedev_nr_devs + 1) ∷ class ∷ cleanup_boards 0 d.boards ++ (table ∷ [])
