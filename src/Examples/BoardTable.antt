-- ===== src/Examples/BoardTable.antt =====
-- The table of boards: a card is attached to a board, a file is opened on it, and the card is removed.
use upciedev.Prelude.{
  ℕ, zero, suc, ◌+◌, ◌*◌, ◌^◌, ◌≤◌, ◌≡◌, refl, ap, Bool, true, false, List, [], ◌∷◌, map, none,
  some, ℤ, pos, ◌==◌, get_elem?, set, ◌⊎◌, inl, inr, Bool-cases, if◌then◌else◌, arith,
}
use upciedev.Kernel.{enodev, efault}
use upciedev.Device.{PciedevDev}
use upciedev.BoardInfo.{Info, first_base}
use upciedev.BoardInfo.Board.{pciedev_get_brdinfo, board_info}
use upciedev.DeviceFile.{completed, pciedev_read_exp, pciedev_write_exp, decode_request}
use upciedev.Boards.{Board, Driver, Run, returned, blocked, undefined, out_of_fuel}
use upciedev.Boards.Init.{init_board, init_boards, driver_with, upciedev_init_module_exp}
use upciedev.Boards.Files.{pciedev_open_exp, pciedev_release_exp}
use upciedev.Boards.Probe.{PciDevice, slot_number, pciedev_probe_exp}
use upciedev.Boards.Remove.{pciedev_remove_exp}
use upciedev.Boards.Steps.{forget_file, forget_device, opens, probes, Reach, starts, next}
use upciedev.Boards.Consistent.{IsBoard, IsConsistent}
use upciedev.Boards.Kept.OnStart.{init_board-IsBoard}
use upciedev.Boards.Reached.{Reach-IsConsistent}
use upciedev.Boards.Removal.{HandedOver, remove_hands_over, removed_files_refuse}
use upciedev.Boards.Binding.{
  IsWorking, IsBound, set_up, probe_full, probe_takes_first, probe-remove,
}
use upciedev.Boards.Closing.{release-open, read_open_file}
use upciedev.Examples.DeviceAccess.{Memory, memory}

-- A board of DESY with a project, mapped at 0x1000, in slot 3.
abbrev pub card : PciDevice
card = record {
  id = 5;
  enabled = pos 0;
  regions = pos 0;
  devfn = 0x18;
  bus_number = 2;
  slot_cap = 3 * 2 ^ 19;
  parent_slot_cap = 0;
  resource_start = λ i. if i == 0 then 0x100 else 0;
  resource_end = λ i. if i == 0 then 0x10f else 0;
  resource_flags = λ i. 0;
  iomap = λ i size. 0x1000;
  takes_dma_mask = λ bits. true;
  takes_consistent_dma_mask = λ bits. true;
  identity = (init_board 0).identity;
  irq_vectors = pos 1;
  irq = 17;
}

abbrev pub registers : Memory
registers a =
    if a == 0x1000
    then 0x424F5244
    else if a == 0x1018
    then 0x20
    else if a == 0x1020
    then 0x50524F4A
    else 0

abbrev pub started : Driver
started =
    driver_with
      (map init_board (0 ∷ 1 ∷ 2 ∷ 3 ∷ 4 ∷ 5 ∷ 6 ∷ 7 ∷ 8 ∷ 9 ∷ 10 ∷ 11 ∷ 12 ∷ 13 ∷ 14 ∷ 15 ∷ []))

abbrev the_driver : {A : Type 0} → (A → Driver) → Run A → Driver
the_driver f (returned r a) = f a
the_driver f blocked = started
the_driver f undefined = started
the_driver f out_of_fuel = started

abbrev pub with_card : Driver
with_card = the_driver (λ t. t.0) (pciedev_probe_exp memory 2 card 0 started registers)

abbrev pub with_file : Driver
with_file = the_driver (λ t. t) (pciedev_open_exp 0 7 true with_card)

with_file-Reach : Reach memory with_file
unfolding upciedev_init_module_exp init_boards init_board pciedev_probe_exp pciedev_open_exp
with_file-Reach =
    next {d = with_card}
      (next {d = started} (starts (λ i. true) (λ i. pos 0) {d = started} refl)
        (probes 2 card 0 0 (pos 0) registers registers refl refl))
      (opens 0 7 true (pos 0) refl refl)

Reach-IsConsistent_example : IsConsistent with_file
Reach-IsConsistent_example = Reach-IsConsistent memory with_file-Reach

-- Board 0 with the card and the file.
abbrev pub board_at : ℕ → Driver → Board
board_at i d = elim (get_elem? d.boards i) [ none ↦ init_board i | some b ↦ b ]

with_file-IsConsistent : IsConsistent with_file
with_file-IsConsistent = Reach-IsConsistent memory with_file-Reach

remove_hands_over_example :
    (e : Driver) × (pciedev_remove_exp 5 with_file ≡ returned (pos 0) (e, some 3))
    × HandedOver with_file e 0
unfolding pciedev_probe_exp pciedev_open_exp init_board
remove_hands_over_example =
    remove_hands_over with_file 5 0 (board_at 0 with_file) with_file-IsConsistent refl refl refl

abbrev without_card : Driver
without_card = the_driver (λ t. t.0) (pciedev_remove_exp 5 with_file)

removed_files_refuse_example :
    (null : Board) × (without_card.open_files 7 ≡ some (record { private_data = 15; f_pos = 7 }))
    × (get_elem? without_card.boards 15 ≡ some null)
    × ((junk : ℕ → ℕ) (held : Bool) (position f_pos buf count : ℕ) (w : Memory)
        → (pciedev_read_exp memory null.dev junk held position f_pos buf count w
            ≡ completed enodev held w)
          × (pciedev_write_exp memory null.dev (junk 0) held position f_pos buf count w
              ≡ completed efault held w))
unfolding pciedev_probe_exp pciedev_open_exp pciedev_remove_exp init_board
removed_files_refuse_example =
    removed_files_refuse memory with_file without_card 5 0 7
      (record { private_data = 0; f_pos = 7 }) (some 3) (pos 0) with_file-IsConsistent refl refl
      refl refl

release-open_example :
    (d1 d2 : Driver) × (pciedev_open_exp 0 9 true with_file ≡ returned (pos 0) d1)
    × (pciedev_release_exp 9 d1 ≡ returned (pos 0) d2)
    × (d2.boards ≡ set with_file.boards 0 (record (board_at 0 with_file) { dev_minor = 0 }))
    × ((g : ℕ) → (forget_file 9 d2).open_files g ≡ with_file.open_files g)
unfolding pciedev_probe_exp pciedev_open_exp init_board
release-open_example =
    release-open with_file 0 9 (board_at 0 with_file) with_file-IsConsistent (omega arith) refl refl
      refl

read_open_file_example :
    (r : ℤ) × (w' : Memory) × (pciedev_read_exp memory
        (board_at 0 with_file).dev
        (λ i. 0)
        false
        7
        0
        0
        0
        registers
      ≡ completed r false w')
    × ((r ≡ enodev) ⊎ (r ≡ pos 24))
unfolding pciedev_probe_exp pciedev_open_exp init_board decode_request
read_open_file_example =
    read_open_file memory with_file 7 (record { private_data = 0; f_pos = 7 })
      (board_at 0 with_file) (λ i. 0) 7 0 0 0 registers
      (record { reg_size = 0; bar = 0; offset = 0; user_buf = 4; count = 1 }) with_file-Reach refl
      refl refl (omega arith) refl (omega arith)

-- A card whose registers are all 0: neither a board of DESY nor a SHAPI board.
abbrev zeros : Memory
zeros a = 0

zeros-says :
    (dev : PciedevDev) (info : Info)
    → (t : PciedevDev × Info × Memory) × (board_info memory 0 dev info zeros ≡ some t)
unfolding board_info pciedev_get_brdinfo
zeros-says dev info = (
  (dev, record info { startup_brd = false; shapi_brd = false; shapi_module_num = 0 }, zeros),
  elim (Bool-cases (first_base dev.memmory_base == 0)) [
    | inl unmapped ↦ rw unmapped refl
    | inr mapped ↦ rw mapped refl
  ],
)

card-IsWorking : IsWorking memory 0 card 0 zeros
unfolding slot_number
card-IsWorking = record {
  enables = refl;
  regions = refl;
  slot = omega arith;
  says = λ b bars info device. zeros-says (set_up memory 0 card 3 b bars).dev info;
}

-- The second card takes the first board that is not bound, and one that follows the first card takes
-- its board.
probe_takes_first_example :
    (e : Driver) × (m : ℕ) × (w' : Memory) × (pciedev_probe_exp memory 0 card 0 with_file zeros
      ≡ returned (pos 0) (e, m, w'))
    × (m ≤ 4)
    × IsBound memory 0 card with_file e m
unfolding pciedev_probe_exp pciedev_open_exp init_board
probe_takes_first_example =
    probe_takes_first memory 0 card with_file 0 4 (board_at 4 with_file) zeros
      with_file-IsConsistent card-IsWorking refl refl

probe-remove_example :
    (e e' : Driver) × (m : ℕ) × (w' : Memory) × (pciedev_remove_exp 5 with_file
      ≡ returned (pos 0) (e, some 3))
    × (pciedev_probe_exp memory 0 card 0 (forget_device 5 e) zeros ≡ returned (pos 0) (e', m, w'))
    × (m ≤ 0)
    × IsBound memory 0 card (forget_device 5 e) e' m
unfolding pciedev_probe_exp pciedev_open_exp init_board
probe-remove_example =
    probe-remove memory 0 card with_file 5 0 0 (board_at 0 with_file) zeros with_file-IsConsistent
      refl refl refl card-IsWorking

-- All boards are bound, after cards that the kernel has refused to enable.
abbrev bound_board : ℕ → Board
bound_board i = record (init_board i) { binded = true }

bound_board-IsBoard : (i : ℕ) → IsBoard (λ f. none) i (bound_board i)
unfolding init_board
bound_board-IsBoard i =
    let h = init_board-IsBoard i in
    record {
      device = h.device;
      number = refl;
      bound = λ e. refl;
      in_slot = h.in_slot;
      unmapped = h.unmapped;
      listed = h.listed;
      counted = h.counted;
      null = λ last. (refl, (h.null last).1, refl);
    }

abbrev bound_boards : ℕ → ℕ → List Board
bound_boards zero i = []
bound_boards (suc n) i = bound_board i ∷ bound_boards n (suc i)

bound_boards-bound :
    (n i j m : ℕ) (b : Board)
    → i + j ≡ m
    → get_elem? (bound_boards n i) j ≡ some b
    → b ≡ bound_board m
bound_boards-bound zero i j m b h e = cc
bound_boards-bound (suc n) i zero m b h e = let same : i ≡ m = omega arith in rw (← same) cc
bound_boards-bound (suc n) i (suc j) m b h e = bound_boards-bound n (suc i) j m b (omega arith) e

abbrev full : Driver
full = driver_with (bound_boards 16 0)

full-IsConsistent : IsConsistent full
unfolding init_board
full-IsConsistent = record {
  size = refl;
  slots = refl;
  boards = λ i b at. rw (bound_boards-bound 16 0 i i b (omega arith) at) (bound_board-IsBoard i);
  attached = λ p i e. cc;
  owned = λ filp file e. cc;
}

probe_full_example : pciedev_probe_exp memory 0 card 0 full zeros ≡ undefined
probe_full_example =
    probe_full memory 0 card full 0 zeros full-IsConsistent
      (λ j b at. ap (λ (x : Board). x.binded) (bound_boards-bound 16 0 j j b (omega arith) at))
