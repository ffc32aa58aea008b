-- ===== src/Examples/Resources.antt =====
-- The memory and the interrupts of a board.
use upciedev.Prelude.{
  ℕ, ◌+◌, ◌*◌, ◌^◌, ◌≤◌, ◌<◌, ◌≡◌, refl, false, List, [], ◌∷◌, some, ℤ, pos, negsuc, arith,
}
use upciedev.Device.{PciedevDev, IsDevice}
use upciedev.Boards.{Board, returned}
use upciedev.Boards.Init.{init_board}
use upciedev.Boards.Probe.{slot_number, pciedev_probe_exp}
use upciedev.Boards.Mmap.{
  VmArea, Mapping, pciedev_remap_mmap_exp, mmap_in_bar, mmap_behind_small_bar,
}
use upciedev.Boards.Interrupts.{
  setups, freed_lines, lines, has_got, granted_lines_freed, refused_line_keeps_others,
}
use upciedev.Boards.Queries.{DevicePhysAddress, pciedev_get_slot_pciedevp}
use upciedev.Boards.Queries.Probed.{slot_query-probe}
use upciedev.Examples.DeviceAccess.{board, board-IsDevice, memory}
use upciedev.Examples.BoardTable.{card, started, with_card, registers}

-- BAR 0 has 64 KB, BAR 1 has 256 bytes.
abbrev dev : PciedevDev
dev = record board {
  mem_base = 0x10000 ∷ 0x20000 ∷ 0 ∷ 0 ∷ 0 ∷ 0 ∷ [];
  mem_base_end = 0x1ffff ∷ 0x200ff ∷ 0 ∷ 0 ∷ 0 ∷ 0 ∷ [];
}

dev-IsDevice : IsDevice dev
dev-IsDevice = record {
  starts = refl;
  ends = refl;
  mapped = refl;
  known_size = board-IsDevice.known_size;
}

-- Two pages of a BAR.
abbrev two_pages : ℕ → VmArea
two_pages bar = record { vm_start = 0x7000; vm_end = 0x9000; vm_pgoff = bar }

mmap_in_bar_example :
    (0x10 * 2 ^ 12 ≡ 0x10000) × ◌≡◌ {A = ℕ} 0x2000 0x2000 × (0x10 * 2 ^ 12 + 0x2000 ≤ 0x1ffff)
unfolding pciedev_remap_mmap_exp
mmap_in_bar_example =
    mmap_in_bar 12 (λ m. false) dev (two_pages 0) 0x10000 0x1ffff 0x2000
      (record { address = 0x7000; page = 0x10; size = 0x2000 }) dev-IsDevice refl refl refl
      (omega arith) refl (omega arith) (omega arith) refl

mmap_behind_small_bar_example :
    (m : Mapping) × (pciedev_remap_mmap_exp 12 (λ m. false) dev (two_pages 1)
      ≡ returned (pos 0) (some m))
    × (m.page * 2 ^ 12 ≡ 0x20000)
    × (m.size ≡ 0x2000)
    × (0x20100 < m.page * 2 ^ 12 + m.size)
mmap_behind_small_bar_example =
    mmap_behind_small_bar 12 (λ m. false) dev (two_pages 1) 0x20000 0x200ff 0x2000 dev-IsDevice refl
      refl refl (omega arith) refl (omega arith) (omega arith) (omega arith) (omega arith)
      (omega arith) (λ m. refl)

-- Lines 0 and 3 are granted, and line 2 is refused in between or last.
granted_lines_freed_example :
    let all : List (ℕ × ℤ) = (0, pos 0) ∷ (2, negsuc 15) ∷ (3, pos 0) ∷ [] in
    (b : Board) × (setups all (init_board 0) ≡ returned (pos 0) b)
    × (freed_lines b ≡ lines (λ i. has_got i all) (init_board 0) 32 0)
unfolding init_board
granted_lines_freed_example =
    granted_lines_freed ((0, pos 0) ∷ (2, negsuc 15) ∷ []) 3 (init_board 0)
      (omega arith, (omega arith, (omega arith, tt))) refl

refused_line_keeps_others_example :
    (b : Board) × (setups ((0, pos 0) ∷ (2, negsuc 15) ∷ []) (init_board 0) ≡ returned (pos 0) b)
    × (freed_lines b ≡ [])
refused_line_keeps_others_example =
    refused_line_keeps_others ((0, pos 0) ∷ []) 2 (negsuc 15) (init_board 0)
      (omega arith, (omega arith, tt)) refl

-- What slot 3 holds after the probe of the card.
abbrev query : DevicePhysAddress
query = record {
  slot = 3;
  bar = 0;
  offset = 0;
  phs_address = 0;
  phs_end = 0;
  phs_flag = 0;
  reserved = 0;
  sts = 0;
}

slot_query-probe_example :
    pciedev_get_slot_pciedevp query with_card
    ≡ returned (pos 1) (record {
      slot = 3;
      bar = 0;
      offset = 2;
      phs_address = 0x100;
      phs_end = 0x10f;
      phs_flag = 0;
      reserved = 3;
      sts = 1;
    })
unfolding pciedev_probe_exp slot_number init_board
slot_query-probe_example =
    slot_query-probe memory 2 card started with_card 0 0 registers registers _ query refl refl refl
      (λ e. omega arith) (omega arith) (λ e. omega arith) refl
