-- ===== src/Boards/Kept/Unbound.antt =====
-- A board that is not bound: what it may be replaced by.
use upciedev.Prelude.{
  ℕ, ◌<◌, ◌≡◌, ap, ◌∙◌, Bool, true, false, List, Option, some, ℤ, ◌==◌, ==_iff, length, length-set,
  get_elem?, set, Bool-cases, arith, ◌⊎◌, inl, inr, get_elem?-some_in_range,
}
use upciedev.Kernel.{}
use upciedev.Device.{PciedevDev}
use upciedev.BoardInfo.{Info}
use upciedev.BoardInfo.Board.{}
use upciedev.Boards.{pciedev_nr_devs, number_of_slots, File, Board, PhysAddress, Driver}
use upciedev.Boards.Probe.{PciDevice, claim, present}
use upciedev.Boards.Consistent.{
  IsBoard, IsAttached, IsConsistent, set-AllBoards, set-IsAttached_other,
}
use upciedev.Boards.Loops.{KeepsBoard}
use upciedev.Boards.Information.{SameBars}
use upciedev.Boards.Lists.{}
use upciedev.Boards.Kept.{}

-- A board that is not bound has no device, and is not the null device.
pub free-absent :
    (fs : ℕ → Option File) (i : ℕ) (b : Board)
    → IsBoard fs i b
    → b.binded ≡ false
    → b.dev.dev_sts ≡ false
free-absent fs i b h free = elim (Bool-cases b.dev.dev_sts) [
  | inl there ↦ let bound = h.bound there in cc
  | inr absent ↦ absent
]

pub free-low :
    (d : Driver) (i : ℕ) (b : Board)
    → IsConsistent d
    → get_elem? d.boards i ≡ some b
    → b.binded ≡ false
    → i < pciedev_nr_devs
free-low d i b v at free = elim (Bool-cases (i == pciedev_nr_devs)) [
  | inl last ↦ let (bound, _, _) = (v.boards i b at).null ((==_iff i 15).0 last) in cc
  | inr other ↦ let inside = get_elem?-some_in_range d.boards i b at in ground (arith, v.size)
]

-- Whether a board without a device is bound does not matter.
pub binded-IsBoard :
    (fs : ℕ → Option File) (i : ℕ) (b : Board) (bound : Bool)
    → i < pciedev_nr_devs
    → b.dev.dev_sts ≡ false
    → IsBoard fs i b
    → IsBoard fs i (record b { binded = bound })
binded-IsBoard fs i b bound low absent h = record {
  device = h.device;
  number = h.number;
  bound = λ there. cc;
  in_slot = h.in_slot;
  unmapped = h.unmapped;
  listed = h.listed;
  counted = h.counted;
  null = λ last. absurd (omega arith);
}

-- A board that is not bound may be replaced, if what replaces it is right.
pub replaced-IsConsistent :
    (d : Driver) (i : ℕ) (b c : Board) (drvdata : ℕ → Option ℕ) (phys : List PhysAddress) (n : ℤ)
    → IsConsistent d
    → get_elem? d.boards i ≡ some b
    → b.dev.dev_sts ≡ false
    → IsBoard d.open_files i c
    → length phys ≡ number_of_slots
    → ((q j : ℕ) → drvdata q ≡ some j → (d.drvdata q ≡ some j) ⊎ IsAttached (set d.boards i c) q j)
    → IsConsistent (record d {
      boards = set d.boards i c;
      dev_phys_addresses = phys;
      drvdata = drvdata;
      module_num = n;
    })
replaced-IsConsistent d i b c drvdata phys n v at absent new slots keeps = record {
  size = length-set d.boards i c ∙ v.size;
  slots = slots;
  boards = set-AllBoards d.open_files d.open_files d.boards i c v.boards new λ j x other h. h;
  attached = λ q j e. elim (keeps q j e) [
    | inl old ↦ set-IsAttached_other d.boards i b c q j at (λ h. cc) (v.attached q j old)
    | inr fresh ↦ fresh
  ];
  owned = v.owned;
}

module _ (pci : PciDevice) where
  pub present-IsBoard :
      (fs : ℕ → Option File) (i slot : ℕ) (b mapped : Board) (dev : PciedevDev) (info : Info)
      → i < pciedev_nr_devs
      → slot < number_of_slots
      → IsBoard fs i b
      → KeepsBoard (claim pci slot (record b { binded = true })) mapped
      → SameBars mapped.dev dev
      → IsBoard fs i (present pci dev info mapped)
  unfolding claim present
  present-IsBoard fs i slot b mapped dev info low inside h keeps same = record {
    device = record {
      starts = ap length same.0 ∙ keeps.starts ∙ h.device.starts;
      ends = ap length same.1 ∙ keeps.ends ∙ h.device.ends;
      mapped = ap length same.2 ∙ keeps.mapped ∙ h.device.mapped;
      known_size = omega arith;
    };
    number = keeps.number ∙ h.number;
    bound = λ there. keeps.bound;
    in_slot = λ there. rw keeps.slot inside;
    unmapped = λ absent. cc;
    listed = λ low g. rw keeps.files (h.listed low g);
    counted = λ low. rw (keeps.files, keeps.refs) (h.counted low);
    null = λ last. absurd (omega arith);
  }
