-- ===== src/Boards/Mmap.antt =====
-- A BAR is mapped into a process: pciedev_remap_mmap_exp (pciedev_ufn.c).
use upciedev.Prelude.{
  ℕ, ◌+◌, ◌-◌, ◌*◌, ◌/◌, ◌%◌, ◌^◌, ◌≤◌, ◌<◌, ◌≡◌, ◌≢◌, refl, sym, ap, ◌∙◌, Bool, false, ◌&&◌, ◌||◌,
  Option, none, some, ℤ, pos, negsuc, ◌==◌, ltb, leb, get_elem?, get_elem?-some_in_range,
  if◌then◌else◌, arith,
}
use native.Mathlib.Nat.{div-add-mod'}
use upciedev.Kernel.{enomem}
use upciedev.Device.{PciedevDev, number_of_bars, IsDevice}
use upciedev.Boards.{Run, returned, undefined}

abbrev pub enoent : ℤ
enoent = negsuc 1

abbrev pub eagain : ℤ
eagain = negsuc 10

-- The addresses of `struct vm_area_struct`, which are unsigned longs.
pub record VmArea : Type 0 where
  pub vm_start : ℕ
  pub vm_end : ℕ
  pub vm_pgoff : ℕ

-- What remap_pfn_range is asked for: where in the process, from which page, and how many bytes.
pub record Mapping : Type 0 where
  pub address : ℕ
  pub page : ℕ
  pub size : ℕ

not_before : (a b : ℕ) → b ≤ a → ltb a b ≡ false
not_before a b le = ground arith

-- A page has `2 ^ page_shift` bytes; `remap_pfn_range` is whether the kernel refuses.
module _ (page_shift : ℕ) (remap_pfn_range : Mapping → Bool) where
  -- A BAR from `start` to `last`, both u32, is mapped at `address`.
  unfoldable pub map_bar : ℕ → ℕ → ℕ → ℕ → Run (Option Mapping)
  map_bar start last address size =
      let psize = (last + 2 ^ 32 - start) % 2 ^ 32 in
      let mapping : Mapping = record {
        address = address;
        page = start / 2 ^ page_shift;
        size = size;
      } in
      if start == 0
      then returned enomem none
      else if ltb (2 ^ page_shift) psize && ltb psize size
      then returned enomem none
      else if remap_pfn_range mapping
      then returned eagain none
      else returned (pos 0) (some mapping)

  -- The number of the BAR is an int, and that of the page offset is cut to it.
  unfoldable pub pciedev_remap_mmap_exp : PciedevDev → VmArea → Run (Option Mapping)
  unfolding map_bar
  pciedev_remap_mmap_exp dev vma =
      let bar = vma.vm_pgoff % 2 ^ 32 in
      let size = (vma.vm_end + 2 ^ 64 - vma.vm_start) % 2 ^ 64 in
      if leb (2 ^ 31) bar || leb number_of_bars bar
      then returned enoent none
      else elim (get_elem? dev.mem_base bar) [
        | none ↦ undefined
        | some start ↦ elim (get_elem? dev.mem_base_end bar) [
          | none ↦ undefined
          | some last ↦ map_bar start last vma.vm_start size
        ]
      ]

  map_bar-granted :
      (start last address size : ℕ) (m : Mapping)
      → map_bar start last address size ≡ returned (pos 0) (some m)
      → (start ≢ 0)
        × (m ≡ record { address = address; page = start / 2 ^ page_shift; size = size })
        × (2 ^ page_shift < (last + 2 ^ 32 - start) % 2 ^ 32
            → size ≤ (last + 2 ^ 32 - start) % 2 ^ 32)
  unfolding map_bar
  map_bar-granted start last address size m e = ground arith

  -- A lookup of a BAR that finds something goes to `map_bar`.
  mmap-map_bar :
      (dev : PciedevDev) (vma : VmArea) (start last n : ℕ)
      → IsDevice dev
      → get_elem? dev.mem_base vma.vm_pgoff ≡ some start
      → get_elem? dev.mem_base_end vma.vm_pgoff ≡ some last
      → vma.vm_start + n ≡ vma.vm_end
      → vma.vm_end < 2 ^ 64
      → pciedev_remap_mmap_exp dev vma ≡ map_bar start last vma.vm_start n
  unfolding pciedev_remap_mmap_exp
  mmap-map_bar dev vma start last n h at_start at_last size top =
      let low : vma.vm_pgoff < 6 =
        omega (arith, get_elem?-some_in_range dev.mem_base vma.vm_pgoff start at_start, h.starts) in
      let whole : vma.vm_pgoff % 2 ^ 32 ≡ vma.vm_pgoff = omega arith in
      let cut : (vma.vm_end + 2 ^ 64 - vma.vm_start) % 2 ^ 64 ≡ n = omega arith in
      let known : (leb (2 ^ 31) vma.vm_pgoff || leb number_of_bars vma.vm_pgoff) ≡ false =
        ground arith in
      rw (whole, known, at_start, whole, at_last, cut) refl

  page_start :
      (start : ℕ) → start % 2 ^ page_shift ≡ 0 → start / 2 ^ page_shift * 2 ^ page_shift ≡ start
  page_start start aligned = omega (arith, div-add-mod' start (2 ^ page_shift), aligned)

  -- A BAR that begins with a page and spans more than one page, from `start` to its last byte `last`:
  -- a mapping that is granted begins at `start`, has the size that the process has asked for, and ends
  -- in front of the last byte.
  pub mmap_in_bar :
      (dev : PciedevDev) (vma : VmArea) (start last n : ℕ) (m : Mapping)
      → IsDevice dev
      → get_elem? dev.mem_base vma.vm_pgoff ≡ some start
      → get_elem? dev.mem_base_end vma.vm_pgoff ≡ some last
      → vma.vm_start + n ≡ vma.vm_end
      → vma.vm_end < 2 ^ 64
      → start % 2 ^ page_shift ≡ 0
      → start + 2 ^ page_shift < last
      → last < 2 ^ 32
      → pciedev_remap_mmap_exp dev vma ≡ returned (pos 0) (some m)
      → (m.page * 2 ^ page_shift ≡ start) × (m.size ≡ n) × (m.page * 2 ^ page_shift + m.size ≤ last)
  mmap_in_bar dev vma start last n m h at_start at_last size top aligned large fits granted =
      let whole = mmap-map_bar dev vma start last n h at_start at_last size top in
      let (mapped, is, inside) =
        map_bar-granted start last vma.vm_start n m (sym whole ∙ granted) in
      let span : (last + 2 ^ 32 - start) % 2 ^ 32 ≡ last - start = omega arith in
      let fit = inside (omega (arith, span)) in
      let begin = ap (λ (x : Mapping). x.page * 2 ^ page_shift) is ∙ page_start start aligned in
      let length = ap (λ (x : Mapping). x.size) is in
      (begin, length, omega (arith, begin, length, fit, span))

  -- A BAR that begins with a page and whose last byte lies at most one page behind its start, and a
  -- process that asks for more bytes than the BAR has: unless the kernel refuses, the mapping begins
  -- at the BAR, has all the bytes that were asked for, and so goes on behind the BAR's last byte.
  pub mmap_behind_small_bar :
      (dev : PciedevDev) (vma : VmArea) (start last n : ℕ)
      → IsDevice dev
      → get_elem? dev.mem_base vma.vm_pgoff ≡ some start
      → get_elem? dev.mem_base_end vma.vm_pgoff ≡ some last
      → vma.vm_start + n ≡ vma.vm_end
      → vma.vm_end < 2 ^ 64
      → start % 2 ^ page_shift ≡ 0
      → 0 < start
      → start ≤ last
      → last ≤ start + 2 ^ page_shift
      → last < 2 ^ 32
      → last + 1 < start + n
      → ((m : Mapping) → remap_pfn_range m ≡ false)
      → (m : Mapping) × (pciedev_remap_mmap_exp dev vma ≡ returned (pos 0) (some m))
        × (m.page * 2 ^ page_shift ≡ start)
        × (m.size ≡ n)
        × (last + 1 < m.page * 2 ^ page_shift + m.size)
  unfolding map_bar
  mmap_behind_small_bar dev vma start last n h at_start at_last size top aligned mapped order small
        fits much accepts =
      let span : (last + 2 ^ 32 - start) % 2 ^ 32 ≡ last - start = omega arith in
      let there : (start == 0) ≡ false = ground arith in
      let short : ltb (2 ^ page_shift) ((last + 2 ^ 32 - start) % 2 ^ 32) ≡ false =
        not_before _ _ (omega (arith, span)) in
      (
        record { address = vma.vm_start; page = start / 2 ^ page_shift; size = n },
        mmap-map_bar dev vma start last n h at_start at_last size top
            ∙ rw (there, short, accepts) refl,
        page_start start aligned,
        refl,
        omega (arith, page_start start aligned),
      )
