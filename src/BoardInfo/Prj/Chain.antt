-- ===== src/BoardInfo/Prj/Chain.antt =====
-- The projects that a board's registers list: what pciedev_get_prjinfo (pciedev_ufn.c) finds.
use upciedev.Prelude.{
  ℕ, zero, suc, ◌+◌, ◌<◌, ◌≡◌, ◌≢◌, refl, List, [], ◌∷◌, none, some, length, ==-yes, ==-no, arith,
}
use upciedev.Kernel.{Kernel}
use upciedev.Device.{PciedevDev}
use upciedev.BoardInfo.{
  PrjInfo, Info, Reads, ascii_proj_magic_num, link_address, collect, chain_loop, bars_loop,
  bar_loop, first_base,
}
use upciedev.BoardInfo.Prj.{pciedev_fill_prj_info, pciedev_get_prjinfo}

-- Registers that keep their values: `peek` is what the 32 bits at an address hold.
abbrev pub IsSteady : (k : Kernel) → (ℕ → ℕ) → Type 0
IsSteady k peek = (a : ℕ) (w : k.World) → k.ioread 32 a w ≡ (peek a, w)

-- The project whose header stands at an address, and the projects that a chain of links names, from
-- the link `next` on: it ends with the link 0, or with a link to something else than a project.
module _ (peek : ℕ → ℕ) where
  abbrev pub project_at : ℕ → PrjInfo
  project_at a = record {
    proj_id = peek (a + 0x04);
    proj_version = peek (a + 0x08);
    proj_date = peek (a + 0x0C);
    proj_reserved = peek (a + 0x10);
    proj_next = peek (a + 0x18);
  }

  pub data Projects (base : ℕ) : ℕ → List PrjInfo → Type 0 where
    ends : Projects base 0 []
    stops :
        {next : ℕ}
        → next ≢ 0
        → peek (link_address base next) ≢ ascii_proj_magic_num
        → Projects base next []
    link :
        {next : ℕ} {ps : List PrjInfo}
        → next ≢ 0
        → peek (link_address base next) ≡ ascii_proj_magic_num
        → Projects base (peek (link_address base next + 0x18)) ps
        → Projects base next (project_at (link_address base next) ∷ ps)

  -- A set of links that each lead to a project whose own link is in the set again.
  abbrev pub IsEndless : ℕ → (ℕ → Type 0) → Type 0
  IsEndless base S =
      (next : ℕ)
      → S next
      → (next ≢ 0)
        × (peek (link_address base next) ≡ ascii_proj_magic_num)
        × S (peek (link_address base next + 0x18))

-- The entries of a list, put in front of another one by one.
abbrev pub push_all {ℓ} : {A : Type ℓ} → List A → List A → List A
push_all [] ys = ys
push_all (x ∷ xs) ys = push_all xs (x ∷ ys)

-- The link 0 ends a chain, whatever the fuel.
pub chain_loop-0 :
    {W : Type 0} (fill : ℕ → Info → Reads W (ℕ × Info)) (fuel base : ℕ) (info : Info) (w : W)
    → chain_loop fill fuel base 0 info w ≡ some (info, w)
unfolding chain_loop
chain_loop-0 fill zero base info w = refl
chain_loop-0 fill (suc fuel) base info w = refl

module _ (k : Kernel) (peek : ℕ → ℕ) (steady : IsSteady k peek) where
  open k use {World}

  abbrev with_project : ℕ → Info → Info
  with_project a info = record info {
    startup_prj_num = info.startup_prj_num + 1;
    brd_info = record info.brd_info { proj_next = 0 };
    prj_list = project_at peek a ∷ info.prj_list;
  }

  fill-project :
      (a : ℕ) (info : Info) (w : World)
      → peek a ≡ ascii_proj_magic_num
      → pciedev_fill_prj_info k a info w ≡ ((peek (a + 0x18), with_project a info), w)
  unfolding pciedev_fill_prj_info
  fill-project a info w e =
      rw
        (
          steady a w,
          ==-yes e,
          steady (a + 0x04) w,
          steady (a + 0x08) w,
          steady (a + 0x0C) w,
          steady (a + 0x10) w,
          steady (a + 0x18) w,
        )
        refl

  fill-other :
      (a : ℕ) (info : Info) (w : World)
      → peek a ≢ ascii_proj_magic_num
      → pciedev_fill_prj_info k a info w ≡ ((0, info), w)
  unfolding pciedev_fill_prj_info
  fill-other a info w ne = rw (steady a w, ==-no ne) refl

  -- Links that end are followed to their end, with enough fuel.
  chain-found :
      (fuel base : ℕ) {next : ℕ} {ps : List PrjInfo} (info : Info) (w : World)
      → Projects peek base next ps
      → length ps < fuel
      → (i : Info) × (chain_loop (pciedev_fill_prj_info k) fuel base next info w ≡ some (i, w))
        × (i.prj_list ≡ push_all ps info.prj_list)
        × (i.startup_prj_num ≡ info.startup_prj_num + length ps)
  unfolding chain_loop
  chain-found zero base info w c enough = absurd (omega arith)
  chain-found (suc fuel) base info w ends enough = (info, refl, refl, omega arith)
  chain-found (suc fuel) base {next} info w (stops ne other) enough = (
    info,
    rw (fill-other (link_address base next) info w other, ==-no ne)
        (chain_loop-0 (pciedev_fill_prj_info k) fuel base info w),
    refl,
    omega arith,
  )
  chain-found (suc fuel) base {next} info w (link ne is rest) enough =
      let (i, e, l, n) =
        chain-found fuel base (with_project (link_address base next) info) w rest (omega arith) in
      (i, rw (fill-project (link_address base next) info w is, ==-no ne) e, l, omega (arith, n))

  -- Endless links use up any fuel.
  chain-endless :
      (S : ℕ → Type 0) (base : ℕ)
      → IsEndless peek base S
      → (fuel next : ℕ) (info : Info) (w : World) → S next
      → chain_loop (pciedev_fill_prj_info k) fuel base next info w ≡ none
  unfolding chain_loop
  chain-endless S base endless zero next info w s =
      let (ne, _, _) = endless next s in rw (==-no ne) refl
  chain-endless S base endless (suc fuel) next info w s =
      let (ne, is, s') = endless next s in
      rw (fill-project (link_address base next) info w is, ==-no ne)
        (chain-endless S base endless fuel _ _ w s')

  bar-endless :
      (base : ℕ)
      → peek base ≡ ascii_proj_magic_num
      → peek (base + 0x18) ≢ 0
      → (fuel : ℕ) (info : Info) (w : World)
      → bar_loop (pciedev_fill_prj_info k) fuel base info w ≡ none
  unfolding bar_loop
  bar-endless base is ne zero info w = refl
  bar-endless base is ne (suc fuel) info w =
      rw (fill-project base info w is, ==-no ne) (bar-endless base is ne fuel _ w)

-- On a board whose registers keep their values: links that end are followed to their end, fuel
-- above their number being enough. The projects found are those of the links, each put in front of
-- the list, and the count is their number. The board names a first project.
pub get_prjinfo-Projects :
    (k : Kernel) (peek : ℕ → ℕ)
    → IsSteady k peek
    → (dev : PciedevDev) (info : Info) (w : k.World) (fuel : ℕ) {ps : List PrjInfo}
    → info.brd_info.proj_next ≢ 0
    → Projects peek (first_base dev.memmory_base) info.brd_info.proj_next ps
    → length ps < fuel
    → (i : Info) × (pciedev_get_prjinfo k fuel dev info w ≡ some (i, w))
      × (i.prj_list ≡ push_all ps info.prj_list)
      × (i.startup_prj_num ≡ length ps)
unfolding pciedev_get_prjinfo collect
get_prjinfo-Projects k peek steady dev info w fuel ne c enough =
    let (i, e, l, n) =
      chain-found k peek steady fuel (first_base dev.memmory_base)
        (record info { startup_prj_num = 0 }) w c enough in
    (i, rw (==-no ne) e, l, omega (arith, n))

-- On a board whose registers keep their values: the search for projects has no end, whatever the
-- fuel, if the first link is in a set of links that each lead to a project with a link in the set.
pub get_prjinfo_endless :
    (k : Kernel) (peek : ℕ → ℕ)
    → IsSteady k peek
    → (dev : PciedevDev) (S : ℕ → Type 0) → IsEndless peek (first_base dev.memmory_base) S
    → (info : Info) → S info.brd_info.proj_next
    → (fuel : ℕ) (w : k.World) → pciedev_get_prjinfo k fuel dev info w ≡ none
unfolding pciedev_get_prjinfo collect
get_prjinfo_endless k peek steady dev S endless info s fuel w =
    let (ne, _, _) = endless info.brd_info.proj_next s in
    rw (==-no ne) (
      chain-endless k peek steady S (first_base dev.memmory_base) endless fuel _
        (record info { startup_prj_num = 0 }) w s)

-- On a board whose registers keep their values and that names no first project: the search has no
-- end, whatever the fuel, if BAR 1 is mapped and begins with a project that names a next one.
get_prjinfo_next_in_bar :
    (k : Kernel) (peek : ℕ → ℕ)
    → IsSteady k peek
    → (dev : PciedevDev) (base0 base1 : ℕ) (bases : List ℕ)
    → dev.memmory_base ≡ base0 ∷ base1 ∷ bases
    → base1 ≢ 0
    → peek base1 ≡ ascii_proj_magic_num
    → peek (base1 + 0x18) ≢ 0
    → (info : Info) → info.brd_info.proj_next ≡ 0
    → (fuel : ℕ) (w : k.World) → pciedev_get_prjinfo k fuel dev info w ≡ none
unfolding pciedev_get_prjinfo collect bars_loop
get_prjinfo_next_in_bar k peek steady dev base0 base1 bases mapped ne is next info first fuel w =
    rw (==-yes first, mapped, ==-no ne, bar-endless k peek steady base1 is next fuel _ w) refl
