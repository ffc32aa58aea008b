-- ===== src/Boards/Closing.antt =====
-- Files of the driver's boards from their opening to their closing (pciedev_ufn.c, pciedev_rw_exp.c).
use upciedev.Prelude.{
  ℕ, zero, suc, ◌<◌, ◌≡◌, refl, sym, ap, ◌∙◌, true, false, List, [], ◌∷◌, Option, none, some, ℤ,
  pos, negsuc, ◌==◌, ==_iff, get_elem?, set, set-set, Bool-cases, arith, ◌⊎◌, inl, inr,
  get_elem?-some_in_range, get_elem?-set_self,
}
use upciedev.Kernel.{Kernel, enodev}
use upciedev.Device.{number_of_bars}
use upciedev.DeviceFile.{
  pcied_fpos, completed, decode_request, pciedev_read_exp, sizeof_device_rw, Request,
}
use upciedev.DeviceFile.Lock.{read_exp_gives_back}
use upciedev.Boards.{
  pciedev_nr_devs, File, Board, Driver, returned, assign, elem, increment, decrement, with_board,
}
use upciedev.Boards.Files.{without, opened, released, pciedev_open_exp, pciedev_release_exp}
use upciedev.Boards.Steps.{forget_file, Reach}
use upciedev.Boards.Consistent.{points, IsConsistent}
use upciedev.Boards.Removal.{==-self}
use upciedev.Boards.Reached.{Reach-IsConsistent}

without-absent : (filp : ℕ) (fs : List ℕ) → elem filp fs ≡ false → without filp fs ≡ fs
unfolding without
without-absent filp [] e = refl
without-absent filp (f ∷ fs) e = elim (Bool-cases (filp == f)) [
  | inl same ↦ cc (rw same at e)
  | inr other ↦
      let away : (f == filp) ≡ false = ground arith in
      rw (away, without-absent filp fs (rw other at e)) refl
]

release-returns :
    (d : Driver) (filp : ℕ) (file : File) (b : Board)
    → d.open_files filp ≡ some file
    → get_elem? d.boards file.private_data ≡ some b
    → b.dev_mut ≡ false
    → pciedev_release_exp filp d ≡ returned (pos 0) (released file.private_data filp b d)
unfolding pciedev_release_exp
release-returns d filp file b is at free =
    rw (is, pciedev_release_exp) (rw (at, with_board) (rw free refl))

decrement-increment : (r : ℤ) → decrement (increment r) ≡ r
decrement-increment (pos n) = refl
decrement-increment (negsuc zero) = refl
decrement-increment (negsuc (suc n)) = refl

assign-assign {ℓ} :
    {A : Type ℓ} (key g : ℕ) (v : Option A) (m : ℕ → Option A)
    → m key ≡ none
    → assign key none (assign key v m) g ≡ m g
assign-assign key g v m fresh = elim (Bool-cases (g == key)) [
  | inl same ↦ rw same (sym (ap m ((==_iff g key).0 same) ∙ fresh))
  | inr other ↦ rw other refl
]

-- A file is opened on one of the first 15 boards, with the board's mutex free and memory at hand, and
-- closed again: both calls return 0, and the boards and the open files are as before, but that the
-- board knows its minor number.
pub release-open :
    (d : Driver) (i filp : ℕ) (b : Board)
    → IsConsistent d
    → i < pciedev_nr_devs
    → get_elem? d.boards i ≡ some b
    → b.dev_mut ≡ false
    → d.open_files filp ≡ none
    → (d1 d2 : Driver) × (pciedev_open_exp i filp true d ≡ returned (pos 0) d1)
      × (pciedev_release_exp filp d1 ≡ returned (pos 0) d2)
      × (d2.boards ≡ set d.boards i (record b { dev_minor = i }))
      × ((g : ℕ) → (forget_file filp d2).open_files g ≡ d.open_files g)
unfolding pciedev_open_exp without
release-open d i filp b v low at free fresh =
    let new : Board = record b {
      dev_minor = i;
      dev_file_ref = increment b.dev_file_ref;
      files = filp ∷ b.files;
    } in
    let unlisted : elem filp b.files ≡ false =
      (v.boards i b at).listed low filp ∙ ap (λ (o : Option File). points o i) fresh in
    let there = get_elem?-set_self d.boards i new (get_elem?-some_in_range d.boards i b at) in
    (
      opened i filp b d,
      released i filp new (opened i filp b d),
      rw (at, with_board) (rw free refl),
      release-returns (opened i filp b d) filp (record { private_data = i; f_pos = pcied_fpos }) new
          (rw (==-self filp) refl) there free,
      set-set d.boards i new _
          ∙ rw
              (
                ==-self filp,
                decrement-increment b.dev_file_ref,
                without-absent filp b.files unlisted,
              )
              refl,
      λ g. assign-assign filp g _ d.open_files fresh,
    )

-- In every state that the driver comes to, a read through an open file, with the mutex of its board
-- free and a request that is at hand, ends and gives the mutex back, with -ENODEV or the size of
-- the record; the BAR of the request and the scratch BAR must be numbers below 6.
pub read_open_file :
    (k : Kernel) (d : Driver) (filp : ℕ) (file : File) (b : Board) (junk : ℕ → ℕ)
    (position f_pos buf count : ℕ) (w : k.World) (q : Request)
    → Reach k d
    → d.open_files filp ≡ some file
    → get_elem? d.boards file.private_data ≡ some b
    → b.dev_mut ≡ false
    → b.dev.scratch_bar < number_of_bars
    → decode_request k b.dev position f_pos buf count w ≡ some q
    → q.bar < number_of_bars
    → (r : ℤ) × (w' : k.World) × (pciedev_read_exp k b.dev junk b.dev_mut position f_pos buf count w
        ≡ completed r false w')
      × ((r ≡ enodev) ⊎ (r ≡ pos sizeof_device_rw))
unfolding pciedev_read_exp
read_open_file k d filp file b junk position f_pos buf count w q reach is at free scratch request
      inside =
    let h = (Reach-IsConsistent k reach).boards file.private_data b at in
    elim (Bool-cases b.dev.dev_sts) [
      | inl there ↦
          let (w', e) =
            read_exp_gives_back k b.dev junk position f_pos buf count w q h.device scratch there
              request inside in
          (pos sizeof_device_rw, w', rw free e, inr refl)
      | inr gone ↦ (enodev, w, rw (gone, free) refl, inl refl)
    ]
