-- ===== src/Access/Rounds.antt =====
-- One round of a loop of read_write_inline.h: what it touches, and where it leads.
use upciedev.Prelude.{
  ℕ, zero, suc, ◌<◌, ◌+◌, ◌*◌, ◌/◌, ◌%◌, ◌^◌, ◌≤◌, ◌≡◌, refl, arith, ◌⊎◌, inl, inr, Bool, true,
  false, if◌then◌else◌, if-both, ◌==◌, Option, some, none, get_elem?, ℤ, pos,
}
use upciedev.Kernel.{Kernel, Outcome, returned, undefined, enomem, efault}
use upciedev.Device.{PciedevDev}
use upciedev.Registers.{get_register_size_in_bytes}
use upciedev.Access.{
  Stored, access_bits, set_bits, swap_bits, Round, stop, next, ReadLocals, WriteLocals,
  read_write_private,
}

-- A function returns, and its result and the state it leaves satisfy `Q`.
abbrev pub Returns : {W : Type 0} → (ℤ → W → Type 0) → Outcome W → Type 0
Returns Q (returned r w) = Q r w
Returns Q undefined = ⊥

pub Returns-mono :
    {W : Type 0} (Q R : ℤ → W → Type 0) (o : Outcome W)
    → ((r : ℤ) (w : W) → Q r w → R r w)
    → Returns Q o
    → Returns R o
Returns-mono Q R (returned r w) f h = f r w h
Returns-mono Q R undefined f h = h

-- The bytes that an access of a size touches.
abbrev pub access_bytes : ℕ → ℕ
access_bytes reg_size = access_bits reg_size / 8

-- An access of a known size touches no more than the register.
pub access_bytes-fits :
    (reg_size default_mode : ℕ)
    → reg_size < 3
    → access_bytes reg_size ≤ get_register_size_in_bytes reg_size default_mode
unfolding access_bits get_register_size_in_bytes
access_bytes-fits zero d h = omega arith
access_bytes-fits (suc zero) d h = omega arith
access_bytes-fits (suc (suc zero)) d h = omega arith
access_bytes-fits (suc (suc (suc s))) d h = absurd (omega arith)

-- A property of the world that accesses of `reg_size` keep that touch no byte outside the addresses
-- from `lo` to `hi`.
pub record KeepsAccess (k : Kernel) (reg_size lo hi : ℕ) (P : k.World → Type 0) : Type 0 where
  pub reads :
      (a : ℕ) (w : k.World)
      → lo ≤ a
      → a + access_bytes reg_size ≤ hi
      → P w
      → P (k.ioread (access_bits reg_size) a w).1
  pub writes :
      (a v : ℕ) (w : k.World)
      → lo ≤ a
      → a + access_bytes reg_size ≤ hi
      → P w
      → P (k.iowrite (access_bits reg_size) a v w)

-- A property of the world that the driver's accesses keep: those of `reg_size` that touch no byte
-- outside the addresses from `lo` to `hi`, the read of the scratch register, and copies to the user.
pub record Keeps (k : Kernel) (dev : PciedevDev) (reg_size lo hi : ℕ) (P : k.World → Type 0)
    : Type 0 where
  pub reads :
      (a : ℕ) (w : k.World)
      → lo ≤ a
      → a + access_bytes reg_size ≤ hi
      → P w
      → P (k.ioread (access_bits reg_size) a w).1
  pub writes :
      (a v : ℕ) (w : k.World)
      → lo ≤ a
      → a + access_bytes reg_size ≤ hi
      → P w
      → P (k.iowrite (access_bits reg_size) a v w)
  pub scratch :
      (base : ℕ) (w : k.World)
      → get_elem? dev.memmory_base dev.scratch_bar ≡ some base
      → P w
      → P (k.ioread (access_bits dev.register_size) (base + dev.scratch_offset) w).1
  pub delivers : (a n v : ℕ) (w : k.World) → P w → P (k.copy_to_user a n v w).1

pub Keeps-KeepsAccess :
    (k : Kernel) (dev : PciedevDev) (reg_size lo hi : ℕ) (P : k.World → Type 0)
    → Keeps k dev reg_size lo hi P
    → KeepsAccess k reg_size lo hi P
Keeps-KeepsAccess k dev reg_size lo hi P keeps = record {
  reads = keeps.reads;
  writes = keeps.writes;
}

module _ (k : Kernel) (reg_size bytes lo hi : ℕ) (P : k.World → Type 0)
    (keeps : KeepsAccess k reg_size lo hi P) (width : access_bytes reg_size ≤ bytes) where
  open k use {World}

  pub read_write_private-P :
      (mode a value mask : ℕ) (w : World)
      → lo ≤ a
      → a + bytes ≤ hi
      → P w
      → P (read_write_private k reg_size mode a value mask w).1
  unfolding read_write_private
  read_write_private-P mode a value mask w p q h =
      let q' : a + access_bytes reg_size ≤ hi = omega arith in
      if-both post (mode == 5) (keeps.writes a (value % 2 ^ bits) w p q' h) (
        if-both post (mode == 6)
          (keeps.writes a (set_bits bits value mask prev) _ p q' (keeps.reads a w p q' h))
          (if-both post (mode == 7)
            (keeps.writes a (swap_bits bits mask prev) _ p q' (keeps.reads a w p q' h))
            (if-both post (mode == 2) (keeps.reads a w p q' h) (keeps.reads a w p q' h))))
    where
      bits : ℕ
      bits = access_bits reg_size

      prev : ℕ
      prev = (k.ioread bits a w).0

      post : Stored × World → Type 0
      post r = P r.1

-- The error by which a read loop may end, that of a dead bus; a write loop has none.
abbrev pub IsDead : ℤ → Type 0
IsDead r = r ≡ enomem

abbrev pub Never : ℤ → Type 0
Never r = ⊥

-- What a loop may return: one of the errors `E`, or a count of bytes up to `limit`.
abbrev pub CountTo : (ℤ → Type 0) → ℕ → ℤ → Type 0
CountTo E limit r = E r ⊎ ((m : ℕ) × (r ≡ pos m) × (m ≤ limit))

pub CountTo-mono : (E : ℤ → Type 0) {m n : ℕ} {r : ℤ} → m ≤ n → CountTo E m r → CountTo E n r
CountTo-mono E h (inl e) = inl e
CountTo-mono E h (inr (c, e, b)) = inr (c, e, omega arith)

-- What the loop's count says of the request.
pub served :
    {W : Type 0} (P : W → Type 0) (E : ℤ → Type 0) (bytes n count rest : ℕ)
    → n ≤ count
    → n * bytes ≤ rest
    → (r : ℤ) (w : W) → P w × CountTo E (0 + n * bytes) r
    → P w × ((r ≡ efault) ⊎ (CountTo E (count * bytes) r × CountTo E rest r))
served P E bytes n count rest a b r w h =
    let wide : n * bytes ≤ count * bytes = grind arith in
    (h.0, inr (CountTo-mono E (omega arith) h.1, CountTo-mono E (omega arith) h.1))

-- After a round of either loop: the function has ended with a count up to that of the bytes
-- done, or the address and the count have gone on by one register.
module _ {L W : Type 0} (P : W → Type 0) (E : ℤ → Type 0) (bytes : ℕ) (address retval : L → ℕ) where
  abbrev pub RoundPost : L → Round L W → Type 0
  RoundPost l (stop o) = Returns (λ r w'. P w' × CountTo E (retval l) r) o
  RoundPost l (next l' w') =
      P w' × (address l' ≡ address l + bytes) × (retval l' ≡ retval l + bytes)

  -- One round, and then the others.
  pub after_round :
      (limit : ℕ) (rest : L → W → Outcome W) (l : L) (r : Round L W)
      → RoundPost l r
      → retval l ≤ limit
      → ((l' : L) (w' : W)
          → P w'
          → address l' ≡ address l + bytes
          → retval l' ≡ retval l + bytes
          → Returns (λ v w. P w × CountTo E limit v) (rest l' w'))
      → Returns
          (λ v w. P w × CountTo E limit v)
          (elim r as (λ _. Outcome W) [ stop o ↦ o | next l' w' ↦ rest l' w' ])
  after_round limit rest l (stop (returned v w)) h b f = (h.0, CountTo-mono E b h.1)
  after_round limit rest l (stop undefined) h b f = h
  after_round limit rest l (next l' w') h b f = f l' w' h.0 h.1 h.2

module _ {W : Type 0} (P : W → Type 0) where
  -- The scratch check stays inside its array.
  abbrev pub ScratchPost : Option (Bool × W) → Type 0
  ScratchPost none = ⊥
  ScratchPost (some (bad, w)) = P w

  abbrev pub ReadPost : ℕ → ReadLocals → Round ReadLocals W → Type 0
  ReadPost bytes = RoundPost P IsDead bytes (λ l. l.address_dev) (λ l. l.retval)

  abbrev pub WritePost : ℕ → WriteLocals → Round WriteLocals W → Type 0
  WritePost bytes = RoundPost P Never bytes (λ l. l.address_dev) (λ l. l.retval)

  -- After the check the function ends, or it goes on.
  pub after_scratch :
      (bytes : ℕ) (l : ReadLocals) (rest : W → Round ReadLocals W) (o : Option (Bool × W))
      → ScratchPost o
      → ((w : W) → P w → ReadPost bytes l (rest w))
      → ReadPost bytes l (elim o as (λ _. Round ReadLocals W) [
        | none ↦ stop undefined
        | some (bad, w2) ↦ if bad then stop (returned enomem w2) else rest w2
      ])
  after_scratch bytes l rest none h f = absurd h
  after_scratch bytes l rest (some (true, w)) h f = (h, inl refl)
  after_scratch bytes l rest (some (false, w)) h f = f w h
