-- ===== src/CritRegion/Phase.antt =====
-- Who has the lock, and what the lock and the processes look like then.
pub mod Moves
pub mod Rounds
pub mod Steps
use upciedev.Prelude.{
  ℕ, ◌<◌, ◌≡◌, ◌≢◌, refl, Bool, true, false, ℤ, pos, ◌==◌, if◌then◌else◌, Bool-cases, inl, inr,
  arith,
}
use upciedev.CritRegion.{
  SemLockType, no_lock, short_lock_unlock, long_lock_unlock, CriticalRegionLock, Process, outside,
  inside, waiting, taken, no_pid, is_pid, is_long, init_crit_region_lock, enter_crit_region,
  long_lock_of_critical_region, leave_crit_region, unlock_long_crit_region, lock_taken,
  lock_timed_out, next_round, unlock_semaphore, unlock_crit_region_private,
}
use upciedev.CritRegion.System.{
  System, start, move, alarm, down, time_out, Step, enters, leaves, long_locks, long_unlocks, downs,
  times_out, takes, Reach, starts, next,
}

-- The lock as its users see it. A claimant has the semaphore and not yet the lock's fields.
pub data Owner : Type 0 where
  nobody : Owner
  claimant owner : (p : ℕ) → Owner

-- How a lock changes hands.
pub data Change : Owner → Owner → Type 0 where
  stays : (o : Owner) → Change o o
  claims : (p : ℕ) → Change nobody (claimant p)
  gets : (p : ℕ) → Change (claimant p) (owner p)
  gives_back : (p : ℕ) → Change (owner p) nobody

abbrev pub count_of : Owner → ℕ
count_of nobody = 1
count_of _ = 0

abbrev pub pid_of : Owner → ℤ
pid_of (owner p) = pos p
pid_of _ = no_pid

abbrev pub is_owned : Owner → Bool
is_owned (owner p) = true
is_owned _ = false

abbrev pub is_claimant : Owner → ℕ → Bool
is_claimant (claimant p) q = q == p
is_claimant _ q = false

abbrev pub is_owner : Owner → ℕ → Bool
is_owner (owner p) q = q == p
is_owner _ q = false

abbrev pub is_held : SemLockType → Bool
is_held no_lock = false
is_held _ = true

abbrev pub is_taken : Process → Bool
is_taken (taken t) = true
is_taken _ = false

abbrev pub is_inside : Process → Bool
is_inside inside = true
is_inside _ = false

abbrev pub is_waiting : Process → Bool
is_waiting (waiting t n) = true
is_waiting _ = false

-- Only short and long locks are asked for.
abbrev pub asks : Process → Bool
asks (waiting t n) = is_held t
asks (taken t) = is_held t
asks _ = true

pub record IsPhase (s : System) (o : Owner) : Type 0 where
  pub count : s.lock.semaphore ≡ count_of o
  pub held : is_held s.lock.locking_type ≡ is_owned o
  pub pid : s.lock.pid ≡ pid_of o
  pub freed :
      s.lock.should_be_freed ≡ true
      → (is_long s.lock.locking_type ≡ true) × (s.lock.in_critical_region ≡ true)
  pub claimed : (q : ℕ) → is_taken (s.processes q) ≡ is_claimant o q
  pub within :
      (q : ℕ)
      → is_inside (s.processes q) ≡ true
      → (is_owner o q ≡ true) × (s.lock.in_critical_region ≡ true)
  pub asked : (q : ℕ) → asks (s.processes q) ≡ true
  pub waits : (q : ℕ) → is_waiting (s.processes q) ≡ true → is_owner o q ≡ false

pub start-IsPhase : (jiffies : ℕ) → IsPhase (start jiffies) nobody
unfolding start init_crit_region_lock
start-IsPhase jiffies = record {
  count = refl;
  held = refl;
  pid = refl;
  freed = λ e. cc;
  claimed = λ q. refl;
  within = λ q e. cc;
  asked = λ q. refl;
  waits = λ q e. refl;
}

is_pid-pid_of : (o : Owner) (p : ℕ) → is_pid p (pid_of o) ≡ is_owner o p
is_pid-pid_of nobody p = refl
is_pid-pid_of (claimant r) p = refl
is_pid-pid_of (owner r) p = refl

-- What a lock must look like in a phase, whatever the processes do.
pub record IsLockOf (l : CriticalRegionLock) (o : Owner) : Type 0 where
  pub count : l.semaphore ≡ count_of o
  pub held : is_held l.locking_type ≡ is_owned o
  pub pid : l.pid ≡ pid_of o
  pub freed :
      l.should_be_freed ≡ true → (is_long l.locking_type ≡ true) × (l.in_critical_region ≡ true)

-- What a process that goes there must look like.
pub record Fits (there : Process) (l : CriticalRegionLock) (o : Owner) (p : ℕ) : Type 0 where
  pub claimed : is_taken there ≡ is_claimant o p
  pub within : is_inside there ≡ true → (is_owner o p ≡ true) × (l.in_critical_region ≡ true)
  pub asked : asks there ≡ true
  pub waits : is_waiting there ≡ true → is_owner o p ≡ false

-- What a move of `p` must leave to the others.
pub record Spares (l l' : CriticalRegionLock) (o o' : Owner) (p : ℕ) : Type 0 where
  pub claimed : (q : ℕ) → (q == p) ≡ false → is_claimant o q ≡ is_claimant o' q
  pub within :
      (q : ℕ)
      → (q == p) ≡ false
      → is_owner o q ≡ true
      → l.in_critical_region ≡ true
      → (is_owner o' q ≡ true) × (l'.in_critical_region ≡ true)
  pub waits : (q : ℕ) → (q == p) ≡ false → is_owner o q ≡ false → is_owner o' q ≡ false

module _ {s : System} {o : Owner} (h : IsPhase s o) (p : ℕ) where
  pub move-IsPhase :
      {l : CriticalRegionLock} {there : Process} {o' : Owner}
      → IsLockOf l o'
      → Fits there l o' p
      → Spares s.lock l o o' p
      → IsPhase (move p (l, there) s) o'
  move-IsPhase {l} {there} {o'} i f k = record {
    count = i.count;
    held = i.held;
    pid = i.pid;
    freed = i.freed;
    claimed = λ q. elim (Bool-cases (q == p)) [
      | inl e ↦ ground (arith, f.claimed)
      | inr e ↦ ground (arith, h.claimed q, k.claimed q e)
    ];
    within = λ q within_q. elim (Bool-cases (q == p)) [
      | inl e ↦ ground (arith, f.within)
      | inr e ↦ ground (arith, h.within q, k.within q e)
    ];
    asked = λ q. ground (arith, h.asked q, f.asked);
    waits = λ q waiting_q. elim (Bool-cases (q == p)) [
      | inl e ↦ ground (arith, f.waits)
      | inr e ↦ ground (arith, h.waits q, k.waits q e)
    ];
  }

  pub same_lock : IsLockOf s.lock o
  same_lock = record { count = h.count; held = h.held; pid = h.pid; freed = h.freed }

  pub same_owner : Spares s.lock s.lock o o p
  same_owner = record {
    claimed = λ q e. refl;
    within = λ q e own region. (own, region);
    waits = λ q e foreign. foreign;
  }

  pub owns : is_pid p s.lock.pid ≡ is_owner o p
  owns = rw h.pid (is_pid-pid_of o p)
