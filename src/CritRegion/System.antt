-- ===== src/CritRegion/System.antt =====
-- Any number of processes with one lock: each step is one section with the spinlock held, or the
-- semaphore's down_timeout, and the steps of the processes come in any order.
use upciedev.Prelude.{
  ℕ, ◌<◌, ◌-◌, ◌≡◌, ◌≢◌, refl, arith, List, [], ◌∷◌, Option, none, some, ℤ, pos, ◌==◌,
  if◌then◌else◌,
}
use upciedev.CritRegion.{
  SemLockType, CriticalRegionLock, Process, outside, inside, waiting, taken, init_crit_region_lock,
  enter_crit_region, long_lock_of_critical_region, leave_crit_region, unlock_long_crit_region,
  lock_taken, lock_timed_out, next_round,
}

-- `alarms` are the processes that were sent SIGALRM, the last one first.
pub record System : Type 0 where
  pub lock : CriticalRegionLock
  pub processes : ℕ → Process
  pub alarms : List ℤ

unfoldable pub start : ℕ → System
unfolding init_crit_region_lock
start jiffies = record {
  lock = init_crit_region_lock jiffies;
  processes = λ p. outside (pos 0);
  alarms = [];
}

-- Process `p` has left the lock so, and goes there.
abbrev pub move : ℕ → CriticalRegionLock × Process → System → System
move p (l, there) s = record s {
  lock = l;
  processes = λ q. if q == p then there else s.processes q;
}

abbrev pub alarm : Option ℤ → System → System
alarm none s = s
alarm (some pid) s = record s { alarms = pid ∷ s.alarms }

unfoldable pub down : SemLockType → CriticalRegionLock → CriticalRegionLock × Process
down lock_type l = (record l { semaphore = l.semaphore - 1 }, taken lock_type)

unfoldable pub time_out : ℕ → SemLockType → ℕ → ℕ → System → System
unfolding lock_timed_out next_round
time_out p lock_type n now s =
    let (l, target) = lock_timed_out now s.lock in
    alarm target (move p (l, next_round lock_type n) s)

-- The driver leaves the region exactly when it is inside; what is asked for outside is open. A
-- down_timeout succeeds only with a count above 0, and may give up at any time.
pub data Step (s : System) : ℕ → System → Type 0 where
  enters :
      (p : ℕ) (r : ℤ) → s.processes p ≡ outside r → Step s p (move p (enter_crit_region p s.lock) s)
  leaves : (p : ℕ) → s.processes p ≡ inside → Step s p (move p (leave_crit_region p s.lock) s)
  long_locks :
      (p : ℕ) (r : ℤ)
      → s.processes p ≡ outside r
      → Step s p (move p (long_lock_of_critical_region p s.lock) s)
  long_unlocks :
      (p : ℕ) (r : ℤ)
      → s.processes p ≡ outside r
      → Step s p (move p (unlock_long_crit_region p s.lock) s)
  downs :
      (p : ℕ) (lock_type : SemLockType) (n : ℕ)
      → s.processes p ≡ waiting lock_type n
      → 0 < s.lock.semaphore
      → Step s p (move p (down lock_type s.lock) s)
  times_out :
      (p : ℕ) (lock_type : SemLockType) (n now : ℕ)
      → s.processes p ≡ waiting lock_type n
      → Step s p (time_out p lock_type n now s)
  takes :
      (p : ℕ) (lock_type : SemLockType) (now : ℕ)
      → s.processes p ≡ taken lock_type
      → Step s p (move p (lock_taken lock_type p now s.lock) s)

pub alarm-lock : (target : Option ℤ) (s : System) → (alarm target s).lock ≡ s.lock
alarm-lock none s = refl
alarm-lock (some pid) s = refl

pub alarm-processes :
    (target : Option ℤ) (s : System) (q : ℕ) → (alarm target s).processes q ≡ s.processes q
alarm-processes none s q = refl
alarm-processes (some pid) s q = refl

-- Where a process is behind a move of its own, and behind one of another.
pub at_itself {ℓ} : {A : Type ℓ} (q : ℕ) (x y : A) → (if q == q then x else y) ≡ x
at_itself q x y = ground arith

pub at_another {ℓ} : {A : Type ℓ} {p q : ℕ} → q ≢ p → (x y : A) → (if p == q then x else y) ≡ y
at_another ne x y = ground arith

-- The states that the steps lead to.
pub data Reach (jiffies : ℕ) : System → Type 0 where
  starts : Reach jiffies (start jiffies)
  next : {s t : System} {p : ℕ} → Reach jiffies s → Step s p t → Reach jiffies t

-- Steps of processes other than `p`.
pub data Others (p : ℕ) (s : System) : System → Type 0 where
  here : Others p s s
  more : {t u : System} {q : ℕ} → Others p s t → q ≢ p → Step t q u → Others p s u
