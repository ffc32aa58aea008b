-- ===== src/CritRegion.antt =====
-- The lock of a critical region (criticalregionlock.c with USE_SEMAPHORE): a semaphore that a process
-- takes for one access (a short lock) or keeps between accesses (a long lock), with time-outs.
pub mod System
pub mod Phase
pub mod Exclusion
pub mod LongLock
pub mod Rounds
use upciedev.Prelude.{
  ℕ, suc, ◌+◌, ◌-◌, ◌%◌, ◌^◌, Bool, true, false, ◌&&◌, Option, none, some, ℤ, pos, negsuc, ◌==◌,
  ltb, if◌then◌else◌,
}

-- `enum _SEM_LOCK_TYPE_`.
pub data SemLockType : Type 0 where
  no_lock short_lock_unlock long_lock_unlock : SemLockType

-- `struct SCriticalRegionLock`: `semaphore` is the count of m_semaphore, and what is done with
-- m_spinlock held is one function. The jiffies are u64.
pub record CriticalRegionLock : Type 0 where
  pub semaphore : ℕ
  pub pid : ℤ
  pub in_critical_region : Bool
  pub should_be_freed : Bool
  pub locking_type : SemLockType
  pub jiffies_tm_out : ℕ
  pub start_jiffi : ℕ

-- Where a process stands: outside, with the result of its last call; inside, after EnterCritRegion
-- has returned 0; in round `n` of LockCritRegionPrivate; or in it with the semaphore taken.
pub data Process : Type 0 where
  outside : (result : ℤ) → Process
  inside : Process
  waiting : (lock_type : SemLockType) (n : ℕ) → Process
  taken : (lock_type : SemLockType) → Process

abbrev pub timeout : ℤ
timeout = negsuc 2

abbrev pub already_locked : ℤ
already_locked = negsuc 3

abbrev pub not_lock_owner : ℤ
not_lock_owner = negsuc 4

abbrev pub not_implemented : ℤ
not_implemented = negsuc 5

abbrev pub etime : ℤ
etime = negsuc 61

-- The PID of no process.
abbrev pub no_pid : ℤ
no_pid = negsuc 0

abbrev pub max_rounds : ℕ
max_rounds = 100

abbrev pub is_pid : ℕ → ℤ → Bool
is_pid p (pos n) = p == n
is_pid p (negsuc n) = false

abbrev pub is_short : SemLockType → Bool
is_short short_lock_unlock = true
is_short _ = false

abbrev pub is_long : SemLockType → Bool
is_long long_lock_unlock = true
is_long _ = false

-- `jiffies` are those of a_lnTimeoutMs milliseconds.
unfoldable pub init_crit_region_lock : ℕ → CriticalRegionLock
init_crit_region_lock jiffies = record {
  semaphore = 1;
  pid = no_pid;
  in_critical_region = false;
  should_be_freed = false;
  locking_type = no_lock;
  jiffies_tm_out = jiffies;
  start_jiffi = 0;
}

unfoldable pub enter_crit_region : ℕ → CriticalRegionLock → CriticalRegionLock × Process
enter_crit_region p l =
    if is_pid p l.pid
    then (record l { in_critical_region = true }, inside)
    else (l, waiting short_lock_unlock 0)

unfoldable pub long_lock_of_critical_region : ℕ → CriticalRegionLock → CriticalRegionLock × Process
long_lock_of_critical_region p l =
    (l, if is_pid p l.pid then outside already_locked else waiting long_lock_unlock 0)

-- The label unlockSemaphore and what follows it.
unfoldable pub unlock_semaphore : CriticalRegionLock → CriticalRegionLock
unlock_semaphore l = record l {
  semaphore = suc l.semaphore;
  pid = no_pid;
  should_be_freed = false;
  locking_type = no_lock;
  in_critical_region = false;
}

unfoldable pub unlock_crit_region_private :
    SemLockType → ℕ → CriticalRegionLock → CriticalRegionLock × ℤ
unfolding unlock_semaphore
unlock_crit_region_private short_lock_unlock p l =
    if is_short l.locking_type
    then (unlock_semaphore l, pos 0)
    else if l.should_be_freed
    then (unlock_semaphore l, timeout)
    else (record l { in_critical_region = false }, pos 0)
unlock_crit_region_private long_lock_unlock p l =
    if is_pid p l.pid then (unlock_semaphore l, pos 0) else (l, not_lock_owner)
unlock_crit_region_private no_lock p l = (l, not_implemented)

unfoldable pub leave_crit_region : ℕ → CriticalRegionLock → CriticalRegionLock × Process
unfolding unlock_crit_region_private
leave_crit_region p l =
    let (l', result) = unlock_crit_region_private short_lock_unlock p l in (l', outside result)

unfoldable pub unlock_long_crit_region : ℕ → CriticalRegionLock → CriticalRegionLock × Process
unfolding unlock_crit_region_private
unlock_long_crit_region p l =
    let (l', result) = unlock_crit_region_private long_lock_unlock p l in (l', outside result)

-- LockCritRegionPrivate behind a down_timeout that has succeeded, with the result that the caller
-- returns.
unfoldable pub lock_taken : SemLockType → ℕ → ℕ → CriticalRegionLock → CriticalRegionLock × Process
lock_taken lock_type p now l = (
  record l {
    locking_type = lock_type;
    in_critical_region = true;
    should_be_freed = false;
    pid = pos p;
    start_jiffi = now;
  },
  if is_long lock_type then outside (pos 0) else inside,
)

abbrev pub is_overdue : ℕ → CriticalRegionLock → Bool
is_overdue now l = ltb l.jiffies_tm_out ((now + (2 ^ 64 - l.start_jiffi)) % 2 ^ 64)

-- LockCritRegionPrivate behind a down_timeout that has failed, with the process that gets SIGALRM.
unfoldable pub lock_timed_out : ℕ → CriticalRegionLock → CriticalRegionLock × Option ℤ
lock_timed_out now l =
    if is_long l.locking_type && is_overdue now l
    then (if l.in_critical_region then (record l { should_be_freed = true }, none) else (
      record l { semaphore = suc l.semaphore; locking_type = no_lock; pid = no_pid },
      if is_pid 0 l.pid then none else some l.pid,
    ))
    else (l, none)

-- The round behind round `n`. Behind the last one the result is -ETIME, which
-- LongLockOfCriticalRegion drops.
unfoldable pub next_round : SemLockType → ℕ → Process
next_round lock_type n =
    if ltb (suc n) max_rounds
    then waiting lock_type (suc n)
    else outside (if is_long lock_type then pos 0 else etime)
