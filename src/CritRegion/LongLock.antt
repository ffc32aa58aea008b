-- ===== src/CritRegion/LongLock.antt =====
-- Long locks whose time has run out.
use upciedev.Prelude.{
  ℕ, suc, ◌<◌, ◌≡◌, ◌≢◌, refl, sym, ◌∙◌, subst, Option, if-both, true, false, ◌&&◌, ◌∷◌, ℤ, pos,
  ◌==◌, if◌then◌else◌, arith,
}
use upciedev.CritRegion.{
  SemLockType, no_lock, short_lock_unlock, CriticalRegionLock, long_lock_unlock, outside, inside,
  waiting, taken, no_pid, max_rounds, is_pid, is_long, is_overdue, enter_crit_region,
  long_lock_of_critical_region, unlock_long_crit_region, unlock_crit_region_private, lock_taken,
  lock_timed_out, next_round,
}
use upciedev.CritRegion.System.{
  System, move, down, time_out, Step, enters, leaves, long_locks, long_unlocks, downs, times_out,
  takes, alarm-lock, alarm-processes, at_itself, Reach, Others, here, more,
}
use upciedev.CritRegion.Phase.{Owner, nobody, claimant, owner, pid_of, IsPhase, owns}
use upciedev.CritRegion.Phase.Steps.{Step-Follows}
use upciedev.CritRegion.Exclusion.{Reach-IsPhase}

-- The lock is that of `p`, which counts as inside.
record IsKept (p : ℕ) (l : CriticalRegionLock) : Type 0 where
  pid : l.pid ≡ pos p
  region : l.in_critical_region ≡ true

-- A time-out makes nobody the owner.
timed_out-foreign :
    (p now : ℕ) (l : CriticalRegionLock)
    → is_pid p l.pid ≡ false
    → is_pid p (lock_timed_out now l).0.pid ≡ false
unfolding lock_timed_out
timed_out-foreign p now l e =
    let Foreign : CriticalRegionLock × Option ℤ → Type 0 = λ t. is_pid p t.0.pid ≡ false in
    if-both Foreign (is_long l.locking_type && is_overdue now l)
      (if-both Foreign l.in_critical_region e refl) e

module _ {s : System} (p : ℕ) (h : IsPhase s (owner p)) (kept : IsKept p s.lock) where
  foreign : (q : ℕ) → q ≢ p → is_pid q s.lock.pid ≡ false
  foreign q ne = rw h.pid (ground (arith, ne))

  lock_timed_out-IsKept : (now : ℕ) → IsKept p (lock_timed_out now s.lock).0
  unfolding lock_timed_out
  lock_timed_out-IsKept now =
      if-both {A = CriticalRegionLock × Option ℤ} (λ t. IsKept p t.0)
        (is_long s.lock.locking_type && is_overdue now s.lock)
        (rw kept.region (record { pid = kept.pid; region = refl })) kept

  Step-IsKept : {q : ℕ} {t : System} → q ≢ p → Step s q t → IsKept p t.lock
  unfolding enter_crit_region long_lock_of_critical_region unlock_long_crit_region
      unlock_crit_region_private time_out
  Step-IsKept ne (enters q r e) = rw (foreign q ne) kept
  Step-IsKept ne (leaves q e) = absurd (ground (arith, h.within q))
  Step-IsKept ne (long_locks q r e) = kept
  Step-IsKept ne (long_unlocks q r e) = rw (foreign q ne) kept
  Step-IsKept ne (downs q t n e lt) = absurd (omega (arith, h.count))
  Step-IsKept ne (times_out q t n now e) =
      subst (IsKept p) (sym (alarm-lock _ _)) (lock_timed_out-IsKept now)
  Step-IsKept ne (takes q t now e) = absurd (ground (arith, h.claimed q))

pid_of-owner : (o : Owner) (p : ℕ) → pid_of o ≡ pos p → o ≡ owner p
pid_of-owner nobody p e = absurd cc
pid_of-owner (claimant r) p e = absurd cc
pid_of-owner (owner r) p e = ground arith

Others-IsKept :
    (p : ℕ) {s t : System}
    → IsPhase s (owner p)
    → IsKept p s.lock
    → Others p s t
    → IsPhase t (owner p) × IsKept p t.lock
Others-IsKept p h kept here = (h, kept)
Others-IsKept p h kept (more r ne st) =
    let (g, k) = Others-IsKept p h kept r in
    let (o', c, g') = Step-Follows st g in
    let k' = Step-IsKept p g k ne st in
    (subst (IsPhase _) (pid_of-owner o' p (sym g'.pid ∙ k'.pid)) g', k')

-- A process has just got a long lock and does nothing else. Whatever the other processes do and
-- however long they wait, the lock stays its own and none of them comes inside: the time-outs of the
-- others do not free a long lock whose owner has not entered and left the region since it got it.
pub idle_long_lock_stays :
    {jiffies : ℕ} {s t : System} (p now : ℕ)
    → Reach jiffies s
    → s.processes p ≡ taken long_lock_unlock
    → Others p (move p (lock_taken long_lock_unlock p now s.lock) s) t
    → (t.lock.pid ≡ pos p) × (t.lock.semaphore ≡ 0) × ((q : ℕ) → q ≢ p → t.processes q ≢ inside)
unfolding lock_taken
idle_long_lock_stays p now r e others =
    let (o, h) = Reach-IsPhase r in
    let (o', c, h') = Step-Follows (takes p long_lock_unlock now e) h in
    let (g, k) =
      Others-IsKept p (subst (IsPhase _) (pid_of-owner o' p (sym h'.pid)) h')
        (record { pid = refl; region = refl }) others in
    (k.pid, g.count, λ q ne in_q. ground (arith, g.within q))

-- The state behind a time-out of `q` that takes the lock from `p`.
abbrev replaced : ℕ → ℕ → SemLockType → ℕ → System → System
replaced p q t n s = record {
  lock = record s.lock { semaphore = suc s.lock.semaphore; locking_type = no_lock; pid = no_pid };
  processes = λ r. if r == q then next_round t n else s.processes r;
  alarms = pos p ∷ s.alarms;
}

time_out-replaced :
    (s : System) (p q : ℕ) (t : SemLockType) (n now : ℕ)
    → s.lock.pid ≡ pos (suc p)
    → is_long s.lock.locking_type ≡ true
    → is_overdue now s.lock ≡ true
    → s.lock.in_critical_region ≡ false
    → time_out q t n now s ≡ replaced (suc p) q t n s
unfolding time_out lock_timed_out
time_out-replaced s p q t n now own long late away =
    let positive : (0 == suc p) ≡ false = ground arith in rw (long, late, away, own, positive) refl

-- A long lock of `p` that is overdue, with `p` outside the region, is taken from `p` when a process
-- `q` that waits to enter times out, unless that is its last round: `p` is sent SIGALRM, and with no
-- other process in between `q` then gets the lock and comes inside.
pub overdue_long_lock_passes_on :
    {jiffies : ℕ} {s : System} (p q n now : ℕ)
    → Reach jiffies s
    → s.processes q ≡ waiting short_lock_unlock n
    → suc n < max_rounds
    → s.lock.pid ≡ pos (suc p)
    → is_long s.lock.locking_type ≡ true
    → is_overdue now s.lock ≡ true
    → s.lock.in_critical_region ≡ false
    → (t u v : System) × Step s q t
      × Step t q u
      × Step u q v
      × (v.alarms ≡ pos (suc p) ∷ s.alarms)
      × (v.lock.pid ≡ pos q)
      × (v.lock.semaphore ≡ 0)
      × (v.processes q ≡ inside)
unfolding down lock_taken next_round
overdue_long_lock_passes_on {s} p q n now r e more_rounds own long late away =
    let (o, h) = Reach-IsPhase r in
    let g = subst (IsPhase s) (pid_of-owner o (suc p) (sym h.pid ∙ own)) h in
    let again : next_round short_lock_unlock n ≡ waiting short_lock_unlock (suc n) = ground arith in
    let first : Step s q (replaced (suc p) q short_lock_unlock n s) =
      subst (Step s q) (time_out-replaced s p q short_lock_unlock n now own long late away)
        (times_out q short_lock_unlock n now e) in
    (
      _,
      _,
      _,
      first,
      downs q short_lock_unlock (suc n) (at_itself q _ _ ∙ again) (omega arith),
      takes q short_lock_unlock now (at_itself q _ _),
      refl,
      refl,
      omega (arith, g.count),
      at_itself q _ _,
    )

-- A process asks for a long lock and times out in each round: the call returns 0, as if the lock had
-- been granted, and the lock is not its own.
pub long_lock_time_out_unnoticed :
    {jiffies : ℕ} {s : System} (p now : ℕ)
    → Reach jiffies s
    → s.processes p ≡ waiting long_lock_unlock 99
    → let t = time_out p long_lock_unlock 99 now s in
      (t.processes p ≡ outside (pos 0)) × (is_pid p t.lock.pid ≡ false)
unfolding time_out next_round
long_lock_time_out_unnoticed {s} p now r e =
    let (o, h) = Reach-IsPhase r in
    (
      alarm-processes (lock_timed_out now s.lock).1
            (move p ((lock_timed_out now s.lock).0, next_round long_lock_unlock 99) s) p
          ∙ at_itself p (outside (pos 0)) (s.processes p),
      subst (λ l. is_pid p l.pid ≡ false) (sym (alarm-lock _ _))
          (timed_out-foreign p now s.lock (owns h p ∙ h.waits p (rw e refl))),
    )
