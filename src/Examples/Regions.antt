-- ===== src/Examples/Regions.antt =====
-- Processes with the lock of a critical region: process 7 and process 8.
use upciedev.Prelude.{ℕ, zero, suc, ◌<◌, ◌≤◌, ◌≡◌, ◌≢◌, ◌∙◌, refl, true, false, ◌∷◌, pos, arith}
use upciedev.CritRegion.{
  short_lock_unlock, long_lock_unlock, outside, inside, waiting, is_pid, init_crit_region_lock,
  enter_crit_region, long_lock_of_critical_region, leave_crit_region, unlock_crit_region_private,
  lock_taken, lock_timed_out, next_round,
}
use upciedev.CritRegion.System.{
  System, start, move, down, time_out, Step, enters, leaves, long_locks, downs, times_out, takes,
  alarm-processes, Reach, starts, next, here, more,
}
use upciedev.CritRegion.Phase.{nobody, start-IsPhase}
use upciedev.CritRegion.Phase.Moves.{Follows}
use upciedev.CritRegion.Phase.Steps.{Step-Follows}
use upciedev.CritRegion.Exclusion.{mutual_exclusion}
use upciedev.CritRegion.LongLock.{
  idle_long_lock_stays, overdue_long_lock_passes_on, long_lock_time_out_unnoticed,
}
use upciedev.CritRegion.Rounds.{is_busy, called, own, waiting_ends}

abbrev asked : System
asked = move 7 (enter_crit_region 7 (start 500).lock) (start 500)

abbrev claimed : System
claimed = move 7 (down short_lock_unlock asked.lock) asked

-- Process 7 has come inside.
abbrev entered : System
entered = move 7 (lock_taken short_lock_unlock 7 3 claimed.lock) claimed

entered-Reach : Reach 500 entered
unfolding start init_crit_region_lock enter_crit_region down lock_taken
entered-Reach =
    next
      (next (next starts (enters 7 (pos 0) refl)) (downs 7 short_lock_unlock 0 refl (omega arith)))
      (takes 7 short_lock_unlock 3 refl)

Step-Follows_example : Follows nobody asked
unfolding start
Step-Follows_example = Step-Follows (enters 7 (pos 0) refl) (start-IsPhase 500)

mutual_exclusion_example : ◌≡◌ {A = ℕ} 7 7 × (entered.lock.semaphore ≤ 1)
unfolding lock_taken
mutual_exclusion_example = mutual_exclusion 7 7 entered-Reach refl refl

-- Process 7 is about to get a long lock.
abbrev long_asked : System
long_asked = move 7 (long_lock_of_critical_region 7 (start 500).lock) (start 500)

abbrev long_claimed : System
long_claimed = move 7 (down long_lock_unlock long_asked.lock) long_asked

abbrev long_locked : System
long_locked = move 7 (lock_taken long_lock_unlock 7 3 long_claimed.lock) long_claimed

long_claimed-Reach : Reach 500 long_claimed
unfolding start init_crit_region_lock long_lock_of_critical_region down
long_claimed-Reach =
    next (next starts (long_locks 7 (pos 0) refl)) (downs 7 long_lock_unlock 0 refl (omega arith))

-- Process 8 waits for it, and times out long after the time of the lock.
abbrev second_asked : System
second_asked = move 8 (enter_crit_region 8 long_locked.lock) long_locked

idle_long_lock_stays_example :
    let t = time_out 8 short_lock_unlock 0 5000 second_asked in
    (t.lock.pid ≡ pos 7) × (t.lock.semaphore ≡ 0) × ((q : ℕ) → q ≢ 7 → t.processes q ≢ inside)
unfolding down long_lock_of_critical_region lock_taken enter_crit_region start
idle_long_lock_stays_example = idle_long_lock_stays 7 3 long_claimed-Reach refl (
    more (more here (omega arith) (enters 8 (pos 0) refl)) (omega arith)
      (times_out 8 short_lock_unlock 0 5000 refl))

-- Process 7 enters the region with its long lock and leaves it, and process 8 wants to enter.
abbrev entered_long : System
entered_long = move 7 (enter_crit_region 7 long_locked.lock) long_locked

abbrev left : System
left = move 7 (leave_crit_region 7 entered_long.lock) entered_long

abbrev contended : System
contended = move 8 (enter_crit_region 8 left.lock) left

contended-Reach : Reach 500 contended
unfolding start init_crit_region_lock long_lock_of_critical_region down lock_taken enter_crit_region
    leave_crit_region unlock_crit_region_private
contended-Reach =
    next
      (next
        (next (next long_claimed-Reach (takes 7 long_lock_unlock 3 refl)) (enters 7 (pos 0) refl))
        (leaves 7 refl))
      (enters 8 (pos 0) refl)

overdue_long_lock_passes_on_example :
    (t u v : System) × Step contended 8 t
    × Step t 8 u
    × Step u 8 v
    × (v.alarms ≡ pos 7 ∷ contended.alarms)
    × (v.lock.pid ≡ pos 8)
    × (v.lock.semaphore ≡ 0)
    × (v.processes 8 ≡ inside)
unfolding start init_crit_region_lock long_lock_of_critical_region down lock_taken enter_crit_region
    leave_crit_region unlock_crit_region_private
overdue_long_lock_passes_on_example =
    overdue_long_lock_passes_on 6 8 0 600 contended-Reach refl (omega arith) refl refl refl refl

waiting_ends_example :
    (1 ≤ 101)
    × (◌≡◌ {A = ℕ} 1 101
        → is_busy ((time_out 8 short_lock_unlock 0 600 contended).processes 8) ≡ false)
    × (is_busy ((time_out 8 short_lock_unlock 0 600 contended).processes 8) ≡ true
        → (u : System) × Step (time_out 8 short_lock_unlock 0 600 contended) 8 u)
unfolding start init_crit_region_lock long_lock_of_critical_region down lock_taken enter_crit_region
    leave_crit_region unlock_crit_region_private
waiting_ends_example =
    waiting_ends short_lock_unlock refl
      (own {t = contended} called refl (times_out 8 short_lock_unlock 0 600 refl))

-- Process 8 wants a long lock and has timed out `n` times.
abbrev long_contended : System
long_contended = move 8 (long_lock_of_critical_region 8 left.lock) left

abbrev rounds : ℕ → System
rounds zero = long_contended
rounds (suc n) = time_out 8 long_lock_unlock n 4 (rounds n)

rounds-waits :
    (n : ℕ) → suc n < 100 → (rounds (suc n)).processes 8 ≡ waiting long_lock_unlock (suc n)
unfolding time_out next_round
rounds-waits n lt =
    alarm-processes (lock_timed_out 4 (rounds n).lock).1
      (move 8 ((lock_timed_out 4 (rounds n).lock).0, next_round long_lock_unlock n) (rounds n)) 8
    ∙ ground arith

rounds-Reach :
    (n : ℕ) → n < 100 → Reach 500 (rounds n) × ((rounds n).processes 8 ≡ waiting long_lock_unlock n)
unfolding start init_crit_region_lock long_lock_of_critical_region down lock_taken enter_crit_region
    leave_crit_region unlock_crit_region_private
rounds-Reach zero lt = (
  next
      (next
        (next (next long_claimed-Reach (takes 7 long_lock_unlock 3 refl)) (enters 7 (pos 0) refl))
        (leaves 7 refl))
      (long_locks 8 (pos 0) refl),
  refl,
)
rounds-Reach (suc n) lt =
    let (r, e) = rounds-Reach n (omega arith) in
    (next r (times_out 8 long_lock_unlock n 4 e), rounds-waits n lt)

long_lock_time_out_unnoticed_example :
    ((rounds 100).processes 8 ≡ outside (pos 0)) × (is_pid 8 (rounds 100).lock.pid ≡ false)
long_lock_time_out_unnoticed_example =
    let (r, e) = rounds-Reach 99 (omega arith) in long_lock_time_out_unnoticed 8 4 r e
