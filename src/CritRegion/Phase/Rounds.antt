-- ===== src/CritRegion/Phase/Rounds.antt =====
-- How the rounds of a call that waits change who has the lock.
use upciedev.Prelude.{
  ℕ, suc, ◌<◌, ◌≡◌, refl, sym, ap, subst, true, false, ◌&&◌, Option, none, some, ℤ, pos, Bool-cases,
  inl, inr, if-both, arith,
}
use upciedev.CritRegion.{
  SemLockType, no_lock, CriticalRegionLock, outside, inside, waiting, taken, no_pid, is_long,
  is_overdue, lock_taken, lock_timed_out, next_round,
}
use upciedev.CritRegion.System.{System, move, alarm, down, time_out}
use upciedev.CritRegion.Phase.{
  Owner, nobody, claimant, owner, Change, stays, claims, gets, gives_back, is_claimant, is_owner,
  is_taken, is_waiting, asks, IsPhase, IsLockOf, Spares, move-IsPhase, same_lock, same_owner,
}
use upciedev.CritRegion.Phase.Moves.{
  owned_by, free_of, claimant_of, Follows, next_round-asks, long-held, and_left,
}

module _ {s : System} {o : Owner} (h : IsPhase s o) (p : ℕ) where
  pub downs-Follows :
      (t : SemLockType) (n : ℕ)
      → s.processes p ≡ waiting t n
      → 0 < s.lock.semaphore
      → Follows o (move p (down t s.lock) s)
  unfolding down
  downs-Follows t n e lt =
      let free = free_of o (rw (sym h.count) lt) in
      let g = subst (IsPhase s) free h in
      subst (λ x. Follows x (move p (down t s.lock) s)) (sym free)
        (
          claimant p,
          claims p,
          move-IsPhase g p
              (record {
                count = omega (arith, g.count);
                held = g.held;
                pid = g.pid;
                freed = g.freed;
              })
              (record {
                claimed = ground arith;
                within = λ f. cc;
                asked = cc (h.asked p, e);
                waits = λ f. cc;
              })
              (record { claimed = λ q f. sym f; within = λ q f own. cc; waits = λ q f own. refl }),
        )

  pub takes-Follows :
      (t : SemLockType) (now : ℕ)
      → s.processes p ≡ taken t
      → Follows o (move p (lock_taken t p now s.lock) s)
  unfolding lock_taken
  takes-Follows t now e =
      let claimed = claimant_of o p (cc (h.claimed p, e)) in
      let g = subst (IsPhase s) claimed h in
      subst (λ x. Follows x (move p (lock_taken t p now s.lock) s)) (sym claimed)
        (
          owner p,
          gets p,
          move-IsPhase g p
              (record { count = g.count; held = cc (h.asked p, e); pid = refl; freed = λ f. cc })
              (record {
                claimed = if-both (λ x. is_taken x ≡ false) (is_long t) refl refl;
                within = λ f. (ground arith, refl);
                asked = if-both (λ x. asks x ≡ true) (is_long t) refl refl;
                waits = λ f. absurd (
                    cc (
                      if-both (λ x. is_waiting x ≡ false) (is_long t) {x = outside (pos 0)}
                        {y = inside} refl refl));
              })
              (record { claimed = λ q f. f; within = λ q f own. cc; waits = λ q f own. f }),
        )

  -- A round that has timed out, where the lock stays with its owner or is taken from it.
  abandon-Follows :
      (t : SemLockType) (n : ℕ) (l : CriticalRegionLock) (o' : Owner)
      → s.processes p ≡ waiting t n
      → is_claimant o' p ≡ false
      → is_owner o' p ≡ false
      → Change o o'
      → IsLockOf l o'
      → Spares s.lock l o o' p
      → Follows o (move p (l, next_round t n) s)
  abandon-Follows t n l o' e nothing foreign c i k =
      let (not_taken, not_inside, asked) = next_round-asks t n (cc (h.asked p, e)) in
      (
        o',
        c,
        move-IsPhase h p i
            (record {
              claimed = cc (not_taken, nothing);
              within = λ f. cc;
              asked = asked;
              waits = λ f. foreign;
            })
            k,
      )

alarm-Follows :
    (o : Owner) (target : Option ℤ) (s : System) → Follows o s → Follows o (alarm target s)
alarm-Follows o none s f = f
alarm-Follows o (some pid) s (o', c, h) = (
  o',
  c,
  record {
    count = h.count;
    held = h.held;
    pid = h.pid;
    freed = h.freed;
    claimed = h.claimed;
    within = h.within;
    asked = h.asked;
    waits = h.waits;
  },
)

module _ {s : System} {o : Owner} (h : IsPhase s o) (p : ℕ) where
  -- The lock of a long lock whose owner is not inside goes back.
  freed-Follows :
      (t : SemLockType) (n : ℕ)
      → s.processes p ≡ waiting t n
      → is_long s.lock.locking_type ≡ true
      → s.lock.in_critical_region ≡ false
      → Follows o (
          move p
            (
              record s.lock {
                semaphore = suc s.lock.semaphore;
                locking_type = no_lock;
                pid = no_pid;
                in_critical_region = false;
              },
              next_round t n,
            )
            s)
  freed-Follows t n e long away =
      let (r, owned) = owned_by o (cc (h.held, long-held s.lock.locking_type long)) in
      let g = subst (IsPhase s) owned h in
      subst (λ x. Follows x (move p (l, next_round t n) s)) (sym owned)
        (abandon-Follows g p t n l nobody e refl refl (gives_back r)
          (record {
            count = ap suc g.count;
            held = refl;
            pid = refl;
            freed = λ f. cc ((h.freed f).1, away);
          })
          (record {
            claimed = λ q f. refl;
            within = λ q f own region. cc;
            waits = λ q f own. refl;
          }))
    where
      l : CriticalRegionLock
      l = record s.lock {
        semaphore = suc s.lock.semaphore;
        locking_type = no_lock;
        pid = no_pid;
        in_critical_region = false;
      }

  pub times_out-Follows :
      (t : SemLockType) (n now : ℕ) → s.processes p ≡ waiting t n → Follows o (time_out p t n now s)
  unfolding time_out lock_timed_out
  times_out-Follows t n now e =
      elim (Bool-cases (is_long s.lock.locking_type && is_overdue now s.lock)) [
        | inl late ↦ elim (Bool-cases s.lock.in_critical_region) [
          | inl region ↦
              rw (late, region)
                (abandon-Follows h p t n
                  (record s.lock { in_critical_region = true; should_be_freed = true }) o e
                  (cc (h.claimed p, e)) (h.waits p (rw e refl)) (stays o)
                  (record {
                    count = h.count;
                    held = h.held;
                    pid = h.pid;
                    freed = λ f. (and_left _ _ late, refl);
                  })
                  (record {
                    claimed = λ q f. refl;
                    within = λ q f own g. (own, refl);
                    waits = λ q f own. own;
                  }))
          | inr away ↦
              rw (late, away) (alarm-Follows o _ _ (freed-Follows t n e (and_left _ _ late) away))
        ]
        | inr early ↦ rw early (
            abandon-Follows h p t n s.lock o e (cc (h.claimed p, e)) (h.waits p (rw e refl))
              (stays o) (same_lock h p) (same_owner h p))
      ]
