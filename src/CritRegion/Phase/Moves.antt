-- ===== src/CritRegion/Phase/Moves.antt =====
-- How the calls change who has the lock.
use upciedev.Prelude.{
  ℕ, suc, ◌<◌, ◌≡◌, refl, sym, ap, subst, Bool, true, false, ◌&&◌, ℤ, pos, Bool-cases, inl, inr,
  arith,
}
use upciedev.CritRegion.{
  SemLockType, no_lock, short_lock_unlock, long_lock_unlock, Process, outside, inside, waiting,
  timeout, already_locked, not_lock_owner, is_pid, is_short, is_long, enter_crit_region,
  long_lock_of_critical_region, leave_crit_region, unlock_long_crit_region, next_round,
  unlock_semaphore, unlock_crit_region_private,
}
use upciedev.CritRegion.System.{System, move}
use upciedev.CritRegion.Phase.{
  Owner, nobody, claimant, owner, Change, stays, gives_back, count_of, is_owned, is_claimant,
  is_owner, is_held, is_taken, is_inside, is_waiting, asks, IsPhase, move-IsPhase, same_lock,
  same_owner, owns,
}

owner_of : (o : Owner) (p : ℕ) → is_owner o p ≡ true → o ≡ owner p
owner_of nobody p e = cc
owner_of (claimant r) p e = cc
owner_of (owner r) p e = ground arith

pub claimant_of : (o : Owner) (p : ℕ) → is_claimant o p ≡ true → o ≡ claimant p
claimant_of nobody p e = cc
claimant_of (owner r) p e = cc
claimant_of (claimant r) p e = ground arith

pub owned_by : (o : Owner) → is_owned o ≡ true → (r : ℕ) × (o ≡ owner r)
owned_by nobody e = absurd cc
owned_by (claimant r) e = absurd cc
owned_by (owner r) e = (r, refl)

pub free_of : (o : Owner) → 0 < count_of o → o ≡ nobody
free_of nobody lt = refl
free_of (claimant r) lt = absurd (omega (arith, lt))
free_of (owner r) lt = absurd (omega (arith, lt))

-- The state `s` comes from a phase `o` by a change of hands.
abbrev pub Follows : Owner → System → Type 0
Follows o s = (o' : Owner) × Change o o' × IsPhase s o'

pub next_round-asks :
    (t : SemLockType) (n : ℕ)
    → is_held t ≡ true
    → (is_taken (next_round t n) ≡ false)
      × (is_inside (next_round t n) ≡ false)
      × (asks (next_round t n) ≡ true)
unfolding next_round
next_round-asks t n e = ground arith

pub long-held : (t : SemLockType) → is_long t ≡ true → is_held t ≡ true
long-held no_lock e = e
long-held short_lock_unlock e = refl
long-held long_lock_unlock e = refl

pub and_left : (a b : Bool) → a && b ≡ true → a ≡ true
and_left true b e = refl
and_left false b e = e

module _ {s : System} (p : ℕ) where
  -- The owner gives the lock back.
  unlocks :
      (r : ℤ)
      → IsPhase s (owner p)
      → Follows (owner p) (move p (unlock_semaphore s.lock, outside r) s)
  unfolding unlock_semaphore
  unlocks r h = (
    nobody,
    gives_back p,
    move-IsPhase h p (record { count = ap suc h.count; held = refl; pid = refl; freed = λ e. cc })
        (record { claimed = refl; within = λ e. cc; asked = refl; waits = λ e. refl })
        (record { claimed = λ q e. refl; within = λ q e own. cc; waits = λ q e own. refl }),
  )

  leaves-owner : IsPhase s (owner p) → Follows (owner p) (move p (leave_crit_region p s.lock) s)
  unfolding leave_crit_region unlock_crit_region_private
  leaves-owner h = elim (Bool-cases (is_short s.lock.locking_type)) [
    | inl e ↦ rw e (unlocks (pos 0) h)
    | inr e ↦ elim (Bool-cases s.lock.should_be_freed) [
      | inl f ↦ rw (e, f) (unlocks timeout h)
      | inr f ↦
          rw (e, f)
            (
              owner p,
              stays (owner p),
              move-IsPhase h p
                  (record { count = h.count; held = h.held; pid = h.pid; freed = λ g. cc })
                  (record { claimed = refl; within = λ g. cc; asked = refl; waits = λ g. cc })
                  (record {
                    claimed = λ q g. refl;
                    within = λ q g own. cc;
                    waits = λ q g own. own;
                  }),
            )
    ]
  ]

module _ {s : System} {o : Owner} (h : IsPhase s o) (p : ℕ) where
  -- A process that has nothing and goes where it has nothing either.
  bystander-IsPhase :
      (there : Process)
      → is_taken (s.processes p) ≡ false
      → is_taken there ≡ false
      → is_inside there ≡ false
      → asks there ≡ true
      → (is_waiting there ≡ true → is_owner o p ≡ false)
      → IsPhase (move p (s.lock, there) s) o
  bystander-IsPhase there from to out asked waits =
      move-IsPhase h p (same_lock h p)
        (record { claimed = cc (h.claimed p); within = λ e. cc; asked = asked; waits = waits })
        (same_owner h p)

  bystander-Follows :
      (there : Process)
      → is_taken (s.processes p) ≡ false
      → is_taken there ≡ false
      → is_inside there ≡ false
      → asks there ≡ true
      → (is_waiting there ≡ true → is_owner o p ≡ false)
      → Follows o (move p (s.lock, there) s)
  bystander-Follows there from to out asked waits =
      (o, stays o, bystander-IsPhase there from to out asked waits)

  pub enters-Follows :
      (r : ℤ) → s.processes p ≡ outside r → Follows o (move p (enter_crit_region p s.lock) s)
  unfolding enter_crit_region
  enters-Follows r e = elim (Bool-cases (is_pid p s.lock.pid)) [
    | inl own ↦ rw own (
      o,
      stays o,
      move-IsPhase h p
          (record {
            count = h.count;
            held = h.held;
            pid = h.pid;
            freed = λ f. ((h.freed f).0, refl);
          })
          (record {
            claimed = cc (h.claimed p, e);
            within = λ f. (cc (owns h p), refl);
            asked = refl;
            waits = λ f. cc;
          })
          (record {
            claimed = λ q f. refl;
            within = λ q f g region. (g, refl);
            waits = λ q f g. g;
          }),
    )
    | inr foreign ↦ rw foreign (
        bystander-Follows (waiting short_lock_unlock 0) (rw e refl) refl refl refl
          (λ f. cc (owns h p)))
  ]

  pub long_locks-Follows :
      (r : ℤ)
      → s.processes p ≡ outside r
      → Follows o (move p (long_lock_of_critical_region p s.lock) s)
  unfolding long_lock_of_critical_region
  long_locks-Follows r e = elim (Bool-cases (is_pid p s.lock.pid)) [
    | inl own ↦
        rw own (bystander-Follows (outside already_locked) (rw e refl) refl refl refl (λ f. cc))
    | inr foreign ↦ rw foreign (
        bystander-Follows (waiting long_lock_unlock 0) (rw e refl) refl refl refl
          (λ f. cc (owns h p)))
  ]

  as_owner :
      {t : System}
      → is_owner o p ≡ true
      → ((g : IsPhase s (owner p)) → Follows (owner p) t)
      → Follows o t
  as_owner {t} own f =
      let e = owner_of o p own in subst (λ x. Follows x t) (sym e) (f (subst (IsPhase s) e h))

  pub leaves-Follows : s.processes p ≡ inside → Follows o (move p (leave_crit_region p s.lock) s)
  leaves-Follows e = as_owner (h.within p (rw e refl)).0 (leaves-owner p)

  pub long_unlocks-Follows :
      (r : ℤ) → s.processes p ≡ outside r → Follows o (move p (unlock_long_crit_region p s.lock) s)
  unfolding unlock_long_crit_region unlock_crit_region_private
  long_unlocks-Follows r e = elim (Bool-cases (is_pid p s.lock.pid)) [
    | inl own ↦ rw own (as_owner (cc (owns h p)) (unlocks p (pos 0)))
    | inr foreign ↦
        rw foreign (bystander-Follows (outside not_lock_owner) (rw e refl) refl refl refl (λ f. cc))
  ]
