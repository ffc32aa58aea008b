-- ===== src/CritRegion/Rounds.antt =====
-- How long a call of a lock waits.
use upciedev.Prelude.{
  ℕ, suc, ◌+◌, ◌-◌, ◌<◌, ◌≤◌, ◌≡◌, ◌≢◌, refl, sym, ap, subst, ◌∙◌, Bool, true, false, ltb, if-both,
  Bool-cases, inl, inr, arith,
}
use upciedev.CritRegion.{
  SemLockType, Process, outside, inside, waiting, taken, max_rounds, is_long, lock_taken,
  lock_timed_out, next_round,
}
use upciedev.CritRegion.System.{
  System, move, down, time_out, Step, enters, leaves, long_locks, long_unlocks, downs, times_out,
  takes, alarm-processes, at_itself, at_another,
}

-- A process in a call that may wait.
abbrev pub is_busy : Process → Bool
is_busy (waiting t n) = true
is_busy (taken t) = true
is_busy _ = false

-- Steps of all processes, in which those of `p`, `n` of them, belong to one call.
pub data Call (p : ℕ) (s : System) : ℕ → System → Type 0 where
  called : Call p s 0 s
  others : {n q : ℕ} {t u : System} → Call p s n t → q ≢ p → Step t q u → Call p s n u
  own :
      {n : ℕ} {t u : System}
      → Call p s n t
      → is_busy (t.processes p) ≡ true
      → Step t p u
      → Call p s (suc n) u

-- The steps that a call still has, and that it is in one of its rounds.
rank : Process → ℕ
rank (waiting t n) = suc (max_rounds - n)
rank (taken t) = 1
rank _ = 0

InRound : Process → Type 0
InRound (waiting t n) = n < max_rounds
InRound _ = Unit

record Bounded (a b : ℕ) (there : Process) : Type 0 where
  fewer : a + rank there ≤ b
  round : InRound there

-- A step of another process leaves `p` where it is.
other-Step :
    {s : System} {q : ℕ} {t : System} (p : ℕ) → q ≢ p → Step s q t → t.processes p ≡ s.processes p
unfolding time_out
other-Step p ne (enters q r e) = at_another ne _ _
other-Step p ne (leaves q e) = at_another ne _ _
other-Step p ne (long_locks q r e) = at_another ne _ _
other-Step p ne (long_unlocks q r e) = at_another ne _ _
other-Step p ne (downs q t n e lt) = at_another ne _ _
other-Step {s} p ne (times_out q t n now e) =
    alarm-processes (lock_timed_out now s.lock).1
      (move q ((lock_timed_out now s.lock).0, next_round t n) s) p
    ∙ at_another ne (next_round t n) (s.processes p)
other-Step p ne (takes q t now e) = at_another ne _ _

next_round-Bounded :
    (t : SemLockType) (n : ℕ) → n < max_rounds → Bounded 1 (suc (max_rounds - n)) (next_round t n)
unfolding next_round rank InRound
next_round-Bounded t n lt = elim (Bool-cases (ltb (suc n) max_rounds)) [
  | inl e ↦ rw e (record { fewer = ground arith; round = ground arith })
  | inr e ↦ rw e (record { fewer = omega arith; round = tt })
]

Bounded-at :
    {cur cur' there there' : Process}
    → cur' ≡ cur
    → there' ≡ there
    → Bounded 1 (rank cur) there
    → Bounded 1 (rank cur') there'
Bounded-at from to b = rw (from, to) b

next_round-at :
    {there : Process} {n : ℕ} (k : SemLockType)
    → there ≡ waiting k n
    → InRound there
    → Bounded 1 (rank (waiting k n)) (next_round k n)
unfolding rank InRound
next_round-at {there} {n} k e round = next_round-Bounded k n (subst InRound e round)

-- An own step of a call comes nearer to its end.
own-Step :
    {s : System} {p : ℕ} {t : System}
    → Step s p t
    → is_busy (s.processes p) ≡ true
    → InRound (s.processes p)
    → Bounded 1 (rank (s.processes p)) (t.processes p)
unfolding time_out rank InRound lock_taken down
own-Step {s} (downs p k n e lt) busy round =
    let in_round : n < max_rounds = subst InRound e round in
    Bounded-at e (at_itself p (taken k) (s.processes p))
      (record { fewer = omega arith; round = tt })
own-Step {s} (times_out p k n now e) busy round =
    Bounded-at e
      (alarm-processes (lock_timed_out now s.lock).1
          (move p ((lock_timed_out now s.lock).0, next_round k n) s) p
        ∙ at_itself p (next_round k n) (s.processes p))
      (next_round-at k e round)
own-Step {s} (takes p k now e) busy round = Bounded-at e (at_itself p _ (s.processes p)) (
    if-both (Bounded 1 1) (is_long k) (record { fewer = omega arith; round = tt })
      (record { fewer = omega arith; round = tt }))
own-Step (enters p r e) busy round = absurd (cc (busy, e))
own-Step (leaves p e) busy round = absurd (cc (busy, e))
own-Step (long_locks p r e) busy round = absurd (cc (busy, e))
own-Step (long_unlocks p r e) busy round = absurd (cc (busy, e))

Call-Bounded :
    {p : ℕ} {s : System}
    → InRound (s.processes p)
    → {n : ℕ} {t : System} → Call p s n t
    → Bounded n (rank (s.processes p)) (t.processes p)
Call-Bounded round called = record { fewer = omega arith; round = round }
Call-Bounded {p} round (others c ne st) =
    subst (Bounded _ _) (sym (other-Step p ne st)) (Call-Bounded round c)
Call-Bounded round (own c busy st) =
    let b = Call-Bounded round c in
    let o = own-Step st busy b.round in
    record { fewer = omega (arith, b.fewer, o.fewer); round = o.round }

rank-start : (t : SemLockType) → rank (waiting t 0) ≡ 101
unfolding rank
rank-start t = refl

starts-InRound : {there : Process} {t : SemLockType} → there ≡ waiting t 0 → InRound there
unfolding InRound
starts-InRound e = subst InRound (sym e) (omega arith)

busy-rank : (there : Process) → rank there ≡ 0 → is_busy there ≡ false
unfolding rank
busy-rank (outside r) e = refl
busy-rank inside e = refl
busy-rank (waiting t n) e = absurd (omega (arith, e))
busy-rank (taken t) e = absurd (omega (arith, e))

busy-steps :
    (s : System) (p : ℕ) (there : Process)
    → s.processes p ≡ there
    → is_busy there ≡ true
    → (u : System) × Step s p u
busy-steps s p (waiting t n) e busy = (_, times_out p t n 0 e)
busy-steps s p (taken t) e busy = (_, takes p t 0 e)
busy-steps s p (outside r) e busy = absurd (cc busy)
busy-steps s p inside e busy = absurd (cc busy)

-- A call that has come to LockCritRegionPrivate ends, whatever the other processes do in between: its
-- process makes at most 101 steps in it, after 101 of them it is not in the call any more, and while
-- it is, it can make a step.
pub waiting_ends :
    {p n : ℕ} {s t : System} (lock_type : SemLockType)
    → s.processes p ≡ waiting lock_type 0
    → Call p s n t
    → (n ≤ 101)
      × (n ≡ 101 → is_busy (t.processes p) ≡ false)
      × (is_busy (t.processes p) ≡ true → (u : System) × Step t p u)
waiting_ends {p} {n} {s} {t} lock_type e c =
    let b = Call-Bounded (starts-InRound e) c in
    let whole : rank (s.processes p) ≡ 101 = ap rank e ∙ rank-start lock_type in
    (
      omega (arith, b.fewer, whole),
      λ all. busy-rank (t.processes p) (omega (arith, b.fewer, whole, all)),
      busy-steps t p (t.processes p) refl,
    )
