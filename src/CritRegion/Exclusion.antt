-- ===== src/CritRegion/Exclusion.antt =====
-- Who can be inside the region.
use upciedev.Prelude.{ℕ, ◌≤◌, ◌≡◌, refl, true, arith}
use upciedev.CritRegion.{inside}
use upciedev.CritRegion.System.{System, Reach, starts, next}
use upciedev.CritRegion.Phase.{
  Owner, nobody, claimant, owner, is_owner, count_of, IsPhase, start-IsPhase,
}
use upciedev.CritRegion.Phase.Steps.{Step-Follows}

pub Reach-IsPhase : {jiffies : ℕ} {s : System} → Reach jiffies s → (o : Owner) × IsPhase s o
Reach-IsPhase {jiffies} starts = (nobody, start-IsPhase jiffies)
Reach-IsPhase (next r st) =
    let (o, h) = Reach-IsPhase r in let (o', c, h') = Step-Follows st h in (o', h')

is_owner-same : (o : Owner) (p q : ℕ) → is_owner o p ≡ true → is_owner o q ≡ true → p ≡ q
is_owner-same nobody p q e f = absurd cc
is_owner-same (claimant r) p q e f = absurd cc
is_owner-same (owner r) p q e f = ground arith

count_of-le : (o : Owner) → count_of o ≤ 1
count_of-le nobody = omega arith
count_of-le (claimant p) = omega arith
count_of-le (owner p) = omega arith

-- However the calls and time-outs of any number of processes mix, two processes are never inside the
-- region together, and the count of the semaphore is never above one; a process that leaves only when
-- it is inside may enter, lock and unlock as it likes.
pub mutual_exclusion :
    {jiffies : ℕ} {s : System} (p q : ℕ)
    → Reach jiffies s
    → s.processes p ≡ inside
    → s.processes q ≡ inside
    → (p ≡ q) × (s.lock.semaphore ≤ 1)
mutual_exclusion p q r in_p in_q =
    let (o, h) = Reach-IsPhase r in
    (
      is_owner-same o p q (h.within p (rw in_p refl)).0 (h.within q (rw in_q refl)).0,
      rw h.count (count_of-le o),
    )
