-- ===== src/CritRegion/Phase/Steps.antt =====
-- How each step changes who has the lock.
use upciedev.Prelude.{ℕ}
use upciedev.CritRegion.{}
use upciedev.CritRegion.System.{
  System, Step, enters, leaves, long_locks, long_unlocks, downs, times_out, takes,
}
use upciedev.CritRegion.Phase.{Owner, IsPhase}
use upciedev.CritRegion.Phase.Moves.{
  Follows, enters-Follows, leaves-Follows, long_locks-Follows, long_unlocks-Follows,
}
use upciedev.CritRegion.Phase.Rounds.{downs-Follows, times_out-Follows, takes-Follows}

-- Every step changes who has the lock in one of the ways of `Change`.
pub Step-Follows :
    {s : System} {p : ℕ} {t : System} {o : Owner} → Step s p t → IsPhase s o → Follows o t
Step-Follows (enters p r e) h = enters-Follows h p r e
Step-Follows (leaves p e) h = leaves-Follows h p e
Step-Follows (long_locks p r e) h = long_locks-Follows h p r e
Step-Follows (long_unlocks p r e) h = long_unlocks-Follows h p r e
Step-Follows (downs p t n e lt) h = downs-Follows h p t n e lt
Step-Follows (times_out p t n now e) h = times_out-Follows h p t n now e
Step-Follows (takes p t now e) h = takes-Follows h p t now e
