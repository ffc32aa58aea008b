-- ===== src/Examples/Stuck.antt =====
-- Requests that leave the mutex of a board held.
use upciedev.Prelude.{none, some}
use upciedev.Kernel.{Kernel}
use upciedev.Boards.Steps.{Steps}
use upciedev.Examples.FileRequests.{answering, ioc_request}

-- A user whose memory cannot be read.
abbrev unreadable : Kernel
unreadable = answering none

-- A user who asks for a read of 32 bits.
abbrev asking : Kernel
asking = answering (some (ioc_request 0))
