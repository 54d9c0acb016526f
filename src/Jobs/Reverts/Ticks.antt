-- ===== src/Jobs/Reverts/Ticks.antt =====
-- A whole tick of runRevertDebits (apps/byos/src/infra/jobs/penalty.ts), item by item.
use byos_service_ts.Prelude.{◌≡◌, List, [], ◌∷◌}
use byos_service_ts.Domain.Proposal.{Proposal}
use byos_service_ts.Debit.Payload as Payload
use byos_service_ts.Jobs.Reverts.{Books, RevertReads, Progress, books_of, revert_one}
use byos_service_ts.Jobs.Reverts.Charged.{ChargedOrKept}

-- One item after another: all of these proposals, unless an item ends with an exception, which
-- ends the tick there.
pub data Charges (reads : RevertReads) : List Proposal → Books → Progress → Type 0 where
  done : (b : Books) → Charges reads [] b (Progress.onward b)
  item :
      (p : Proposal) (ps : List Proposal) (b c : Books) (r : Progress)
      → revert_one reads p b ≡ Progress.onward c
      → ChargedOrKept reads p b c
      → Charges reads ps c r
      → Charges reads (p ∷ ps) b r
  stopped :
      (p : Proposal) (ps : List Proposal) (b c : Books)
      → revert_one reads p b ≡ Progress.aborted c
      → ChargedOrKept reads p b c
      → Charges reads (p ∷ ps) b (Progress.aborted c)

-- The debit operations change by statements on them only.
abbrev pub Follows : Books → Progress → Type 0
Follows b r = Payload.Reach b.operations (books_of r).operations
