-- ===== src/Tests/Abandoned.antt =====
-- An attempt that was started and given up, whose debit lands: it is executed twice.
use byos_service_ts.Prelude.{refl, none, some, Option, [], ◌∷◌, codes, ◌≡◌}
use byos_service_ts.Domain.Collateral.{non_settlement_debit}
use byos_service_ts.Debit.{Operations}
use byos_service_ts.Debit.Worker.{Answer, LandedDebit}
use byos_service_ts.Attempts.{new_attempt, record_evidence}
use byos_service_ts.Jobs.Penalties.{AttemptRow, PenaltyBooks, execute_non_settlement_penalty}
use byos_service_ts.Jobs.Penalties.Settled.{execute_non_settlement_penalty_once}
use byos_service_ts.Tests.Data.{alice, tx_one, two_live}
use byos_service_ts.Tests.Debits.{bob, held}
use byos_service_ts.Tests.Charges.{given_up}

abbrev row : AttemptRow
row = record {
  attempt = given_up;
  proposal_id = 1;
  sub_solver = alice;
  order_uid = codes "0x77";
  members = 1 ∷ [];
}

abbrev books : PenaltyBooks
books = record { attempts = row ∷ []; tables = two_live; operations = held ∷ []; audit = [] }

abbrev landed : LandedDebit
landed = record { hash = tx_one; operation_id = 1; owner = bob }

abbrev lands : Operations → Answer (Option LandedDebit) × Operations
lands t = (Answer.returned (some landed), t)

abbrev after : PenaltyBooks
after = (execute_non_settlement_penalty 1 lands books).1

execute_non_settlement_penalty_once_example :
    execute_non_settlement_penalty 1 lands after ≡ (Answer.returned none, after)
execute_non_settlement_penalty_once_example =
    execute_non_settlement_penalty_once 1 lands lands books landed (
      unfold execute_non_settlement_penalty new_attempt record_evidence non_settlement_debit in
      refl)
