-- ===== src/Tests/Orders.antt =====
-- The checks of a proposal against its order, at the order of the test data.
use byos_service_ts.Prelude.{◌≡◌, ◌↔◌, inl, refl, true, none, some, arith, to_lower}
use byos_service_ts.Domain.Order.{OrderKind, check_envelope, token_eq}
use byos_service_ts.Domain.Order.Envelope.{FitsEnvelope, check_envelope_iff}
use byos_service_ts.Domain.Order.Scored.{candidate_of, check_envelope-WithinLimit}
use byos_service_ts.Domain.Scoring.{Candidate, scaled_to_fill}
use byos_service_ts.Domain.Scoring.Fill.{WithinLimit}
use byos_service_ts.Tests.Data.{order, order_record, proposal}

check_envelope_iff_example :
    (check_envelope order_record (proposal 7) ≡ none) ↔ FitsEnvelope order_record (proposal 7)
check_envelope_iff_example = check_envelope_iff order_record (proposal 7)

check_envelope-WithinLimit_example :
    (s : Candidate) × (scaled_to_fill (candidate_of OrderKind.sell order (proposal 7) 463 3) true
      ≡ some s)
    × WithinLimit s
check_envelope-WithinLimit_example =
    check_envelope-WithinLimit order_record (proposal 7) 463 3
      (unfold check_envelope token_eq to_lower in refl) (omega arith) (inl refl)
