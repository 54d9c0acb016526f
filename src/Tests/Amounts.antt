-- ===== src/Tests/Amounts.antt =====
-- Scoring, gas cut and collateral at concrete amounts.
use byos_service_ts.Prelude.{ℕ, ◌+◌, ◌*◌, ◌/◌, ◌^◌, ◌<◌, ◌≡◌, ◌↔◌, refl, true, some}
use byos_service_ts.Domain.Scoring.{Candidate, ceil_div, ether, scaled_to_fill, score_proposal}
use byos_service_ts.Domain.Scoring.Score.{Surplus, score_proposal_iff}
use byos_service_ts.Domain.Scoring.Fill.{
  WithinLimit, MeetsLimitPrice, scaled_to_fill-WithinLimit_iff,
}
use byos_service_ts.Domain.GasCut.{GasCut, gas_cut_size}
use byos_service_ts.Domain.GasCut.Limits.{CoversGas, KeepsLimit, gas_cut_size_iff}

abbrev half_fill : Candidate
half_fill = record {
  order_sell = 1000;
  order_buy = 901;
  proposal_sell = 500;
  proposal_buy = 463;
  is_sell_order = true;
  gas_cost = 3;
}

abbrev scaled : Candidate
scaled = record half_fill { order_sell = 500; order_buy = 451 }

abbrev cut : GasCut
cut = record { amount = 2; executed_amount = 498 }

score_proposal_iff_example :
    (score_proposal scaled (10 ^ 18) ≡ some 9)
    ↔ ((s : ℕ) × Surplus scaled s × (9 + scaled.gas_cost ≡ (s * 10 ^ 18) / ether))
score_proposal_iff_example = score_proposal_iff scaled (10 ^ 18) 9

scaled_to_fill-WithinLimit_iff_example : WithinLimit scaled ↔ MeetsLimitPrice half_fill
scaled_to_fill-WithinLimit_iff_example =
    scaled_to_fill-WithinLimit_iff half_fill scaled (unfold scaled_to_fill ceil_div in refl)

gas_cut_size_iff_example :
    (gas_cut_size scaled (2 * 10 ^ 18) ≡ some cut)
    ↔ ((0 < 2 * 10 ^ 18) × CoversGas scaled (2 * 10 ^ 18) cut.amount × KeepsLimit scaled cut)
gas_cut_size_iff_example = gas_cut_size_iff scaled (2 * 10 ^ 18) cut
