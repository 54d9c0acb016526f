-- ===== src/Tests/Requests.antt =====
-- The public routes, at the data of the validation tests.
use byos_service_ts.Prelude.{◌≤◌, ◌⊎◌, refl, false, none, some, [], ◌∷◌, codes, All, arith, arith}
use byos_service_ts.Validation.Escrow.{validate}
use byos_service_ts.Api.{Answer}
use byos_service_ts.Api.Limits.Budget.{allowed_count, allowed_count-le}
use byos_service_ts.Api.Request.{Admitted}
use byos_service_ts.Api.Ingestion.{Service, proposal_for_validation, post_proposal}
use byos_service_ts.Api.Ingestion.Logged.{IsHeld, IsRefused, Validates, post_proposal-accounted}
use byos_service_ts.Api.Owner.{get_proposal, list_own, list_own_of_order, cancel_proposal}
use byos_service_ts.Api.Owner.Scope.{OwnOrMissing, IsOwn, reads-IsOwn}
use byos_service_ts.Tests.Data.{alice, candidate, no_tables}
use byos_service_ts.Tests.Validations.{cfg, reads}

-- Three requests within one second, of which one is over the limit of two.
allowed_count-le_example : allowed_count 2 1 (1_000 ∷ 1_100 ∷ 1_900 ∷ []) [] ≤ 2
allowed_count-le_example =
    allowed_count-le 2 1 1 (1_000 ∷ 1_100 ∷ 1_900 ∷ []) [] (omega arith) (refl, (refl, (refl, tt)))

abbrev pub service : Service
service = record { next_id = 9; store = candidate 7 ∷ []; tables = no_tables; audit = [] }

abbrev admitted : Admitted
admitted = record {
  parsed = record {
    order_uid = codes "0x77";
    order_uid_hash = codes "0x78";
    sell_token = codes "0xs";
    buy_token = codes "0xb";
    sell_amount = 500;
    min_buy_amount = 460;
    quote_buy_amount = 465;
    interactions = [];
    interactions_hash = codes "0x79";
    valid_until = 90;
    nonce = 1;
    signature = codes "0x2";
    sub_solver_address = none;
  };
  sub_solver = alice;
  auction_id = 5;
}

post_proposal-accounted_example :
    IsHeld
      (proposal_for_validation 9 admitted 3)
      5
      3
      (Validates cfg reads (some 700) [])
      service
      (post_proposal (λ q. (validate cfg reads (some 700) q []).0) 3 (Answer.ok admitted) service)
    ⊎ IsRefused
        (proposal_for_validation 9 admitted 3)
        3
        service
        (post_proposal (λ q. (validate cfg reads (some 700) q []).0) 3 (Answer.ok admitted) service)
post_proposal-accounted_example =
    post_proposal-accounted cfg reads (some 700) [] 3 admitted service refl

reads-IsOwn_example :
    OwnOrMissing (codes "0xAA") (get_proposal 7 (codes "0xAA") service)
    × All (IsOwn (codes "0xAA")) (list_own (codes "0xAA") false service)
    × All (IsOwn (codes "0xAA")) (list_own_of_order (codes "0x77") (codes "0xAA") false service)
reads-IsOwn_example = reads-IsOwn 7 (codes "0x77") (codes "0xAA") false service

abbrev cancelled : Service
cancelled = (cancel_proposal 7 (codes "0xAA") 4 service).1
