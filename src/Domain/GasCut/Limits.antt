-- ===== src/Domain/GasCut/Limits.antt =====
-- What `gasCutSize` of apps/byos/src/domain/gas-cut.ts guarantees: the gas is paid and the user
-- keeps the limit that was signed.
use byos_service_ts.Prelude.{ℕ, ◌+◌, ◌*◌, ◌≤◌, ◌<◌, ◌≡◌, ◌↔◌, ◌⊎◌, true, false, some, arith}
use byos_service_ts.Domain.Scoring.{Candidate, ceil_div, ether}
use byos_service_ts.Domain.Scoring.Fill.{ceil_div-le_iff, le_div_iff}
use byos_service_ts.Domain.GasCut.{GasCut, gas_cut_size}

-- The least amount of sell tokens that is worth the gas.
pub record CoversGas (c : Candidate) (price amount : ℕ) : Type 0 where
  pub enough : c.gas_cost * ether ≤ amount * price
  pub least : (a : ℕ) → (amount ≤ a) ⊎ (a * price < c.gas_cost * ether)

-- A sell order still receives its limit for the part that is executed; a buy order pays the
-- route and the cut within its limit.
abbrev pub KeepsLimit : Candidate → GasCut → Type 0
KeepsLimit c cut =
    ((c.is_sell_order ≡ true)
      × (cut.executed_amount + cut.amount ≡ c.order_sell)
      × (0 < c.proposal_sell)
      × (c.order_buy * c.proposal_sell ≤ c.proposal_buy * cut.executed_amount))
    ⊎ ((c.is_sell_order ≡ false)
        × (cut.executed_amount ≡ c.order_buy)
        × (c.proposal_sell + cut.amount ≤ c.order_sell))

ceil_div-CoversGas :
    (c : Candidate) (price : ℕ)
    → 0 < price
    → CoversGas c price (ceil_div (c.gas_cost * ether) price)
ceil_div-CoversGas c price h = record {
  enough =
      (ceil_div-le_iff (c.gas_cost * ether) price (ceil_div (c.gas_cost * ether) price) h).0
        (omega arith);
  least = λ a. ground (arith, ceil_div-le_iff (c.gas_cost * ether) price a h);
}

CoversGas-unique :
    (c : Candidate) (price amount : ℕ)
    → 0 < price
    → CoversGas c price amount
    → amount ≡ ceil_div (c.gas_cost * ether) price
CoversGas-unique c price amount h v = omega (
  arith,
  v.least (ceil_div (c.gas_cost * ether) price),
  (ceil_div-CoversGas c price h).enough,
  (ceil_div-CoversGas c price h).least amount,
  v.enough,
)

-- The cut in terms of the rounded-up gas bill, whatever that is.
cut_shape :
    (c : Candidate) (price : ℕ) (cut : GasCut)
    → gas_cut_size c price ≡ some cut
    → (0 < price) × (cut.amount ≡ ceil_div (c.gas_cost * ether) price) × KeepsLimit c cut
unfolding gas_cut_size
cut_shape c price cut h =
    ground (arith, le_div_iff c.proposal_sell c.order_buy (c.proposal_buy * cut.executed_amount))

cut_made :
    (c : Candidate) (price : ℕ) (cut : GasCut)
    → 0 < price
    → cut.amount ≡ ceil_div (c.gas_cost * ether) price
    → KeepsLimit c cut
    → gas_cut_size c price ≡ some cut
unfolding gas_cut_size
cut_made c price cut h e k =
    ground (arith, le_div_iff c.proposal_sell c.order_buy (c.proposal_buy * cut.executed_amount))

-- A cut is made exactly when the sell token has a price, the amount is the least that pays the
-- gas at that price, and the user keeps the signed limit.
pub gas_cut_size_iff :
    (c : Candidate) (price : ℕ) (cut : GasCut)
    → (gas_cut_size c price ≡ some cut)
      ↔ ((0 < price) × CoversGas c price cut.amount × KeepsLimit c cut)
gas_cut_size_iff c price cut = (
  λ h.
      let (priced, amount, keeps) = cut_shape c price cut h in
      (priced, rw amount (ceil_div-CoversGas c price priced), keeps),
  λ h. cut_made c price cut h.0 (CoversGas-unique c price cut.amount h.0 h.1) h.2,
)
