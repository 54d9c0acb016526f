-- ===== src/Validation/Escrow.antt =====
-- `EscrowValidator` of apps/byos/src/infra/blockchain/escrow.ts and `ProposalValidator` of
-- validator.ts: the escrow's floor first, from a cache that lasts one auction.
use byos_service_ts.Prelude.{
  ℕ, Option, none, some, List, [], ◌∷◌, Text, text_eq, to_lower, ltb, if◌then◌else◌,
}
use byos_service_ts.Domain.Status.{RejectionReason}
use byos_service_ts.Domain.Proposal.{Proposal}
use byos_service_ts.Validation.{Verdict, Reads, ValidatorConfig}
use byos_service_ts.Validation.Gates.{validate_simulation}

-- Lowercase addresses with the balances read; a read that fails is not kept.
abbrev pub BalanceCache : Type 0
BalanceCache = List (Text × ℕ)

abbrev pub cached : Text → BalanceCache → Option ℕ
cached key [] = none
cached key (e ∷ cache) = if text_eq e.0 key then some e.1 else cached key cache

-- `Map.set`, on an entry that goes first.
abbrev pub cache_set : Text → ℕ → BalanceCache → BalanceCache
cache_set key balance cache = (key, balance) ∷ cache

pub begin_auction : BalanceCache → BalanceCache
begin_auction cache = []

-- The balances of a batch, `none` where one could not be read.
unfoldable pub prefetch_balances : List (Text × Option ℕ) → BalanceCache → BalanceCache
prefetch_balances [] cache = cache
prefetch_balances ((address, none) ∷ rest) cache = prefetch_balances rest cache
prefetch_balances ((address, some balance) ∷ rest) cache =
    prefetch_balances rest (cache_set (to_lower address) balance cache)

abbrev pub keep_read : Text → Option ℕ → BalanceCache → Option ℕ × BalanceCache
keep_read key none cache = (none, cache)
keep_read key (some balance) cache = (some balance, cache_set key balance cache)

abbrev pub hit_or_read : Text → Option ℕ → Option ℕ → BalanceCache → Option ℕ × BalanceCache
hit_or_read key (some balance) read cache = (some balance, cache)
hit_or_read key none read cache = keep_read key read cache

-- `read` is what the escrow contract answers now.
unfoldable pub get_balance : Text → Option ℕ → BalanceCache → Option ℕ × BalanceCache
get_balance sub_solver read cache =
    hit_or_read (to_lower sub_solver) (cached (to_lower sub_solver) cache) read cache

-- Gate 1.
abbrev pub floor_verdict : ℕ → Option ℕ → Option Verdict
floor_verdict min_collateral none = none
floor_verdict min_collateral (some balance) =
    if ltb balance min_collateral
    then some (Verdict.reject RejectionReason.insufficient_escrow)
    else some (Verdict.accept none)

unfoldable pub validate_escrow :
    ℕ → Option ℕ → Proposal → BalanceCache → Option Verdict × BalanceCache
validate_escrow min_collateral read p cache =
    let (balance, cache') = get_balance p.sub_solver read cache in
    (floor_verdict min_collateral balance, cache')

abbrev pub then_simulate : ValidatorConfig → Reads → Proposal → Option Verdict → Option Verdict
then_simulate cfg reads p (some (Verdict.accept simulation)) = validate_simulation cfg reads p
then_simulate cfg reads p v = v

-- `ProposalValidator.validate`.
unfoldable pub validate :
    ValidatorConfig → Reads → Option ℕ → Proposal → BalanceCache → Option Verdict × BalanceCache
validate cfg reads read p cache =
    let (verdict, cache') = validate_escrow cfg.min_collateral read p cache in
    (then_simulate cfg reads p verdict, cache')
