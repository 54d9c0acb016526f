-- ===== src/Balances.antt =====
-- apps/byos/src/infra/balance-cache.ts and apps/byos/src/infra/jobs/balance-refresh.ts: the balances
-- that the rate limits read. The store is Redis, of which keys that expire and one sorted set are
-- used; a call of Redis that fails is not modelled.
pub mod Parked
use byos_service_ts.Prelude.{
  ℕ, suc, zero, ◌+◌, ◌-◌, ◌*◌, Bool, true, false, not, ◌&&◌, ◌||◌, Option, none, some, List, [],
  ◌∷◌, Text, text_eq, to_lower, length, filter, leb, ltb, ◌==◌, if◌then◌else◌,
}
use byos_service_ts.Api.Limits.{CachedBalance}

-- A key's value and when it expires.
pub record Expiring : Type 0 where
  pub value : ℕ
  pub expires_at : ℕ

-- The sorted set of the addresses to refresh with their scores, in its order, and the two kinds of
-- keys.
pub record BalanceKeys : Type 0 where
  pub active : List (Text × ℕ)
  pub balances : Text → Option Expiring
  pub low : Text → Option Expiring

pub record RedisBalanceStoreOptions : Type 0 where
  pub negative_ttl_secs : ℕ
  pub balance_ttl_secs : ℕ

abbrev pub text_ltb : Text → Text → Bool
text_ltb [] [] = false
text_ltb [] (b ∷ t) = true
text_ltb (a ∷ s) [] = false
text_ltb (a ∷ s) (b ∷ t) = let rest = text_ltb s t in if a == b then rest else ltb a b

-- A sorted set's order: by score, then by member.
abbrev pub comes_before : (s t : Text × ℕ) → Bool
comes_before s t = ltb s.1 t.1 || (s.1 == t.1 && text_ltb s.0 t.0)

unfoldable pub insert_scored : Text × ℕ → List (Text × ℕ) → List (Text × ℕ)
insert_scored e [] = e ∷ []
insert_scored e (x ∷ xs) =
    let rest = insert_scored e xs in if comes_before x e then x ∷ rest else e ∷ x ∷ xs

unfoldable pub score_of : Text → List (Text × ℕ) → Option ℕ
score_of key [] = none
score_of key (x ∷ xs) = let rest = score_of key xs in if text_eq x.0 key then some x.1 else rest

-- `ZREM`
unfoldable pub zrem : Text → List (Text × ℕ) → List (Text × ℕ)
zrem key [] = []
zrem key (x ∷ xs) = let rest = zrem key xs in if text_eq x.0 key then rest else x ∷ rest

-- `ZADD`
abbrev pub zadd : Text → ℕ → List (Text × ℕ) → List (Text × ℕ)
zadd key score xs = insert_scored (key, score) (zrem key xs)

abbrev pub zadd_if_absent : Option ℕ → Text → ℕ → List (Text × ℕ) → List (Text × ℕ)
zadd_if_absent none key score xs = zadd key score xs
zadd_if_absent (some t) key score xs = xs

-- `ZADD ... NX`
abbrev pub zadd_nx : Text → ℕ → List (Text × ℕ) → List (Text × ℕ)
zadd_nx key score xs = zadd_if_absent (score_of key xs) key score xs

-- `GET`
abbrev pub live_value : ℕ → Option Expiring → Option ℕ
live_value now none = none
live_value now (some x) = if ltb now x.expires_at then some x.value else none

abbrev pub with_key : Text → Option Expiring → (Text → Option Expiring) → Text → Option Expiring
with_key key x keys other = if text_eq other key then x else keys other

abbrev pub cached : Option ℕ → CachedBalance
cached none = CachedBalance.unknown
cached (some b) = CachedBalance.known b

abbrev pub or_enrol : ℕ → Text → (low known : Option ℕ) → BalanceKeys → CachedBalance × BalanceKeys
or_enrol now key (some b) known k = (CachedBalance.known b, k)
or_enrol now key none known k = (cached known, record k { active = zadd key now k.active })

unfoldable pub lookup : ℕ → Text → BalanceKeys → CachedBalance × BalanceKeys
lookup now address k =
    let key = to_lower address in
    or_enrol now key (live_value now (k.low key)) (live_value now (k.balances key)) k

abbrev pub take : ℕ → List (Text × ℕ) → List Text
take zero xs = []
take (suc n) [] = []
take (suc n) (x ∷ xs) = x.0 ∷ take n xs

-- `ZRANGE 0 limit-1`, which is the whole set for a limit of 0.
abbrev pub active_addresses : ℕ → BalanceKeys → List Text
active_addresses limit k = take (if limit == 0 then length k.active else limit) k.active

pub record BalanceEntry : Type 0 where
  pub address : Text
  pub balance : ℕ

unfoldable pub record_one :
    RedisBalanceStoreOptions → (floor now : ℕ) → BalanceEntry → BalanceKeys → BalanceKeys
record_one options floor now e k =
    let key = to_lower e.address in
    if leb floor e.balance
    then record {
      active = zadd_nx key now k.active;
      balances =
          with_key key
            (some
              (record { value = e.balance; expires_at = now + options.balance_ttl_secs * 1000 }))
            k.balances;
      low = with_key key none k.low;
    }
    else record {
      active = zrem key k.active;
      balances = with_key key none k.balances;
      low =
          with_key key
            (some
              (record { value = e.balance; expires_at = now + options.negative_ttl_secs * 1000 }))
            k.low;
    }

unfoldable pub record_all :
    RedisBalanceStoreOptions → (floor now : ℕ) → List BalanceEntry → BalanceKeys → BalanceKeys
record_all options floor now [] k = k
record_all options floor now (e ∷ es) k =
    record_all options floor now es (record_one options floor now e k)

-- `ZREMRANGEBYSCORE -inf cutoff`, with the cutoff `now - idle`.
abbrev pub drop_idle : (now idle_ms : ℕ) → List (Text × ℕ) → List (Text × ℕ)
drop_idle now idle_ms xs = filter (λ x. ltb now (x.1 + idle_ms)) xs

abbrev pub drop : ℕ → List (Text × ℕ) → List (Text × ℕ)
drop zero xs = xs
drop (suc n) [] = []
drop (suc n) (x ∷ xs) = drop n xs

-- `ZREMRANGEBYRANK 0 -max_size-1`
unfoldable pub trim : ℕ → List (Text × ℕ) → List (Text × ℕ)
trim max_size xs = drop (length xs - max_size) xs

unfoldable pub evict : (now idle_secs max_size : ℕ) → BalanceKeys → ℕ × BalanceKeys
evict now idle_secs max_size k =
    let rest = trim max_size (drop_idle now (idle_secs * 1000) k.active) in
    (length k.active - length rest, record k { active = rest })

-- What fetchBalances answers, in the order of the batch: `none` for an address whose read failed.
abbrev pub entries_of : List Text → List (Option ℕ) → List BalanceEntry
entries_of [] bs = []
entries_of (a ∷ as_) [] = []
entries_of (a ∷ as_) (none ∷ bs) = entries_of as_ bs
entries_of (a ∷ as_) (some b ∷ bs) = record { address = a; balance = b } ∷ entries_of as_ bs

abbrev pub record_answer :
    RedisBalanceStoreOptions
    → (floor now : ℕ) → List Text
    → Option (List (Option ℕ))
    → BalanceKeys
    → BalanceKeys
record_answer options floor now batch none k = k
record_answer options floor now batch (some bs) k =
    record_all options floor now (entries_of batch bs) k

-- The batches of the loop, with `room` left in the first one, for a size above 0.
abbrev pub batch_onto : Text → Bool → List (List Text) → List (List Text)
batch_onto a fits [] = (a ∷ []) ∷ []
batch_onto a true (b ∷ bs) = (a ∷ b) ∷ bs
batch_onto a false (b ∷ bs) = (a ∷ []) ∷ b ∷ bs

unfoldable pub batches : (size room : ℕ) → List Text → List (List Text)
batches size room [] = []
batches size zero (a ∷ as_) = batch_onto a (ltb 1 size) (batches size (size - 1) as_)
batches size (suc room) (a ∷ as_) = batch_onto a (ltb 0 room) (batches size room as_)

pub record BalanceRefreshConfig : Type 0 where
  pub options : RedisBalanceStoreOptions
  pub fetch_balances : List Text → Option (List (Option ℕ))
  pub floor_wei : ℕ
  pub eviction_secs : ℕ
  pub max_active : ℕ
  pub batch_size : ℕ

unfoldable pub refresh_all : BalanceRefreshConfig → ℕ → List (List Text) → BalanceKeys → BalanceKeys
refresh_all cfg now [] k = k
refresh_all cfg now (b ∷ bs) k =
    refresh_all cfg now bs (record_answer cfg.options cfg.floor_wei now b (cfg.fetch_balances b) k)

unfoldable pub run_balance_refresh : BalanceRefreshConfig → ℕ → BalanceKeys → BalanceKeys
run_balance_refresh cfg now k =
    let kept = (evict now cfg.eviction_secs cfg.max_active k).1 in
    refresh_all cfg now
      (batches cfg.batch_size cfg.batch_size (active_addresses cfg.max_active kept)) kept
