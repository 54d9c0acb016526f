-- ===== src/Tests/Enrolled.antt =====
-- Two addresses in the balance cache: one is funded, the other falls below the floor of 100.
use byos_service_ts.Prelude.{ℕ, ◌≡◌, refl, none, some, inl, inr, [], ◌∷◌, codes, to_lower, arith}
use byos_service_ts.Balances.{
  BalanceKeys, RedisBalanceStoreOptions, BalanceEntry, score_of, record_one, record_all, batches,
  run_balance_refresh, evict, trim, refresh_all, zrem,
}
use byos_service_ts.Balances.Parked.{after_lookups, record_one-lookups, record_all-last_seen}

abbrev keys : BalanceKeys
keys = record {
  active = (codes "0xaa", 10) ∷ (codes "0xbb", 20) ∷ [];
  balances = λ key. none;
  low = λ key. none;
}

abbrev options : RedisBalanceStoreOptions
options = record { negative_ttl_secs = 60; balance_ttl_secs = 600 }

abbrev entry : ℕ → BalanceEntry
entry b = record { address = codes "0xBB"; balance = b }

abbrev looked_up : BalanceKeys
looked_up =
    after_lookups ((1_000, codes "0xbb") ∷ (2_000, codes "0xcc") ∷ [])
      (record_one options 100 30 (entry 99) keys)

abbrev refreshed : BalanceKeys
refreshed =
    record_all options 100 30 (entry 99 ∷ record { address = codes "0xAA"; balance = 150 } ∷ [])
      keys

record_one-lookups_example : score_of (to_lower (codes "0xBB")) looked_up.active ≡ none
record_one-lookups_example =
    record_one-lookups options 100 30 (entry 99) keys
      ((1_000, codes "0xbb") ∷ (2_000, codes "0xcc") ∷ []) (omega arith)
      (omega arith, (omega arith, tt))

record_all-last_seen_example : score_of (codes "0xaa") refreshed.active ≡ some 10
record_all-last_seen_example =
    record_all-last_seen options 100 30 (codes "0xaa") 10
      (entry 99 ∷ record { address = codes "0xAA"; balance = 150 } ∷ []) keys
      (inl (unfold to_lower in refl), (inr (omega arith), tt)) (unfold score_of in refl)

-- The tick reads two addresses in one batch: the second falls below the floor.
one_tick :
    (run_balance_refresh
      (record {
        options = options;
        fetch_balances = λ batch. some (some 150 ∷ some 99 ∷ []);
        floor_wei = 100;
        eviction_secs = 60;
        max_active = 5;
        batch_size = 2;
      })
      30
      keys).active
    ≡ (codes "0xaa", 10) ∷ []
unfolding run_balance_refresh refresh_all record_all record_one batches evict trim zrem to_lower
    score_of
one_tick = refl

two_batches :
    batches 2 2 (codes "0xa" ∷ codes "0xb" ∷ codes "0xc" ∷ [])
    ≡ (codes "0xa" ∷ codes "0xb" ∷ []) ∷ (codes "0xc" ∷ []) ∷ []
unfolding batches
two_batches = refl
