-- ===== src/Chain/Tests.antt =====
-- The chain of node-manager/src/chain.rs at concrete inputs: an explorer with one block and one
-- transaction, one that lost its tip, and LDK with one object that registers nothing.
use mutiny_web_poc.Prelude.Assoc
use mutiny_web_poc.Prelude.{
  ◌+◌, ◌*◌, ℕ, ◌<◌, ◌≤◌, ◌*◌, ◌^◌, Bool, true, false, Option, none, some, List, [], ◌∷◌, Bytes, ◌≡◌,
  refl, codes, arith, partial_eq_bytes,
}
use mutiny_web_poc.Prelude.Outcome.{◌>>>◌, ok}
use mutiny_web_poc.Chain.{extend, Esplora, MerkleProof, Confirm, MutinyChain, ConfirmedTx}
use mutiny_web_poc.Chain.Sync.{process_queues, registrations_are_pending, register_tx}
use mutiny_web_poc.Chain.Loop.{get_confirmed_transactions, sync, sync_loop, sort_txs}
use mutiny_web_poc.Chain.Tracked.{IsTracked, register_tx-IsTracked}
use mutiny_web_poc.Chain.Fees.{
  get_est_sat_per_1000_weight, get_est_sat_per_1000_weight-bounds, normal,
}
use mutiny_web_poc.Chain.Kept.{sync-IsTracked}
use mutiny_web_poc.Chain.Ending.{sync_loop-stale, sync_loop-skips}
use mutiny_web_poc.Chain.Steady.{IsSteady}
use mutiny_web_poc.Chain.Ends.{sync-ends}
use mutiny_web_poc.Chain.Order.{sort_txs-IsSorted, IsSorted, count}

abbrev tip : Bytes
tip = codes "b7"

abbrev payment : Bytes
payment = codes "tx"

-- In the best chain or not; with or without an answer for proofs.
abbrev explorer : Bool → Option (Option MerkleProof) → Esplora
explorer best proof = record {
  Transaction = Bytes;
  BlockHeader = Bytes;
  WatchedOutput = Bytes;
  outputs_eq = partial_eq_bytes;
  outpoint = λ o. (o, 0);
  txid = λ t. t;
  get_tip_hash = λ n. some tip;
  get_header_by_hash = λ n hash. some hash;
  get_block_status = λ n hash. some (record { in_best_chain = best; height = some 7 });
  get_merkle_proof = λ n txid. proof;
  get_block_hash = λ n height. some tip;
  get_tx = λ n txid. some (some txid);
  get_output_status = λ n txid i. some none;
}

abbrev confirmed : Esplora
confirmed = explorer true (some (some (record { block_height = 7; pos = 2 })))

abbrev ldk : (e : Esplora) → Confirm e
ldk e = record {
  get_relevant_txids = λ c notices. [];
  registered_txs = λ c n. [];
  registered_outputs = λ c n. [];
}

abbrev chain : (e : Esplora) → Option Bytes → MutinyChain e
chain e last = record {
  queued_transactions = payment ∷ [];
  watched_transactions = [];
  queued_outputs = [];
  watched_outputs = [];
  last_sync_hash = last;
  notices = [];
  calls = 0;
}

sync-IsTracked_example :
    IsTracked confirmed payment
      (sync confirmed
        (ldk confirmed)
        (1 ∷ [])
        2
        (register_tx confirmed payment (chain confirmed none))).1
sync-IsTracked_example =
    sync-IsTracked confirmed payment (ldk confirmed) 1 [] 2
      (register_tx confirmed payment (chain confirmed none))
      (register_tx-IsTracked confirmed payment (chain confirmed none))

get_est_sat_per_1000_weight-bounds_example : (253 ≤ 1500) × (1500 < 2 ^ 32)
unfolding get_est_sat_per_1000_weight Assoc.get
get_est_sat_per_1000_weight-bounds_example =
    get_est_sat_per_1000_weight-bounds ℕ (λ rate. some (rate * 250)) (λ n. n ∷ []) 253
      (ok ((12 ∷ [], 1) ∷ (6 ∷ [], 6) ∷ [])) normal 1500 (omega arith) refl

abbrev lost : Esplora
lost = explorer false (some none)

sync_loop-stale_example :
    ((sync_loop lost (ldk lost) (1 ∷ []) 9 tip (chain lost none)).0 ≡ ok none)
    × ((sync_loop lost (ldk lost) (1 ∷ []) 9 tip (chain lost none)).1.calls
        ≡ (chain lost none).calls + 2 * 9)
    × ((sync_loop lost (ldk lost) (1 ∷ []) 9 tip (chain lost none)).1.notices ≡ [])
    × ((sync_loop lost (ldk lost) (1 ∷ []) 9 tip (chain lost none)).1.last_sync_hash ≡ none)
sync_loop-stale_example =
    sync_loop-stale lost (ldk lost) (1 ∷ []) (λ c ns. refl) tip (λ n. tip)
      (λ n. record { in_best_chain = false; height = some 7 }) (λ n. refl) (λ n. refl) (λ n. refl) 9
      (chain lost none) refl

abbrev broken : Esplora
broken = explorer true none

sync_loop-skips_example :
    ((sync_loop broken (ldk broken) (1 ∷ []) 3 tip (chain broken (some tip))).0 ≡ ok (some tt))
    × ((sync_loop broken (ldk broken) (1 ∷ []) 3 tip (chain broken (some tip))).1.notices ≡ [])
unfolding registrations_are_pending get_confirmed_transactions ◌>>>◌ process_queues extend
    Assoc.contains
sync_loop-skips_example =
    sync_loop-skips broken (ldk broken) (1 ∷ []) 1 tip (chain broken (some tip)) refl refl refl

steady : IsSteady confirmed tip
steady = record {
  tips = λ n. refl;
  headers = λ n hash. (hash, refl);
  statuses = λ n hash. (record { in_best_chain = true; height = some 7 }, refl);
  best = λ n b h. ground arith;
  proofs = λ n txid. (some (record { block_height = 7; pos = 2 }), refl);
  hashes = λ n height. (tip, refl);
  txs = λ n txid. (some txid, refl);
  outputs = λ n txid i. (none, refl);
  agree = λ n m k txid spender i status proof hash h p q. absurd (ground arith);
}

sync-ends_example :
    ((sync confirmed (ldk confirmed) (1 ∷ []) 2 (chain confirmed none)).0 ≡ ok (some tt))
    × ((sync confirmed (ldk confirmed) (1 ∷ []) 2 (chain confirmed none)).1.queued_transactions
        ≡ [])
    × ((sync confirmed (ldk confirmed) (1 ∷ []) 2 (chain confirmed none)).1.queued_outputs ≡ [])
    × ((sync confirmed (ldk confirmed) (1 ∷ []) 2 (chain confirmed none)).1.last_sync_hash
        ≡ some tip)
sync-ends_example =
    sync-ends confirmed tip steady (ldk confirmed) (1 ∷ []) (λ c n. refl) (λ c n. refl) 0
      (chain confirmed none)

abbrev tx_at : ℕ → ℕ → ConfirmedTx confirmed
tx_at height pos = record { tx = payment; block_header = tip; block_height = height; pos = pos }

abbrev unsorted : List (ConfirmedTx confirmed)
unsorted = tx_at 9 1 ∷ tx_at 7 5 ∷ tx_at 7 2 ∷ []

sort_txs_runs : sort_txs confirmed unsorted ≡ tx_at 7 2 ∷ tx_at 7 5 ∷ tx_at 9 1 ∷ []
unfolding sort_txs
sort_txs_runs = refl

sort_txs-IsSorted_example :
    IsSorted confirmed (sort_txs confirmed unsorted)
    × (count confirmed (λ t. true) (sort_txs confirmed unsorted) ≡ 3)
sort_txs-IsSorted_example = sort_txs-IsSorted confirmed unsorted (λ t. true)
