-- ===== src/Chain/Ending.antt =====
-- How the loop of node-manager/src/chain.rs ends, and where it does not.
use mutiny_web_poc.Prelude.{
  ℕ, ◌+◌, ◌*◌, zero, suc, arith, true, false, Option, none, some, List, [], ◌∷◌, Bytes, ◌≡◌, refl,
  partial_eq_bytes, eqb_refl,
}
use mutiny_web_poc.Prelude.Outcome.{ok, err, ◌>>>◌}
use mutiny_web_poc.Errors.{chain_access_failed}
use mutiny_web_poc.Chain.{Notice, Esplora, BlockStatus, Confirm, MutinyChain, to_set, extend}
use mutiny_web_poc.Chain.Sync.{
  return, ask, sync_best_block_updated, sync_unconfirmed_transactions, process_queues,
  registrations_are_pending, is_hash, relevant_txids,
}
use mutiny_web_poc.Chain.Loop.{
  get_confirmed_transactions, finished, again, attempt, find_and_report, round_for, round,
  sync_loop,
}
use mutiny_web_poc.Chain.Asking.{get_confirmed_transactions-Keeps}

module _ (e : Esplora) (ldk : Confirm e) (confirmables : List ℕ) where
  relevant_txids-none :
      ((c : ℕ) (notices : List (ℕ × Notice e)) → ldk.get_relevant_txids c notices ≡ [])
      → (cs : List ℕ) (notices : List (ℕ × Notice e))
      → relevant_txids e ldk confirmables cs notices ≡ []
  unfolding relevant_txids
  relevant_txids-none h [] notices = refl
  relevant_txids-none h (c ∷ cs) notices = rw (h c notices, relevant_txids-none h cs notices) refl

  abbrev asked_twice : MutinyChain e → MutinyChain e
  asked_twice s = record s { calls = suc (suc s.calls) }

  module _ (quiet : (c : ℕ) (notices : List (ℕ × Notice e)) → ldk.get_relevant_txids c notices ≡ [])
      (tip_hash : Bytes) (headers : ℕ → e.BlockHeader) (statuses : ℕ → BlockStatus)
      (has_header : (n : ℕ) → e.get_header_by_hash n tip_hash ≡ some (headers n))
      (has_status : (n : ℕ) → e.get_block_status n tip_hash ≡ some (statuses n))
      (stale : (n : ℕ) → (statuses n).in_best_chain ≡ false) where
    best_block_stale :
        (s : MutinyChain e)
        → sync_best_block_updated e ldk confirmables tip_hash s
          ≡ (err chain_access_failed, asked_twice s)
    unfolding sync_best_block_updated ask ◌>>>◌ return
    best_block_stale s = rw (has_header s.calls, has_status (suc s.calls), stale (suc s.calls)) refl

    round_stale :
        (s : MutinyChain e)
        → is_hash tip_hash s.last_sync_hash ≡ false
        → round e ldk confirmables tip_hash s
          ≡ (ok (again tip_hash), asked_twice (process_queues e s))
    unfolding round round_for sync_unconfirmed_transactions to_set extend ◌>>>◌ return attempt
    round_stale s new =
        rw
          (
            new,
            relevant_txids-none quiet confirmables (process_queues e s).notices,
            best_block_stale (process_queues e s),
          )
          refl

    -- Where LDK has no transaction that may be unconfirmed, the tip that sync started with is not the
    -- last one, and the explorer knows its block but not as one of the best chain, whatever tip it
    -- has meanwhile: after any number of rounds the loop has not come to an end. Two calls of the
    -- explorer were made in each round, nothing was reported to LDK, and the last tip is what it was.
    pub sync_loop-stale :
        (fuel : ℕ) (s : MutinyChain e)
        → is_hash tip_hash s.last_sync_hash ≡ false
        → ((sync_loop e ldk confirmables fuel tip_hash s).0 ≡ ok none)
          × ((sync_loop e ldk confirmables fuel tip_hash s).1.calls ≡ s.calls + 2 * fuel)
          × ((sync_loop e ldk confirmables fuel tip_hash s).1.notices ≡ s.notices)
          × ((sync_loop e ldk confirmables fuel tip_hash s).1.last_sync_hash ≡ s.last_sync_hash)
    unfolding sync_loop process_queues
    sync_loop-stale zero s new = (refl, omega arith, refl, refl)
    sync_loop-stale (suc fuel) s new =
        let (open_end, calls, told, last) =
          sync_loop-stale fuel (asked_twice (process_queues e s)) new in
        rw (round_stale s new) (open_end, omega (arith, calls), told, last)

  -- Nothing is queued, and the last tip and the notices are given.
  abbrev pub IsIdle : Bytes → List (ℕ × Notice e) → MutinyChain e → Type 0
  IsIdle tip_hash notices s =
      (s.queued_transactions ≡ [])
      × (s.queued_outputs ≡ [])
      × (s.last_sync_hash ≡ some tip_hash)
      × (s.notices ≡ notices)

  abbrev looked_up : MutinyChain e → MutinyChain e
  looked_up s = (get_confirmed_transactions e (process_queues e s)).1

  looked_up-IsIdle :
      (tip_hash : Bytes) (s : MutinyChain e)
      → s.last_sync_hash ≡ some tip_hash
      → IsIdle tip_hash s.notices (looked_up s)
  unfolding process_queues
  looked_up-IsIdle tip_hash s same =
      get_confirmed_transactions-Keeps e (IsIdle tip_hash s.notices) (λ v n p. p)
        (process_queues e s) (refl, refl, same, refl)

  pub is_hash-last :
      (tip_hash : Bytes) (last : Option Bytes) → last ≡ some tip_hash → is_hash tip_hash last ≡ true
  is_hash-last tip_hash last h = rw h (eqb_refl tip_hash)

  idle_pending :
      (v : MutinyChain e)
      → v.queued_transactions ≡ []
      → v.queued_outputs ≡ []
      → registrations_are_pending e v ≡ false
  unfolding registrations_are_pending
  idle_pending v txs outputs = rw (txs, outputs) refl

  pub round-idle :
      (tip_hash : Bytes) (notices : List (ℕ × Notice e)) (v : MutinyChain e)
      → IsIdle tip_hash notices v
      → round e ldk confirmables tip_hash v ≡ (ok finished, process_queues e v)
  unfolding round round_for registrations_are_pending return
  round-idle tip_hash notices v (txs, outputs, last, told) =
      rw (is_hash-last tip_hash v.last_sync_hash last, idle_pending v txs outputs) refl

  round-skips :
      (tip_hash : Bytes) (s : MutinyChain e)
      → s.last_sync_hash ≡ some tip_hash
      → registrations_are_pending e s ≡ true
      → (get_confirmed_transactions e (process_queues e s)).0 ≡ err chain_access_failed
      → round e ldk confirmables tip_hash s ≡ (ok (again tip_hash), looked_up s)
  unfolding round round_for find_and_report attempt return
  round-skips tip_hash s same pending fails =
      rw (is_hash-last tip_hash s.last_sync_hash same, pending, fails) refl

  -- Where the tip is the last one, and the explorer fails while a registration is looked up, the
  -- loop ends in the next round, and with success, although nothing was reported.
  pub sync_loop-skips :
      (fuel : ℕ) (tip_hash : Bytes) (s : MutinyChain e)
      → s.last_sync_hash ≡ some tip_hash
      → registrations_are_pending e s ≡ true
      → (get_confirmed_transactions e (process_queues e s)).0 ≡ err chain_access_failed
      → ((sync_loop e ldk confirmables (suc (suc fuel)) tip_hash s).0 ≡ ok (some tt))
        × ((sync_loop e ldk confirmables (suc (suc fuel)) tip_hash s).1.notices ≡ s.notices)
  unfolding sync_loop process_queues
  sync_loop-skips fuel tip_hash s same pending fails =
      let idle : IsIdle tip_hash s.notices (looked_up s) = looked_up-IsIdle tip_hash s same in
      let (_, _, _, told) = idle in
      rw
        (
          round-skips tip_hash s same pending fails,
          round-idle tip_hash s.notices (looked_up s) idle,
        )
        (refl, told)
