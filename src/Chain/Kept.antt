-- ===== src/Chain/Kept.antt =====
-- What a synchronization of node-manager/src/chain.rs keeps track of, however it ends.
use mutiny_web_poc.Prelude.{
  ℕ, zero, suc, Bool, true, false, Option, none, some, List, ◌∷◌, Bytes, ◌==◌, partial_eq_bytes,
  not,
}
use mutiny_web_poc.Prelude.Outcome.{Outcome, ok, err, panic}
use mutiny_web_poc.Errors.{MutinyError, chain_access_failed}
use mutiny_web_poc.Chain.{
  Esplora, best_block_updated, Confirm, MutinyChain, ConfirmedTx, to_set, relevant_eq,
}
use mutiny_web_poc.Chain.Sync.{
  Method, for_each, best_block, sync_best_block_updated, forget_outputs, confirm,
  sync_confirmed_transactions, sync_unconfirmed, sync_unconfirmed_transactions, process_queues,
  registrations_are_pending, is_hash, relevant_txids,
}
use mutiny_web_poc.Chain.Loop.{
  Found, get_confirmed_transactions, Next, finished, again, keep_tip, report, find_and_report,
  round_for, round, next, sync_loop, sync,
}
use mutiny_web_poc.Chain.Tracked.{
  IsTracked, for_each-preserves, process_queues-IsTracked, notify_all-IsTracked, confirm-IsTracked,
  unconfirm-IsTracked,
}
use mutiny_web_poc.Chain.Asking.{
  Keeps, Keeps-chain, Keeps-return, Keeps-ask-then, Keeps-if, attempt-Keeps,
  get_confirmed_transactions-Keeps,
}

module _ (e : Esplora) (x : Bytes) where
  on_calls : (s : MutinyChain e) (n : ℕ) → IsTracked e x s → IsTracked e x (record s { calls = n })
  unfolding IsTracked
  on_calls s n h = h

  keep_tip-Keeps : (tip : Bytes) → Keeps e (IsTracked e x) on_calls (keep_tip e tip)
  unfolding keep_tip IsTracked
  keep_tip-Keeps tip s h = h

  -- LDK's objects, of which there is at least one.
  module _ (ldk : Confirm e) (first : ℕ) (others : List ℕ) where
    abbrev objects : List ℕ
    objects = first ∷ others

    forget_outputs-Keeps :
        (spent : List e.WatchedOutput)
        → Keeps e (IsTracked e x) on_calls (forget_outputs e ldk objects spent)
    unfolding forget_outputs IsTracked
    forget_outputs-Keeps spent s h = h

    sync_confirmed_transactions-Keeps :
        (txs : List (ConfirmedTx e)) (spent : List e.WatchedOutput)
        → Keeps e (IsTracked e x) on_calls (sync_confirmed_transactions e ldk objects txs spent)
    unfolding sync_confirmed_transactions
    sync_confirmed_transactions-Keeps txs spent =
        Keeps-chain e (IsTracked e x) on_calls (for_each e txs (confirm e ldk objects))
          (λ _. forget_outputs e ldk objects spent)
          (for_each-preserves e x (IsTracked e x) (confirm e ldk objects)
            (confirm-IsTracked e x ldk first others) txs)
          λ _. forget_outputs-Keeps spent

    sync_unconfirmed-Keeps :
        (r : Bytes × Option Bytes)
        → Keeps e (IsTracked e x) on_calls (sync_unconfirmed e ldk objects r)
    unfolding sync_unconfirmed
    sync_unconfirmed-Keeps (txid, none) = unconfirm-IsTracked e x ldk first others txid
    sync_unconfirmed-Keeps (txid, some hash) =
        Keeps-ask-then e (IsTracked e x) on_calls (λ n. e.get_block_status n hash) _
          λ status.
            Keeps-if e (IsTracked e x) on_calls status.in_best_chain _ _
              (Keeps-return e (IsTracked e x) on_calls (ok tt))
              (unconfirm-IsTracked e x ldk first others txid)

    sync_unconfirmed_transactions-Keeps :
        Keeps e (IsTracked e x) on_calls (sync_unconfirmed_transactions e ldk objects)
    unfolding sync_unconfirmed_transactions
    sync_unconfirmed_transactions-Keeps s =
        for_each-preserves e x (IsTracked e x) (sync_unconfirmed e ldk objects)
          sync_unconfirmed-Keeps
          (to_set ⦃eq = relevant_eq⦄ (relevant_txids e ldk objects objects s.notices)) s

    best_block-Keeps :
        (header : e.BlockHeader) (height : Option ℕ)
        → Keeps e (IsTracked e x) on_calls (best_block e ldk objects header height)
    best_block-Keeps header none = Keeps-return e (IsTracked e x) on_calls (ok tt)
    best_block-Keeps header (some height) =
        notify_all-IsTracked e x ldk first others (best_block_updated header height)

    sync_best_block_updated-Keeps :
        (tip : Bytes) → Keeps e (IsTracked e x) on_calls (sync_best_block_updated e ldk objects tip)
    unfolding sync_best_block_updated
    sync_best_block_updated-Keeps tip =
        Keeps-ask-then e (IsTracked e x) on_calls (λ n. e.get_header_by_hash n tip) _
          λ header.
            Keeps-ask-then e (IsTracked e x) on_calls (λ n. e.get_block_status n tip) _
              λ status.
                Keeps-if e (IsTracked e x) on_calls status.in_best_chain _ _
                  (best_block-Keeps header status.height)
                  (Keeps-return e (IsTracked e x) on_calls {A = Unit {0}} (err chain_access_failed))

    report-Keeps :
        (tip : Bytes) (found : Found e)
        → Keeps e (IsTracked e x) on_calls (report e ldk objects tip found)
    unfolding report
    report-Keeps tip found = Keeps-ask-then e (IsTracked e x) on_calls e.get_tip_hash _ λ check.
        Keeps-if e (IsTracked e x) on_calls (check == tip) _ _
          (Keeps-chain e (IsTracked e x) on_calls
            (sync_confirmed_transactions e ldk objects found.confirmed_txs found.spent_outputs)
            (λ _. keep_tip e tip)
            (sync_confirmed_transactions-Keeps found.confirmed_txs found.spent_outputs)
            λ _. keep_tip-Keeps tip)
          (Keeps-return e (IsTracked e x) on_calls {A = Next e} (ok (again check)))

    find_and_report-Keeps :
        (tip : Bytes) → Keeps e (IsTracked e x) on_calls (find_and_report e ldk objects tip)
    unfolding find_and_report
    find_and_report-Keeps tip =
        attempt-Keeps e (IsTracked e x) on_calls tip (get_confirmed_transactions e)
          (report e ldk objects tip) (get_confirmed_transactions-Keeps e (IsTracked e x) on_calls)
          (report-Keeps tip)

    round_for-Keeps :
        (pending new : Bool) (tip : Bytes)
        → Keeps e (IsTracked e x) on_calls (round_for e ldk objects pending new tip)
    unfolding round_for
    round_for-Keeps pending true tip =
        Keeps-chain e (IsTracked e x) on_calls (sync_unconfirmed_transactions e ldk objects) _
          sync_unconfirmed_transactions-Keeps
          λ _.
            attempt-Keeps e (IsTracked e x) on_calls tip (sync_best_block_updated e ldk objects tip)
              (λ _. find_and_report e ldk objects tip) (sync_best_block_updated-Keeps tip)
              λ _. find_and_report-Keeps tip
    round_for-Keeps true false tip = find_and_report-Keeps tip
    round_for-Keeps false false tip =
        Keeps-return e (IsTracked e x) on_calls {A = Next e} (ok finished)

    round-Keeps : (tip : Bytes) → Keeps e (IsTracked e x) on_calls (round e ldk objects tip)
    unfolding round
    round-Keeps tip s h =
        round_for-Keeps (registrations_are_pending e s) (not (is_hash tip s.last_sync_hash)) tip
          (process_queues e s) (process_queues-IsTracked e x s h)

    next-Keeps :
        (loop : Bytes → Method e (Option (Unit {0})))
        → ((tip : Bytes) → Keeps e (IsTracked e x) on_calls (loop tip))
        → (r : Outcome MutinyError (Next e))
        → Keeps e (IsTracked e x) on_calls (next e ldk objects loop r)
    next-Keeps loop h (ok finished) v p = p
    next-Keeps loop h (ok (again t)) v p = h t v p
    next-Keeps loop h (err g) v p = p
    next-Keeps loop h panic v p = p

    sync_loop-Keeps :
        (fuel : ℕ) (tip : Bytes)
        → Keeps e (IsTracked e x) on_calls (sync_loop e ldk objects fuel tip)
    unfolding sync_loop
    sync_loop-Keeps zero tip s h = h
    sync_loop-Keeps (suc fuel) tip s h =
        next-Keeps (sync_loop e ldk objects fuel) (sync_loop-Keeps fuel)
          (round e ldk objects tip s).0 (round e ldk objects tip s).1 (round-Keeps tip s h)

    -- Where LDK has an object at least, no synchronization, of whatever length, whatever the
    -- explorer answers and however it ends, forgets a transaction: one that was queued, watched or
    -- reported as confirmed before is so afterwards.
    pub sync-IsTracked :
        (fuel : ℕ) (s : MutinyChain e)
        → IsTracked e x s
        → IsTracked e x (sync e ldk objects fuel s).1
    unfolding sync
    sync-IsTracked fuel =
        Keeps-ask-then e (IsTracked e x) on_calls e.get_tip_hash (sync_loop e ldk objects fuel)
          (sync_loop-Keeps fuel)
