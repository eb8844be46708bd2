-- ===== src/Chain/Rounds.antt =====
-- A round of the loop of node-manager/src/chain.rs where the explorer is steady and LDK registers
-- nothing: it reports, keeps the tip, and the next round is the last.
use mutiny_web_poc.Prelude.{
  ℕ, Option, none, some, List, [], ◌∷◌, Bytes, ◌≡◌, refl, partial_eq_bytes,
}
use mutiny_web_poc.Prelude.Outcome.{ok}
use mutiny_web_poc.Chain.{
  Esplora, OutputStatus, TxStatus, Notice, best_block_updated, Confirm, ConfirmedTx, to_set,
  relevant_eq,
}
use mutiny_web_poc.Chain.Sync.{
  return, for_each, notify, notify_all, best_block, sync_best_block_updated, forget_outputs,
  forget_tx, watch_tx, confirm, sync_confirmed_transactions, unconfirm, sync_unconfirmed,
  sync_unconfirmed_transactions, relevant_txids,
}
use mutiny_web_poc.Chain.Loop.{
  get_confirmed_tx, registered, push, Found, spends, spending_tx, check_outputs, sorted,
  get_confirmed_transactions,
}
use mutiny_web_poc.Chain.Steady.{
  IsSteady, Runs, Runs-chain, Runs-return, Runs-ask-then, Runs-if, Runs-then, Runs-for_each,
  get_confirmed_tx-Runs,
}

module _ (e : Esplora) (tip : Bytes) (steady : IsSteady e tip) where
  registered-Runs :
      (txids : List Bytes) (txs : List (ConfirmedTx e)) → Runs e (registered e txids txs)
  unfolding registered
  registered-Runs [] txs = Runs-return e txs
  registered-Runs (txid ∷ txids) txs =
      Runs-chain e (get_confirmed_tx e txid none none)
        (λ found. registered e txids (push e found txs))
        (get_confirmed_tx-Runs e tip steady txid none none (λ m k proof hash a b. (refl, refl)))
        (λ found. registered-Runs txids (push e found txs))

  spending_tx-Runs :
      (n : ℕ) (txid : Bytes) (i : ℕ) (o : Option OutputStatus)
      → e.get_output_status n txid i ≡ some o
      → Runs e (spending_tx e o)
  spending_tx-Runs n txid i none known = Runs-return e none
  spending_tx-Runs n txid i (some output) known = go output.txid output.status known
    where
      go :
          (t : Option Bytes) (s : Option TxStatus)
          → e.get_output_status n txid i ≡ some (some (record { txid = t; status = s }))
          → Runs e (spending_tx e (some (record { txid = t; status = s })))
      go none s said = Runs-return e none
      go (some t) none said = Runs-return e none
      go (some t) (some s) said =
          get_confirmed_tx-Runs e tip steady t s.block_hash s.block_height
            (λ m k proof hash a b. steady.agree n m k txid t i s proof hash said a b)

  check_outputs-Runs :
      (outputs : List e.WatchedOutput) (found : Found e) → Runs e (check_outputs e outputs found)
  unfolding check_outputs
  check_outputs-Runs [] found = Runs-return e found
  check_outputs-Runs (output ∷ outputs) found =
      Runs-ask-then e (λ n. e.get_output_status n (e.outpoint output).0 (e.outpoint output).1) _
        (λ n. steady.outputs n (e.outpoint output).0 (e.outpoint output).1)
        λ n status said.
          Runs-chain e (spending_tx e status)
            (λ tx. check_outputs e outputs (spends e output found tx))
            (spending_tx-Runs n (e.outpoint output).0 (e.outpoint output).1 status said)
            (λ tx. check_outputs-Runs outputs (spends e output found tx))

  pub get_confirmed_transactions-Runs : Runs e (get_confirmed_transactions e)
  unfolding get_confirmed_transactions
  get_confirmed_transactions-Runs s q =
      Runs-chain e (registered e s.watched_transactions []) _ (registered-Runs _ [])
        (λ txs.
          Runs-chain e
            (check_outputs e s.watched_outputs (record { confirmed_txs = txs; spent_outputs = [] }))
            (λ found. return e (ok (sorted e found))) (check_outputs-Runs s.watched_outputs _)
            (λ found. Runs-return e (sorted e found)))
        s q

  module _ (ldk : Confirm e) (objects : List ℕ)
      (no_txs : (c : ℕ) (n : Notice e) → ldk.registered_txs c n ≡ [])
      (no_outputs : (c : ℕ) (n : Notice e) → ldk.registered_outputs c n ≡ []) where
    notify-Runs : (n : Notice e) (c : ℕ) → Runs e (notify e ldk objects n c)
    unfolding notify
    notify-Runs n c s q = rw (no_txs c n, no_outputs c n) ((tt, refl), q)

    notify_all-Runs : (n : Notice e) → Runs e (notify_all e ldk objects n)
    unfolding notify_all
    notify_all-Runs n = Runs-for_each e (notify e ldk objects n) (notify-Runs n) objects

    forget_tx-Runs : (txid : Bytes) → Runs e (forget_tx e ldk objects txid)
    unfolding forget_tx
    forget_tx-Runs txid s q = ((tt, refl), q)

    watch_tx-Runs : (txid : Bytes) → Runs e (watch_tx e ldk objects txid)
    unfolding watch_tx
    watch_tx-Runs txid s q = ((tt, refl), q)

    forget_outputs-Runs :
        (spent : List e.WatchedOutput) → Runs e (forget_outputs e ldk objects spent)
    unfolding forget_outputs
    forget_outputs-Runs spent s q = ((tt, refl), q)

    confirm-Runs : (ctx : ConfirmedTx e) → Runs e (confirm e ldk objects ctx)
    unfolding confirm
    confirm-Runs ctx =
        Runs-chain e (notify_all e ldk objects _) (λ _. forget_tx e ldk objects (e.txid ctx.tx))
          (notify_all-Runs _) (λ _. forget_tx-Runs (e.txid ctx.tx))

    pub sync_confirmed_transactions-Runs :
        (txs : List (ConfirmedTx e)) (spent : List e.WatchedOutput)
        → Runs e (sync_confirmed_transactions e ldk objects txs spent)
    unfolding sync_confirmed_transactions
    sync_confirmed_transactions-Runs txs spent =
        Runs-chain e (for_each e txs (confirm e ldk objects))
          (λ _. forget_outputs e ldk objects spent)
          (Runs-for_each e (confirm e ldk objects) confirm-Runs txs)
          (λ _. forget_outputs-Runs spent)

    unconfirm-Runs : (txid : Bytes) → Runs e (unconfirm e ldk objects txid)
    unfolding unconfirm
    unconfirm-Runs txid =
        Runs-chain e (notify_all e ldk objects _) (λ _. watch_tx e ldk objects txid)
          (notify_all-Runs _) (λ _. watch_tx-Runs txid)

    pub sync_unconfirmed-Runs :
        (r : Bytes × Option Bytes) → Runs e (sync_unconfirmed e ldk objects r)
    unfolding sync_unconfirmed
    sync_unconfirmed-Runs (txid, none) = unconfirm-Runs txid
    sync_unconfirmed-Runs (txid, some hash) =
        Runs-ask-then e (λ n. e.get_block_status n hash) _ (λ n. steady.statuses n hash)
          λ _ status _. Runs-if e status.in_best_chain _ _ (Runs-return e tt) (unconfirm-Runs txid)

    pub sync_unconfirmed_transactions-Runs : Runs e (sync_unconfirmed_transactions e ldk objects)
    unfolding sync_unconfirmed_transactions
    sync_unconfirmed_transactions-Runs s =
        Runs-for_each e (sync_unconfirmed e ldk objects) sync_unconfirmed-Runs
          (to_set ⦃eq = relevant_eq⦄ (relevant_txids e ldk objects objects s.notices)) s

    best_block-Runs :
        (header : e.BlockHeader) (height : Option ℕ)
        → Runs e (best_block e ldk objects header height)
    best_block-Runs header none = Runs-return e tt
    best_block-Runs header (some height) = notify_all-Runs (best_block_updated header height)

    pub sync_best_block_updated-Runs : Runs e (sync_best_block_updated e ldk objects tip)
    unfolding sync_best_block_updated
    sync_best_block_updated-Runs =
        Runs-ask-then e (λ n. e.get_header_by_hash n tip) _ (λ n. steady.headers n tip)
          λ _ header _.
            Runs-ask-then e (λ n. e.get_block_status n tip) _ (λ n. steady.statuses n tip)
              λ n status said.
                Runs-then e status.in_best_chain _ _ (steady.best n status said)
                  (best_block-Runs header status.height)
