-- ===== src/Chain/Sync.antt =====
-- `MutinyChain::sync` of node-manager/src/chain.rs and what it calls. Log lines are left out.
use mutiny_web_poc.Prelude.{
  ℕ, suc, Bool, true, false, Option, none, some, List, [], ◌∷◌, ◌++◌, Bytes, if◌then◌else◌, ◌==◌,
  partial_eq_bytes, partial_eq_nat, not, ◌||◌,
}
use mutiny_web_poc.Prelude.Assoc.{delete}
use mutiny_web_poc.Prelude.Outcome.{Outcome, ok, err, Action, ◌>>>◌}
use mutiny_web_poc.Errors.{MutinyError, chain_access_failed}
use mutiny_web_poc.Chain.{
  Esplora, Notice, best_block_updated, transactions_confirmed, transaction_unconfirmed, Confirm,
  MutinyChain, ConfirmedTx, add, extend, difference, to_set, relevant_eq,
}

abbrev pub is_empty : {A : Type 0} → List A → Bool
is_empty [] = true
is_empty (x ∷ xs) = false

-- `PartialEq` of an optional block hash
abbrev pub is_hash : Bytes → Option Bytes → Bool
is_hash hash none = false
is_hash hash (some h) = hash == h

module _ (e : Esplora) where
  abbrev pub Method {ℓ} : Type ℓ → Type ℓ
  Method A = Action MutinyError (MutinyChain e) A

  unfoldable pub return {ℓ} : {A : Type ℓ} → Outcome MutinyError A → Method A
  return r s = (r, s)

  abbrev pub or_failed : {A : Type 0} → Option A → Outcome MutinyError A
  or_failed none = err chain_access_failed
  or_failed (some a) = ok a

  -- A call of the block explorer; each of its errors becomes ChainAccessFailed.
  unfoldable pub ask : {A : Type 0} → (ℕ → Option A) → Method A
  ask answer s = (or_failed (answer s.calls), record s { calls = suc s.calls })

  unfoldable pub register_tx : Bytes → MutinyChain e → MutinyChain e
  register_tx txid s = record s { queued_transactions = add txid s.queued_transactions }

  unfoldable pub register_output : e.WatchedOutput → MutinyChain e → MutinyChain e
  register_output output s = record s {
    queued_outputs = add ⦃eq = e.outputs_eq⦄ output s.queued_outputs;
  }

  abbrev pub register_txs : List Bytes → MutinyChain e → MutinyChain e
  register_txs [] s = s
  register_txs (x ∷ xs) s = register_txs xs (register_tx x s)

  abbrev pub register_outputs : List e.WatchedOutput → MutinyChain e → MutinyChain e
  register_outputs [] s = s
  register_outputs (x ∷ xs) s = register_outputs xs (register_output x s)

  abbrev pub for_each : {A : Type 0} → List A → (A → Method (Unit {0})) → Method (Unit {0})
  for_each [] body = return (ok tt)
  for_each (x ∷ xs) body = body x >>> λ _. for_each xs body

  -- Both queues are moved to what is watched; whether there was anything.
  unfoldable pub process_queues : MutinyChain e → MutinyChain e
  process_queues s = record s {
    watched_transactions = extend s.watched_transactions s.queued_transactions;
    queued_transactions = [];
    watched_outputs = extend ⦃eq = e.outputs_eq⦄ s.watched_outputs s.queued_outputs;
    queued_outputs = [];
  }

  unfoldable pub registrations_are_pending : MutinyChain e → Bool
  registrations_are_pending s =
      not (is_empty s.queued_transactions) || not (is_empty s.queued_outputs)

  module _ (ldk : Confirm e) (confirmables : List ℕ) where
    -- One object is told something, and registers what it then wants.
    unfoldable pub notify : Notice e → ℕ → Method (Unit {0})
    unfolding register_tx register_output
    notify n c s = (
      ok tt,
      register_outputs (ldk.registered_outputs c n)
          (register_txs (ldk.registered_txs c n) (record s { notices = s.notices ++ (c, n) ∷ [] })),
    )

    unfoldable pub notify_all : Notice e → Method (Unit {0})
    unfolding notify return
    notify_all n = for_each confirmables (notify n)

    abbrev pub best_block : e.BlockHeader → Option ℕ → Method (Unit {0})
    best_block tip_header none = return (ok tt)
    best_block tip_header (some tip_height) = notify_all (best_block_updated tip_header tip_height)

    unfoldable pub sync_best_block_updated : Bytes → Method (Unit {0})
    unfolding ask notify_all return
    sync_best_block_updated tip_hash = ask (λ n. e.get_header_by_hash n tip_hash) >>> λ tip_header.
        ask (λ n. e.get_block_status n tip_hash) >>> λ tip_status.
        if tip_status.in_best_chain
        then best_block tip_header tip_status.height
        else return (err chain_access_failed)

    -- A transaction is watched until it was reported.
    unfoldable pub forget_tx : Bytes → Method (Unit {0})
    forget_tx txid s =
        (ok tt, record s { watched_transactions = delete txid s.watched_transactions })

    unfoldable pub forget_outputs : List e.WatchedOutput → Method (Unit {0})
    forget_outputs spent s = (
      ok tt,
      record s { watched_outputs = difference ⦃eq = e.outputs_eq⦄ s.watched_outputs spent },
    )

    unfoldable pub confirm : ConfirmedTx e → Method (Unit {0})
    unfolding notify_all forget_tx
    confirm ctx =
        notify_all (transactions_confirmed ctx.block_header ctx.pos ctx.tx ctx.block_height)
        >>> λ _. forget_tx (e.txid ctx.tx)

    unfoldable pub sync_confirmed_transactions :
        List (ConfirmedTx e) → List e.WatchedOutput → Method (Unit {0})
    unfolding confirm forget_outputs return
    sync_confirmed_transactions confirmed_txs spent_outputs =
        for_each confirmed_txs confirm >>> λ _. forget_outputs spent_outputs

    -- The transactions that the objects ask for, as a set.
    unfoldable pub relevant_txids : List ℕ → List (ℕ × Notice e) → List (Bytes × Option Bytes)
    relevant_txids [] notices = []
    relevant_txids (c ∷ cs) notices = ldk.get_relevant_txids c notices ++ relevant_txids cs notices

    unfoldable pub watch_tx : Bytes → Method (Unit {0})
    watch_tx txid s = (ok tt, record s { watched_transactions = add txid s.watched_transactions })

    unfoldable pub unconfirm : Bytes → Method (Unit {0})
    unfolding notify_all watch_tx
    unconfirm txid = notify_all (transaction_unconfirmed txid) >>> λ _. watch_tx txid

    unfoldable pub sync_unconfirmed : Bytes × Option Bytes → Method (Unit {0})
    unfolding ask unconfirm return
    sync_unconfirmed (txid, none) = unconfirm txid
    sync_unconfirmed (txid, some block_hash) =
        ask (λ n. e.get_block_status n block_hash) >>> λ block_status.
        if block_status.in_best_chain then return (ok tt) else unconfirm txid

    unfoldable pub sync_unconfirmed_transactions : Method (Unit {0})
    unfolding sync_unconfirmed relevant_txids return
    sync_unconfirmed_transactions s =
        for_each (to_set ⦃eq = relevant_eq⦄ (relevant_txids confirmables s.notices))
          sync_unconfirmed s
