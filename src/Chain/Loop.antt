-- ===== src/Chain/Loop.antt =====
-- The loop of `MutinyChain::sync` of node-manager/src/chain.rs and the transactions that it finds
-- confirmed. Log lines are left out.
use mutiny_web_poc.Prelude.{
  ℕ, zero, suc, Bool, true, false, Option, none, some, List, [], ◌∷◌, ◌++◌, Bytes, if◌then◌else◌,
  ◌==◌, partial_eq_bytes, partial_eq_nat, not, ◌&&◌, ◌||◌, leb, ltb,
}
use mutiny_web_poc.Prelude.Outcome.{Outcome, ok, err, panic, ◌>>>◌}
use mutiny_web_poc.Errors.{MutinyError, chain_access_failed}
use mutiny_web_poc.Chain.{MerkleProof, TxStatus, OutputStatus, Esplora, Confirm, ConfirmedTx, add}
use mutiny_web_poc.Chain.Sync.{
  Method, return, ask, process_queues, registrations_are_pending, is_hash, sync_best_block_updated,
  sync_confirmed_transactions, sync_unconfirmed_transactions,
}

-- Where two answers of the explorer have to agree, if there is an expected one.
abbrev pub agrees_hash : Option Bytes → Bytes → Bool
agrees_hash none hash = true
agrees_hash (some expected) hash = expected == hash

abbrev pub agrees_height : Option ℕ → ℕ → Bool
agrees_height none height = true
agrees_height (some known) height = height == known

abbrev pub is_chain_access_failed : MutinyError → Bool
is_chain_access_failed chain_access_failed = true
is_chain_access_failed _ = false

module _ (e : Esplora) where
  abbrev pub confirmed_tx :
      MerkleProof
      → Option ℕ
      → e.BlockHeader
      → Option e.Transaction
      → Method e (Option (ConfirmedTx e))
  confirmed_tx proof known_block_height block_header none = return e (ok none)
  confirmed_tx proof known_block_height block_header (some tx) =
      if agrees_height known_block_height proof.block_height
      then return e (
          ok (
            some (record {
              tx = tx;
              block_header = block_header;
              block_height = proof.block_height;
              pos = proof.pos;
            })))
      else return e (err chain_access_failed)

  abbrev pub proved_tx :
      Bytes → Option Bytes → Option ℕ → Option MerkleProof → Method e (Option (ConfirmedTx e))
  proved_tx txid expected_block_hash known_block_height none = return e (ok none)
  proved_tx txid expected_block_hash known_block_height (some proof) =
      ask e (λ n. e.get_block_hash n proof.block_height) >>> λ block_hash.
      if agrees_hash expected_block_hash block_hash
      then (ask e (λ n. e.get_header_by_hash n block_hash) >>> λ block_header.
          ask e (λ n. e.get_tx n txid) >>> confirmed_tx proof known_block_height block_header)
      else return e (err chain_access_failed)

  unfoldable pub get_confirmed_tx :
      Bytes → Option Bytes → Option ℕ → Method e (Option (ConfirmedTx e))
  unfolding ask return
  get_confirmed_tx txid expected_block_hash known_block_height =
      ask e (λ n. e.get_merkle_proof n txid)
      >>> proved_tx txid expected_block_hash known_block_height

  abbrev pub push : Option (ConfirmedTx e) → List (ConfirmedTx e) → List (ConfirmedTx e)
  push none txs = txs
  push (some tx) txs = txs ++ tx ∷ []

  -- The registered transactions that are confirmed.
  unfoldable pub registered : List Bytes → List (ConfirmedTx e) → Method e (List (ConfirmedTx e))
  unfolding get_confirmed_tx return
  registered [] confirmed_txs = return e (ok confirmed_txs)
  registered (txid ∷ txids) confirmed_txs =
      get_confirmed_tx txid none none >>> λ found. registered txids (push found confirmed_txs)

  -- What was found: the confirmed transactions, and the outputs that they spend.
  pub record Found : Type 0 where
    pub confirmed_txs : List (ConfirmedTx e)
    pub spent_outputs : List e.WatchedOutput

  abbrev pub spends : e.WatchedOutput → Found → Option (ConfirmedTx e) → Found
  spends output found none = found
  spends output found (some tx) = record {
    confirmed_txs = found.confirmed_txs ++ tx ∷ [];
    spent_outputs = add ⦃eq = e.outputs_eq⦄ output found.spent_outputs;
  }

  -- The transaction that spends an output, where the explorer says which one and in which block.
  abbrev pub spending_tx : Option OutputStatus → Method e (Option (ConfirmedTx e))
  spending_tx none = return e (ok none)
  spending_tx (some output) = spending output.txid output.status
    where
      spending : Option Bytes → Option TxStatus → Method e (Option (ConfirmedTx e))
      spending (some txid) (some status) =
          get_confirmed_tx txid status.block_hash status.block_height
      spending _ _ = return e (ok none)

  unfoldable pub check_outputs : List e.WatchedOutput → Found → Method e Found
  unfolding get_confirmed_tx ask return
  check_outputs [] found = return e (ok found)
  check_outputs (output ∷ outputs) found =
      ask e (λ n. e.get_output_status n (e.outpoint output).0 (e.outpoint output).1)
      >>> λ output_status.
          spending_tx output_status >>> λ tx. check_outputs outputs (spends output found tx)

  -- The order of blocks, and in a block of positions.
  abbrev pub is_before : ConfirmedTx e → ConfirmedTx e → Bool
  is_before tx1 tx2 =
      ltb tx1.block_height tx2.block_height
      || ((tx1.block_height == tx2.block_height) && leb tx1.pos tx2.pos)

  abbrev pub insert_tx : ConfirmedTx e → List (ConfirmedTx e) → List (ConfirmedTx e)
  insert_tx tx [] = tx ∷ []
  insert_tx tx (x ∷ xs) =
      let rest = insert_tx tx xs in if is_before tx x then tx ∷ x ∷ xs else x ∷ rest

  -- `sort_unstable_by` of the transactions. Equal ones stay in their order here; the code may mix them.
  unfoldable pub sort_txs : List (ConfirmedTx e) → List (ConfirmedTx e)
  sort_txs [] = []
  sort_txs (x ∷ xs) = insert_tx x (sort_txs xs)

  abbrev pub sorted : Found → Found
  sorted found = record found { confirmed_txs = sort_txs found.confirmed_txs }

  unfoldable pub get_confirmed_transactions : Method e Found
  unfolding registered check_outputs sort_txs return
  get_confirmed_transactions s =
      (registered s.watched_transactions [] >>> λ confirmed_txs.
      check_outputs s.watched_outputs (record { confirmed_txs = confirmed_txs; spent_outputs = [] })
      >>> λ found. return e (ok (sorted found)))
        s

  -- The end of a round of the loop: nothing to do, or another round for a tip.
  pub data Next : Type 0 where
    finished : Next
    again : Bytes → Next

  -- ChainAccessFailed restarts the loop, any other error ends it.
  abbrev pub restart :
      {A : Type 0} → Bytes → (A → Method e Next) → Outcome MutinyError A → Method e Next
  restart tip_hash rest (ok a) = rest a
  restart tip_hash rest (err g) =
      if is_chain_access_failed g then return e (ok (again tip_hash)) else return e (err g)
  restart tip_hash rest panic = return e panic

  unfoldable pub attempt : {A : Type 0} → Bytes → Method e A → (A → Method e Next) → Method e Next
  unfolding return
  attempt tip_hash m rest s = restart tip_hash rest (m s).0 (m s).1

  -- `*locked_last_sync_hash = Some(tip_hash)`
  unfoldable pub keep_tip : Bytes → Method e Next
  keep_tip tip_hash s = (ok (again tip_hash), record s { last_sync_hash = some tip_hash })

  module _ (ldk : Confirm e) (confirmables : List ℕ) where
    -- The tip is asked for again before the transactions are reported.
    unfoldable pub report : Bytes → Found → Method e Next
    unfolding ask sync_confirmed_transactions keep_tip return
    report tip_hash found = ask e e.get_tip_hash >>> λ check_tip_hash.
        if check_tip_hash == tip_hash
        then (sync_confirmed_transactions e ldk confirmables found.confirmed_txs found.spent_outputs
            >>> λ _. keep_tip tip_hash)
        else return e (ok (again check_tip_hash))

    unfoldable pub find_and_report : Bytes → Method e Next
    unfolding attempt get_confirmed_transactions report
    find_and_report tip_hash = attempt tip_hash get_confirmed_transactions (report tip_hash)

    -- A round after the queues were processed, by whether anything was pending and the tip is new.
    unfoldable pub round_for : Bool → Bool → Bytes → Method e Next
    unfolding find_and_report sync_unconfirmed_transactions attempt sync_best_block_updated return
    round_for pending true tip_hash = sync_unconfirmed_transactions e ldk confirmables >>> λ _.
        attempt tip_hash (sync_best_block_updated e ldk confirmables tip_hash)
          (λ _. find_and_report tip_hash)
    round_for true false tip_hash = find_and_report tip_hash
    round_for false false tip_hash = return e (ok finished)

    unfoldable pub round : Bytes → Method e Next
    unfolding round_for process_queues registrations_are_pending
    round tip_hash s =
        round_for (registrations_are_pending e s) (not (is_hash tip_hash s.last_sync_hash)) tip_hash
          (process_queues e s)

    abbrev pub next :
        (Bytes → Method e (Option (Unit {0})))
        → Outcome MutinyError Next
        → Method e (Option (Unit {0}))
    next loop (ok finished) s = (ok (some tt), s)
    next loop (ok (again tip_hash)) s = loop tip_hash s
    next loop (err g) s = (err g, s)
    next loop panic s = (panic, s)

    -- As many rounds as there is fuel for; `none` where the loop is not at its end.
    unfoldable pub sync_loop : ℕ → Bytes → Method e (Option (Unit {0}))
    unfolding round
    sync_loop zero tip_hash s = (ok none, s)
    sync_loop (suc fuel) tip_hash s =
        next (sync_loop fuel) (round tip_hash s).0 (round tip_hash s).1

    unfoldable pub sync : ℕ → Method e (Option (Unit {0}))
    unfolding ask sync_loop
    sync fuel = ask e e.get_tip_hash >>> sync_loop fuel
